-- ===== src/Rpc/Codec/Laws.antt =====
-- rpc/codec/: what the codecs rely on of varints and snappy frames, as documented there.
use cl_p2p_setup.Base.{ℕ, ◌≤◌, ◌<◌, ◌≡◌, none, some, ◌∷◌, ◌++◌, length, take}
use cl_p2p_setup.Base.Swarm.{ok, err}
use cl_p2p_setup.Base.Machine.{usize_mod}
use cl_p2p_setup.Rpc.Protocol.{max_rpc_size_post_merge}
use cl_p2p_setup.Rpc.Codec.{Bytes, Wire}

-- A varint is a byte at least, and is read back without a look at what follows; a varint that is cut
-- asks for more. Frames are read back without a look at what follows, by a reader that may see them
-- whole; frames that are cut are an error; and a reader does not come further than it may see. Up to
-- the limit on messages, frames are no longer than the bound of the compressor.
pub record WireLaws (wire : Wire) : Type 0 where
  pub varint : (n : ℕ) → Bytes
  pub put_is : (n : ℕ) → n < usize_mod → wire.put_length n ≡ ok (varint n)
  pub varint_size : (n : ℕ) → n < usize_mod → 1 ≤ length (varint n)
  pub get_put :
      (n : ℕ) (rest : Bytes)
      → n < usize_mod
      → wire.get_length (varint n ++ rest) ≡ ok (some (n, rest))
  pub get_cut :
      (n x : ℕ) (front back : Bytes)
      → n < usize_mod
      → varint n ≡ front ++ x ∷ back
      → wire.get_length front ≡ ok none
  pub frames : Bytes → Bytes
  pub compress_is : (bytes : Bytes) → wire.compress bytes ≡ ok (frames bytes)
  pub frames_fit :
      (bytes : Bytes)
      → length bytes ≤ max_rpc_size_post_merge
      → length (frames bytes) ≤ wire.max_compress_len (length bytes)
  pub read_frames :
      (bytes rest : Bytes) (k : ℕ)
      → length (frames bytes) ≤ k
      → wire.read_exact (take k (frames bytes ++ rest)) (length bytes)
        ≡ ok (bytes, length (frames bytes))
  pub read_cut :
      (bytes front back : Bytes) (x k : ℕ)
      → frames bytes ≡ front ++ x ∷ back
      → wire.read_exact (take k front) (length bytes) ≡ err tt
  pub read_within :
      (seen buffer : Bytes) (size n : ℕ)
      → wire.read_exact seen size ≡ ok (buffer, n)
      → n ≤ length seen
