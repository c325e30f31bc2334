-- ===== src/Enr/Tests.antt =====
-- A small library of records, and the theorem there.
use cl_p2p_setup.Base.{
  ℕ, ◌^◌, ◌-◌, suc, zero, ◌≡◌, refl, ap, sym, Option, none, some, [], ◌∷◌, ◌++◌, length, take, drop,
  take-length, drop-length,
}
use cl_p2p_setup.Base.Swarm.{Result, ok, err}
use cl_p2p_setup.Base.Machine.{returns}
use cl_p2p_setup.Rpc.Codec.{Bytes}
use cl_p2p_setup.Chain
use cl_p2p_setup.Chain.{TreeHash, bellatrix_fork_version}
use cl_p2p_setup.Enr.{Library, CombinedPublicKey, build_enr}
use cl_p2p_setup.Enr.OwnRecord.{Laws}

abbrev encode : Chain.ForkId → Bytes
encode fork =
    length fork.fork_digest ∷ fork.next_fork_epoch ∷ (fork.fork_digest ++ fork.next_fork_version)

abbrev decode : Bytes → Option Chain.ForkId
decode (n ∷ epoch ∷ rest) =
    some (record {
      fork_digest = take n rest;
      next_fork_version = drop n rest;
      next_fork_epoch = epoch;
    })
decode _ = none

-- A record, also one that is being built, is the bytes of its last field and its port.
abbrev pub small : Library
small = record {
  Enr = Option Bytes × Option ℕ;
  CombinedKey = Bytes;
  Builder = Option Bytes × Option ℕ;
  new_builder = λ id. (none, none);
  ip = λ address b. b;
  udp4 = λ port b. b;
  tcp4 = λ port b. (b.0, some port);
  add_value = λ field bytes b. (some bytes, b.1);
  build = λ key b. ok b;
  get = λ field enr. enr.0;
  tcp4_of = λ enr. enr.1;
  public_key = λ enr. CombinedPublicKey.secp256k1 [];
  encode_fork_id = encode;
  decode_fork_id = decode;
}

abbrev zeros : ℕ → Bytes
zeros zero = []
zeros (suc n) = 0 ∷ zeros n

abbrev pub zero_hash : TreeHash
zero_hash = record { fork_data_root = λ forked. zeros 32; signing_data_root = λ signed. zeros 32 }

abbrev built : Result (Option Bytes × Option ℕ) (Unit {0}) → Option Bytes × Option ℕ
built (ok enr) = enr
built (err e) = (none, none)

pub small_laws : Laws small zero_hash
small_laws = record {
  get_eth2 = λ key bytes b enr e. ap (λ r. (built r).0) (sym e);
  get_tcp4 = λ key port bytes b enr e. ap (λ r. (built r).1) (sym e);
  decode_encode = λ fork.
      rw
        (
          take-length fork.fork_digest fork.next_fork_version,
          drop-length fork.fork_digest fork.next_fork_version,
        )
        refl;
  root_size = λ forked. refl;
}

-- The record that is built with the key 7.
abbrev pub own_record : small.Enr
own_record = (
  some (
      encode (record {
        fork_digest = 0 ∷ 0 ∷ 0 ∷ 0 ∷ [];
        next_fork_version = bellatrix_fork_version;
        next_fork_epoch = 2 ^ 64 - 1;
      })),
  some 9000,
)

builds : build_enr small zero_hash (7 ∷ []) ≡ returns own_record
unfolding build_enr Chain.new Chain.compute_fork_digest Chain.compute_fork_data_root
builds = refl
