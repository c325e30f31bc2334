-- ===== src/PeerManager/Heartbeat.antt =====
-- peer_manager.rs: the heartbeat and `poll`.
use native.Mathlib.Nat.{mod-eq_of_lt}
use cl_p2p_setup.Base.{
  ℕ, ◌+◌, ◌-◌, ◌/◌, ◌%◌, ◌≤◌, ◌<◌, ◌≡◌, ◌↔◌, refl, sym, ap, subst, inl, inr, Option, none, arith,
  length, ltb, ltb→lt, not_ltb→le, Bool-cases, dec_lt,
}
use cl_p2p_setup.Base.Machine.{
  Outcome, returns, panics, Profile, checked, wrapping, u32_mod, sub_word, sub_word-returns,
  sub_word-overflow,
}
use cl_p2p_setup.PeerManager.{PeerManager, PeerManagerEvent}
use cl_p2p_setup.PeerManager.Dialling.{timeout_dialling_peers}
use cl_p2p_setup.PeerManager.Poll.{Tick, connected_and_dialling_peers, beat}
use cl_p2p_setup.PeerManager.Invariant.{IsConsistent}
use cl_p2p_setup.PeerManager.Start.{timeout_dialling_peers-IsConsistent}
use cl_p2p_setup.PeerManager.Safety.{HasRequested, request_dials-HasRequested}

module _ {PeerId Multiaddr IdentifyInfo : Type 0} (eq : Discrete PeerId) where
  -- The state in which the heartbeat at `tick` counts the peers, and their number.
  abbrev pub timed :
      PeerManager PeerId Multiaddr IdentifyInfo → Tick → PeerManager PeerId Multiaddr IdentifyInfo
  timed s tick = timeout_dialling_peers eq s tick.now

  abbrev pub busy_peers : PeerManager PeerId Multiaddr IdentifyInfo → Tick → ℕ
  busy_peers s tick = length (connected_and_dialling_peers eq (timed s tick))

  -- What a heartbeat makes of a consistent state in which `missing` peers are to be found: no panic,
  -- and the timeouts alone if these are at most a quarter of the peers that are still to be
  -- discovered; otherwise some of them are dialled, and the others left to discovery.
  pub data Beats (s : PeerManager PeerId Multiaddr IdentifyInfo) (tick : Tick) (missing : ℕ)
      (r : Outcome (PeerManager PeerId Multiaddr IdentifyInfo × Option (PeerManagerEvent PeerId)))
      : Type 0 where
    rests :
        missing ≤ s.peers_to_discover / 4
        → r ≡ returns (timed s tick, none)
        → Beats s tick missing r
    requests :
        s.peers_to_discover / 4 < missing
        → HasRequested eq (timed s tick) missing r
        → Beats s tick missing r

  timed_target :
      (s : PeerManager PeerId Multiaddr IdentifyInfo) (tick : Tick)
      → (timed s tick).target_peer_number ≡ s.target_peer_number
  unfolding timeout_dialling_peers
  timed_target s tick = refl

  timed_discover :
      (s : PeerManager PeerId Multiaddr IdentifyInfo) (tick : Tick)
      → (timed s tick).peers_to_discover ≡ s.peers_to_discover
  unfolding timeout_dialling_peers
  timed_discover s tick = refl

  pub beat-missing :
      (profile : Profile) (s : PeerManager PeerId Multiaddr IdentifyInfo) (tick : Tick)
      (missing : ℕ)
      → missing < u32_mod
      → sub_word u32_mod profile s.target_peer_number (busy_peers s tick % u32_mod)
        ≡ returns missing
      → IsConsistent eq s
      → Beats s tick missing (beat eq profile s tick)
  unfolding beat
  beat-missing profile s tick missing h e v =
      let e' =
        subst (λ t. sub_word u32_mod profile t (busy_peers s tick % u32_mod) ≡ returns missing)
          (sym (timed_target s tick)) e in
      elim (Bool-cases (ltb ((timed s tick).peers_to_discover / 4) missing)) [
        | inl t ↦ rw e' (
            rw t (
              requests (rw (timed_discover s tick) at (ltb→lt _ _ t)) (
                request_dials-HasRequested eq profile tick.clock (timed s tick) missing h
                  (timeout_dialling_peers-IsConsistent eq s tick.now v))))
        | inr t ↦ rw e' (rw t (rests (rw (timed_discover s tick) at (not_ltb→le _ _ t)) refl))
      ]

  -- While no more peers are connected or dialled than the target, the heartbeat does not panic, in
  -- either build, and asks for exactly the peers that are missing to the target: if these are more
  -- than a quarter of the peers that are still to be discovered, it dials some of them, each of which
  -- is then in the set of dialled peers with a connection under way, and leaves the others to
  -- discovery; otherwise only timeouts are handled.
  pub beat-Beats :
      (profile : Profile) (s : PeerManager PeerId Multiaddr IdentifyInfo) (tick : Tick)
      → IsConsistent eq s
      → busy_peers s tick ≤ s.target_peer_number
      → Beats s tick (s.target_peer_number - busy_peers s tick) (beat eq profile s tick)
  beat-Beats profile s tick v h =
      let range = v.in_range in
      beat-missing profile s tick (s.target_peer_number - busy_peers s tick) (omega arith)
        (rw (
          mod-eq_of_lt {n = busy_peers s tick} {m = u32_mod} (omega arith),
          sub_word-returns u32_mod profile s.target_peer_number (busy_peers s tick) h,
        ))
        v

  beat-overflow :
      (s : PeerManager PeerId Multiaddr IdentifyInfo) (tick : Tick)
      → busy_peers s tick < u32_mod
      → s.target_peer_number < busy_peers s tick
      → beat eq checked s tick ≡ panics
  unfolding beat
  beat-overflow s tick h over = rw (
    mod-eq_of_lt {n = busy_peers s tick} {m = u32_mod} h,
    sub_word-overflow u32_mod checked (timed s tick).target_peer_number (busy_peers s tick)
        (subst (λ t. t < busy_peers s tick) (sym (timed_target s tick)) over),
  )

  -- In a build with overflow checks the heartbeat panics exactly when more peers are connected or
  -- dialled than the target, for consistent tables of less than 2 ^ 32 such peers.
  pub beat-eq-panics :
      (s : PeerManager PeerId Multiaddr IdentifyInfo) (tick : Tick)
      → IsConsistent eq s
      → busy_peers s tick < u32_mod
      → (beat eq checked s tick ≡ panics) ↔ (s.target_peer_number < busy_peers s tick)
  beat-eq-panics s tick v h = (
    λ e. elim (dec_lt s.target_peer_number (busy_peers s tick)) [
      | yes over ↦ over
      | no within ↦ elim (beat-Beats checked s tick v (omega arith)) [
        | rests _ r ↦ cc
        | requests _ r ↦ cc r.result
      ]
    ],
    beat-overflow s tick h,
  )

  -- In a build without overflow checks the heartbeat then asks for almost 2 ^ 32 peers: the
  -- difference to the target, wrapped around.
  pub beat_wraps :
      (s : PeerManager PeerId Multiaddr IdentifyInfo) (tick : Tick)
      → IsConsistent eq s
      → s.target_peer_number < busy_peers s tick
      → busy_peers s tick < u32_mod
      → Beats s tick (u32_mod + s.target_peer_number - busy_peers s tick) (beat eq wrapping s tick)
  beat_wraps s tick v over h =
      beat-missing wrapping s tick (u32_mod + s.target_peer_number - busy_peers s tick)
        (omega arith)
        (rw
          (
            mod-eq_of_lt {n = busy_peers s tick} {m = u32_mod} h,
            sub_word-overflow u32_mod wrapping s.target_peer_number (busy_peers s tick) over,
          )
          (ap returns (omega arith)))
        v
