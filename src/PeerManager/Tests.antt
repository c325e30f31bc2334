-- ===== src/PeerManager/Tests.antt =====
-- Small managers of peers 1 to 4, what the code does on them, and the theorems at them.
use cl_p2p_setup.Base.{
  ℕ, ◌+◌, ◌-◌, ◌≤◌, ◌<◌, ◌≡◌, ◌↔◌, refl, ite, true, false, not, ◌&&◌, Option, none, some, List, [],
  ◌∷◌, last, set_last, if◌then◌else◌, arith, ℕ_discrete,
}
use cl_p2p_setup.Base.Tables.{lookup, insert, contains, add, discard, extend}
use cl_p2p_setup.Base.Machine.{Outcome, returns, panics, checked, wrapping, u32_mod}
use cl_p2p_setup.PeerManager.{
  ConnectionStatus, connecting, connected, disconnected, failed, ConnectionData, PeerData,
  PeerManager, PeerManagerEvent, dial_peers, connection_established, as_millis, new, new_duration,
  average_with, last_connection, update_average_connection_duration, on_connection_established,
  on_connection_closed, on_dial_failure, on_swarm_event, add_each, add_peers,
}
use cl_p2p_setup.PeerManager.Dialling.{
  is_overdue, get_peer_score, is_redialable, candidates, insert_sorted, sort_by_score, check_dial,
  check_dials, discard_all, take_new, get_best_peers_for_redial, get_new_peers_for_dialling,
  timeout_dialling_peers, peer_connecting, start_dials, get_peers_to_dial,
}
use cl_p2p_setup.PeerManager.Poll.{
  Tick, connected_and_dialling_peers, request_dials, beat, beats, poll,
}
use cl_p2p_setup.PeerManager.Timeouts.{gives_up, marked, timeout_dialling_peers_lem}
use cl_p2p_setup.PeerManager.Average.{IsMean, update_average_connection_duration-IsMean}
use cl_p2p_setup.PeerManager.Redial.{HasLowestScores, get_best_peers_for_redial-HasLowestScores}
use cl_p2p_setup.PeerManager.Invariant.{IsConsistent, has_attempt, on_swarm_event-IsConsistent}
use cl_p2p_setup.PeerManager.Heartbeat.{Beats, busy_peers, beat-Beats, beat-eq-panics, beat_wraps}
use cl_p2p_setup.PeerManager.Reach.{start, next, discovers, HasPolled, Reach-HasPolled}
use cl_p2p_setup.PeerManager.Discover.{
  poll-discover, on_connection_established-eq-panics, on_connection_established_lem,
}

abbrev pub Manager : Type 0
Manager = PeerManager ℕ ℕ ℕ

program : Unit {0}
unfolding lookup insert contains add discard extend new new_duration average_with last_connection
    update_average_connection_duration on_connection_established on_connection_closed
    on_dial_failure on_swarm_event add_each add_peers is_overdue get_peer_score is_redialable
    candidates insert_sorted sort_by_score check_dial check_dials discard_all take_new
    get_best_peers_for_redial get_new_peers_for_dialling timeout_dialling_peers peer_connecting
    start_dials get_peers_to_dial connected_and_dialling_peers request_dials beat beats poll
    ℕ_discrete
program = tt

abbrev pub attempt : ConnectionStatus → ConnectionData
attempt status = record {
  established_timestamp = some 1_000_000;
  failure_timestamp = none;
  disconnect_timestamp = some 4_001_000_000;
  dial_timestamp = 0;
  connection_status = status;
}

abbrev pub peer : ConnectionStatus → Option ℕ → PeerData ℕ
peer status average = record {
  connection_history = attempt status ∷ [];
  average_connection_duration = average;
  multiaddr = none;
}

-- Peer 1 is connected, 2 is dialled, 3 may be redialled, 4 was discovered.
abbrev pub four : Manager
four = record {
  connected_peers = 1 ∷ [];
  dialling_peers = 2 ∷ [];
  new_peers = 4 ∷ [];
  peer_data =
      (1, peer connected (some 5000))
      ∷ (2, peer connecting none)
      ∷ (3, peer failed (some 4000))
      ∷ (
        4,
        record { connection_history = []; average_connection_duration = none; multiaddr = none },
      )
      ∷ [];
  peer_identities = [];
  target_peer_number = 4;
  peers_to_discover = 0;
  waiting_for_peer_discovery = false;
}

abbrev tick : Tick
tick = record { now = 100; clock = λ n. 200 + n }

abbrev late : Tick
late = record { now = 6_000_000_000; clock = λ n. 6_000_000_000 + n }

-- One connection more than the target.
abbrev crowded : Manager
crowded = record four { target_peer_number = 1 }

abbrev waiting : Manager
waiting = record four { peers_to_discover = 3 }

-- The peer to redial comes before the new one.
abbrev asked : Outcome (Manager × Option (PeerManagerEvent ℕ)) → Option (PeerManagerEvent ℕ)
asked panics = none
asked (returns (s, event)) = event

beat_dials : asked (beat ℕ_discrete checked four tick) ≡ some (dial_peers (3 ∷ 4 ∷ []))
unfolding program
beat_dials = refl

best_first : get_best_peers_for_redial four 5 ≡ 3 ∷ []
unfolding program
best_first = refl

-- The lower average is chosen.
lowest_first :
    get_best_peers_for_redial
      (record four { peer_data = (1, peer failed (some 9000)) ∷ (3, peer failed (some 4000)) ∷ [] })
      1
    ≡ 3 ∷ []
unfolding program
lowest_first = refl

four-IsConsistent : IsConsistent ℕ_discrete four
unfolding contains lookup
four-IsConsistent = record {
  in_range = omega arith;
  known = λ p h. ground arith;
  dialled = λ p h. ground arith;
  linked = λ p h. ground arith;
}

crowded-IsConsistent : IsConsistent ℕ_discrete crowded
crowded-IsConsistent =
    let v = four-IsConsistent in
    record { in_range = omega arith; known = v.known; dialled = v.dialled; linked = v.linked }

busy_two : busy_peers ℕ_discrete four tick ≡ 2
unfolding program
busy_two = refl

crowded_two : busy_peers ℕ_discrete crowded tick ≡ 2
unfolding program
crowded_two = refl

timeout_dialling_peers_example :
    (contains ℕ_discrete 2 (timeout_dialling_peers ℕ_discrete four 6_000_000_000).dialling_peers ≡ (
      contains ℕ_discrete 2 four.dialling_peers
      && not (gives_up 6_000_000_000 (lookup ℕ_discrete 2 four.peer_data))))
    × (lookup ℕ_discrete 2 (timeout_dialling_peers ℕ_discrete four 6_000_000_000).peer_data ≡ (
        if contains ℕ_discrete 2 four.dialling_peers
        then marked 6_000_000_000 (lookup ℕ_discrete 2 four.peer_data)
        else lookup ℕ_discrete 2 four.peer_data))
timeout_dialling_peers_example = timeout_dialling_peers_lem ℕ_discrete four 6_000_000_000 2

get_best_peers_for_redial_example :
    HasLowestScores 5 four.peer_data (get_best_peers_for_redial four 5)
get_best_peers_for_redial_example = get_best_peers_for_redial-HasLowestScores four 5

abbrev closed_peer : PeerData ℕ
closed_peer = record {
  connection_history = attempt failed ∷ attempt disconnected ∷ [];
  average_connection_duration = some 1000;
  multiaddr = none;
}

update_average_example :
    (q : ℕ) × (update_average_connection_duration checked closed_peer
      ≡ returns (record closed_peer { average_connection_duration = some q }))
    × IsMean 1000 (as_millis 4_000_000_000) 2 q
    × (Prim.Native.Nat.min 1000 (as_millis 4_000_000_000) ≤ q)
    × (q ≤ Prim.Native.Nat.max 1000 (as_millis 4_000_000_000))
unfolding new_duration
update_average_example =
    update_average_connection_duration-IsMean checked closed_peer (attempt disconnected)
      4_000_000_000 1000 refl refl refl (omega arith)

-- `four` after the connection to peer 2.
abbrev linked : Manager
linked = record four {
  connected_peers = 1 ∷ 2 ∷ [];
  dialling_peers = [];
  peer_data =
      (1, peer connected (some 5000))
      ∷ (
        2,
        record {
          connection_history = record (attempt connected) { established_timestamp = some 50 } ∷ [];
          average_connection_duration = none;
          multiaddr = none;
        },
      )
      ∷ (3, peer failed (some 4000))
      ∷ (
        4,
        record { connection_history = []; average_connection_duration = none; multiaddr = none },
      )
      ∷ [];
}

on_swarm_event_example : IsConsistent ℕ_discrete linked
unfolding program
on_swarm_event_example =
    on_swarm_event-IsConsistent ℕ_discrete checked four (connection_established 2) 50 refl
      four-IsConsistent

beat-Beats_example :
    Beats ℕ_discrete four tick
      (4 - busy_peers ℕ_discrete four tick)
      (beat ℕ_discrete checked four tick)
beat-Beats_example =
    beat-Beats ℕ_discrete checked four tick four-IsConsistent (omega (arith, busy_two))

beat-eq-panics_example :
    (beat ℕ_discrete checked crowded tick ≡ panics) ↔ (1 < busy_peers ℕ_discrete crowded tick)
beat-eq-panics_example =
    beat-eq-panics ℕ_discrete crowded tick crowded-IsConsistent (omega (arith, crowded_two))

beat_wraps_example :
    Beats ℕ_discrete crowded tick
      (u32_mod + 1 - busy_peers ℕ_discrete crowded tick)
      (beat ℕ_discrete wrapping crowded tick)
beat_wraps_example =
    beat_wraps ℕ_discrete crowded tick crowded-IsConsistent (omega (arith, crowded_two))
      (omega (arith, crowded_two))

abbrev found_peers : List (ℕ × Option ℕ)
found_peers = (7, some 1) ∷ (8, none) ∷ []

abbrev grown : Manager
grown = add_peers ℕ_discrete (new 16) found_peers

Reach-HasPolled_example : HasPolled ℕ_discrete (poll ℕ_discrete wrapping (tick ∷ late ∷ []) grown)
Reach-HasPolled_example =
    Reach-HasPolled ℕ_discrete {target = 16} (tick ∷ late ∷ []) (omega arith)
      (next start (discovers found_peers))

poll-discover_example :
    (waiting.waiting_for_peer_discovery ≡ false)
    × (3 ≡ waiting.peers_to_discover)
    × (0 < 3)
    × ((record waiting { peers_to_discover = 0; waiting_for_peer_discovery = true })
        ≡ record waiting { peers_to_discover = 0; waiting_for_peer_discovery = true })
unfolding poll
poll-discover_example = poll-discover ℕ_discrete checked (tick ∷ []) waiting _ 3 refl

on_connection_established-eq-panics_example :
    (on_connection_established ℕ_discrete four 9 50 ≡ panics)
    ↔ (has_attempt (lookup ℕ_discrete 9 four.peer_data) ≡ false)
on_connection_established-eq-panics_example =
    on_connection_established-eq-panics ℕ_discrete four 9 50

on_connection_established_example :
    (d : PeerData ℕ) × (c : ConnectionData) × (lookup ℕ_discrete 2 four.peer_data ≡ some d)
    × (last d.connection_history ≡ some c)
    × (lookup ℕ_discrete 2 linked.peer_data
        ≡ ite
            (ℕ_discrete 2 2)
            (some (record d {
              connection_history =
                  set_last d.connection_history
                    (record c { established_timestamp = some 50; connection_status = connected });
            }))
            (lookup ℕ_discrete 2 four.peer_data))
    × (contains ℕ_discrete 2 linked.connected_peers
        ≡ ite (ℕ_discrete 2 2) true (contains ℕ_discrete 2 four.connected_peers))
    × (contains ℕ_discrete 2 linked.dialling_peers
        ≡ ite (ℕ_discrete 2 2) false (contains ℕ_discrete 2 four.dialling_peers))
    × (linked ≡ record four {
      peer_data = linked.peer_data;
      connected_peers = linked.connected_peers;
      dialling_peers = linked.dialling_peers;
    })
unfolding program
on_connection_established_example = on_connection_established_lem ℕ_discrete four linked 2 50 2 refl
