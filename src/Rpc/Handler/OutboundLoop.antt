-- ===== src/Rpc/Handler/OutboundLoop.antt =====
-- rpc/handler.rs: the whole loop over the outbound streams.
use cl_p2p_setup.Base.{
  ◌≡◌, ◌≢◌, refl, sym, Bool, true, false, none, some, [], ◌∷◌, ◌++◌, if◌then◌else◌,
}
use cl_p2p_setup.Base.Swarm.{ok, err, ready, pending}
use cl_p2p_setup.Base.Machine.{Outcome, returns, panics, ◌>>=◌}
use cl_p2p_setup.Rpc.Handler.{
  SubstreamId, DelayQueue, OutboundSubstreamState, request_pending_response, closing, OutboundInfo,
}
use cl_p2p_setup.Rpc.Handler.Poll.{Context, custom}
use cl_p2p_setup.Rpc.Handler.OutboundStreams.{
  Streams, Swept, Visited, keeps, removes, answers, received, kept, accept_response, visit, sweep,
}
use cl_p2p_setup.Rpc.Outbound.{OutboundRequest}
use cl_p2p_setup.Rpc.Handler.Dials.{option_dials}
use cl_p2p_setup.Rpc.Handler.Table.{IsTable, AllKeys, IsAbsent, absent-IsTable}
use cl_p2p_setup.Rpc.Handler.Timers.{Laws, Keeps}
use cl_p2p_setup.Rpc.Handler.OutboundSafety.{
  is_lost, IsOpen, Keeps-Carries-IsOpen, VisitedOpen, Visit, awaiting-Visit, closing-Visit,
}

module _ {timers : DelayQueue} (laws : Laws timers) {ReqId : Type 0} where
  open timers use {Queue, Key}

  visit-Visit :
      (cx : Context) (dead : Bool) (id : SubstreamId) (info : OutboundInfo ReqId Key) (q : Queue)
      → IsOpen laws q id info
      → Visit laws q id (visit timers cx dead id info q)
  unfolding visit
  visit-Visit cx dead id info q h = by_state info.state h.whole dead
    where
      dead_or :
          (request : OutboundRequest) (dead : Bool)
          → Visit laws q id (
              if dead
              then returns
                  (q, keeps (record info { state = closing }) (err "Handler deactivated" ∷ []))
              else elim (cx.next_response id) [
                | pending ↦ returns (q, keeps info [])
                | ready none ↦
                    (timers.remove_key q info.delay_key >>= λ q'.
                    returns (q', answers none (custom (err "Incomplete response"))))
                | ready (some (err e)) ↦
                    (timers.remove_key q info.delay_key >>= λ q'.
                    returns (q', answers none (custom (err "Stream dropped"))))
                | ready (some (ok response)) ↦
                    (accept_response timers cx request response info q >>= λ (q', info').
                    returns (q', answers (some info') (custom (received info'.req_id response))))
              ])
      dead_or request true = record {
        queue = q;
        visited = keeps (record info { state = closing }) (err "Handler deactivated" ∷ []);
        result = refl;
        open_after = record { timed = h.timed; whole = refl };
        kept = λ k j e ne. e;
      }
      dead_or request false = awaiting-Visit laws cx id request info q h (cx.next_response id)

      by_state :
          (s : OutboundSubstreamState)
          → is_lost s ≡ false
          → (dead : Bool)
          → Visit laws q id (elim s [
            | request_pending_response request ↦
                if dead
                then returns
                    (q, keeps (record info { state = closing }) (err "Handler deactivated" ∷ []))
                else elim (cx.next_response id) [
                  | pending ↦ returns (q, keeps info [])
                  | ready none ↦
                      (timers.remove_key q info.delay_key >>= λ q'.
                      returns (q', answers none (custom (err "Incomplete response"))))
                  | ready (some (err e)) ↦
                      (timers.remove_key q info.delay_key >>= λ q'.
                      returns (q', answers none (custom (err "Stream dropped"))))
                  | ready (some (ok response)) ↦
                      (accept_response timers cx request response info q >>= λ (q', info').
                      returns (q', answers (some info') (custom (received info'.req_id response))))
                ]
            | closing ↦ elim (cx.close_outbound id) [
              | ready closed ↦ (timers.remove_key q info.delay_key >>= λ q'. returns (q', removes))
              | pending ↦ returns (q, keeps info [])
            ]
            | OutboundSubstreamState.poisoned ↦ panics
          ])
      by_state (request_pending_response request) w d = dead_or request d
      by_state closing w d = closing-Visit laws id info q h (cx.close_outbound id)
      by_state OutboundSubstreamState.poisoned w d = cc

  -- The streams are visited up to the one that answers, without a panic.
  pub record SweptAll (q : Queue) (m : Streams ReqId Key) (r : Outcome (Swept ReqId Queue Key))
      : Type 1 where
    pub swept : Swept ReqId Queue Key
    pub result : r ≡ returns swept
    pub is_open : IsTable (IsOpen laws swept.queue) swept.streams
    pub keys : (P : SubstreamId → Type 0) → AllKeys P m → AllKeys P swept.streams
    pub quiet : option_dials swept.action ≡ 0
    pub keeps_others :
        (id : SubstreamId)
        → IsAbsent id m
        → (k : Key) → laws.find q k ≡ some id
        → laws.find swept.queue k ≡ some id

  after_visit :
      (q q' : Queue) (id : SubstreamId) (info : OutboundInfo ReqId Key) (rest : Streams ReqId Key)
      (r : Outcome (Swept ReqId Queue Key)) (visited : Visited ReqId Key)
      → IsAbsent id rest
      → IsTable (IsOpen laws q') rest
      → VisitedOpen laws q' id visited
      → Keeps laws q q' id
      → SweptAll q' rest r
      → SweptAll q ((id, info) ∷ rest) (elim visited [
        | keeps info' events ↦
            (r >>= λ swept. returns (record swept {
              streams = (id, info') ∷ swept.streams;
              events = events ++ swept.events;
            }))
        | removes ↦ r
        | answers info' action ↦
            returns (record {
              queue = q';
              streams = kept id info' rest;
              events = [];
              action = some action;
            })
      ])
  after_visit q q' id info rest r (keeps info' events) a t v k s =
      let open_rest : IsOpen laws s.swept.queue id info' = record {
        timed = s.keeps_others id a info'.delay_key v.timed;
        whole = v.whole;
      } in
      record {
        swept = record s.swept {
          streams = (id, info') ∷ s.swept.streams;
          events = events ++ s.swept.events;
        };
        result = rw s.result;
        quiet = s.quiet;
        is_open = (open_rest, s.keys (λ j. j ≢ id) a, s.is_open);
        keys = λ P b. (b.0, s.keys P b.1);
        keeps_others = λ i b key e. s.keeps_others i b.1 key (k key i e (λ f. b.0 (sym f)));
      }
  after_visit q q' id info rest r removes a t v k s = record {
    swept = s.swept;
    result = s.result;
    quiet = s.quiet;
    is_open = s.is_open;
    keys = λ P b. s.keys P b.1;
    keeps_others = λ i b key e. s.keeps_others i b.1 key (k key i e (λ f. b.0 (sym f)));
  }
  after_visit q q' id info rest r (answers none action) a t v k s = record {
    swept = record { queue = q'; streams = rest; events = []; action = some action };
    result = refl;
    quiet = v.1;
    is_open = t;
    keys = λ P b. b.1;
    keeps_others = λ i b key e. k key i e (λ f. b.0 (sym f));
  }
  after_visit q q' id info rest r (answers (some info') action) a t v k s = record {
    swept = record { queue = q'; streams = (id, info') ∷ rest; events = []; action = some action };
    result = refl;
    quiet = v.1;
    is_open = (v.0, a, t);
    keys = λ P b. b;
    keeps_others = λ i b key e. k key i e (λ f. b.0 (sym f));
  }

  pub sweep-SweptAll :
      (cx : Context) (dead : Bool) (m : Streams ReqId Key) (q : Queue)
      → IsTable (IsOpen laws q) m
      → SweptAll q m (sweep timers cx dead m q)
  unfolding sweep
  sweep-SweptAll cx dead [] q h = record {
    swept = record { queue = q; streams = []; events = []; action = none };
    result = refl;
    quiet = refl;
    is_open = tt;
    keys = λ P a. tt;
    keeps_others = λ i a k e. e;
  }
  sweep-SweptAll cx dead ((id, info) ∷ rest) q h =
      let d = visit-Visit cx dead id info q h.0 in
      let table =
        absent-IsTable _ _ id rest (Keeps-Carries-IsOpen laws q d.queue id d.kept) h.1 h.2 in
      rw d.result (
        after_visit q d.queue id info rest _ d.visited h.1 table d.open_after d.kept
          (sweep-SweptAll cx dead rest d.queue table))
