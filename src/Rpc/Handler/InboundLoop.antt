-- ===== src/Rpc/Handler/InboundLoop.antt =====
-- rpc/handler.rs: the whole loop over the inbound streams.
use cl_p2p_setup.Base.{◌≤◌, length, ◌≡◌, ◌≢◌, refl, sym, Bool, some, List, [], ◌∷◌, ◌++◌, arith}
use cl_p2p_setup.Base.Machine.{Outcome, returns, ◌>>=◌}
use cl_p2p_setup.Rpc.Handler.{SubstreamId, DelayQueue, HandlerEvent, InboundInfo}
use cl_p2p_setup.Rpc.Handler.Table.{IsTable, AllKeys, IsAbsent, absent-IsTable}
use cl_p2p_setup.Rpc.Handler.Poll.{Context}
use cl_p2p_setup.Rpc.Handler.InboundStreams.{
  Ended, stays, leaves, drive, after_drive, drive_all, Streams,
}
use cl_p2p_setup.Rpc.Handler.InboundSafety.{
  IsSound, IsSound-under, Keeps-Carries, EndsSound, Driven, drive-Driven,
}
use cl_p2p_setup.Rpc.Handler.Timers.{Laws, Keeps}

module _ {timers : DelayQueue} (laws : Laws timers) {ReqId : Type 0} where
  open timers use {Queue, Key}

  -- The streams are driven one after the other, without a panic.
  pub record DrivenAll (q : Queue) (m : Streams Key)
      (r : Outcome (Queue × (Streams Key × List (HandlerEvent ReqId)))) : Type 1 where
    pub queue : Queue
    pub streams : Streams Key
    pub events : List (HandlerEvent ReqId)
    pub result : r ≡ returns (queue, (streams, events))
    pub sound : IsTable (IsSound laws queue) streams
    pub keys : (P : SubstreamId → Type 0) → AllKeys P m → AllKeys P streams
    pub shorter : length streams ≤ length m
    pub keeps :
        (id : SubstreamId)
        → IsAbsent id m
        → (k : Key) → laws.find q k ≡ some id
        → laws.find queue k ≡ some id

  after_drive-DrivenAll :
      (q q' : Queue) (id : SubstreamId) (info : InboundInfo Key) (rest : Streams Key)
      (r : Outcome (Queue × (Streams Key × List (HandlerEvent ReqId)))) (ended : Ended ReqId Key)
      → IsAbsent id rest
      → EndsSound laws q' id ended
      → Keeps laws q q' id
      → DrivenAll q' rest r
      → DrivenAll q
          ((id, info) ∷ rest)
          (r >>= λ (q'', result). returns (q'', after_drive timers id ended result))
  after_drive-DrivenAll q q' id info rest r (stays info') a s k d = record {
    queue = d.queue;
    streams = (id, info') ∷ d.streams;
    events = d.events;
    result = rw d.result;
    sound =
        (IsSound-under laws q' d.queue id info' (d.keeps id a) s, d.keys (λ j. j ≢ id) a, d.sound);
    keys = λ P b. (b.0, d.keys P b.1);
    shorter = omega (arith, d.shorter);
    keeps = λ i b key e. d.keeps i b.1 key (k key i e (λ f. b.0 (sym f)));
  }
  after_drive-DrivenAll q q' id info rest r (leaves reported) a s k d = record {
    queue = d.queue;
    streams = d.streams;
    events = reported ++ d.events;
    result = rw d.result;
    sound = d.sound;
    keys = λ P b. d.keys P b.1;
    shorter = omega (arith, d.shorter);
    keeps = λ i b key e. d.keeps i b.1 key (k key i e (λ f. b.0 (sym f)));
  }

  pub drive_all-DrivenAll :
      (cx : Context) (dead : Bool) (m : Streams Key) (q : Queue)
      → IsTable (IsSound laws q) m
      → DrivenAll q m (drive_all timers cx dead m q)
  unfolding drive_all
  drive_all-DrivenAll cx dead [] q h = record {
    queue = q;
    streams = [];
    events = [];
    result = refl;
    sound = tt;
    keys = λ P a. tt;
    shorter = omega arith;
    keeps = λ i a k e. e;
  }
  drive_all-DrivenAll cx dead ((id, info) ∷ rest) q h =
      let d : Driven laws {ReqId = ReqId} q id (drive timers cx dead id info q) =
        drive-Driven laws cx dead id info q h.0 in
      let table = absent-IsTable _ _ id rest (Keeps-Carries laws q d.queue id d.keeps) h.1 h.2 in
      rw d.result (
        after_drive-DrivenAll q d.queue id info rest _ d.ended h.1 d.sound d.keeps
          (drive_all-DrivenAll cx dead rest d.queue table))
