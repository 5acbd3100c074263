-- ===== src/BTimer.antt =====
-- bTimer/bTimer.h and bTimer/bTimer.cpp: the timer behind every timeout of the protocol. A deadline
-- and the time of the clock are numbers of milliseconds; `locked` says whether `try_lock_for` of the
-- timer's mutex succeeds within 100 us.
pub mod Expiry
use data_dump_protocol.Base.{
  ℕ, ◌+◌, Option, none, some, Bool, true, false, leb, if◌then◌else◌, List, [], ◌∷◌,
}

-- `mode_e`
pub data TimerMode : Type 0 where
  one_shot periodic : TimerMode

-- The constructor takes an `io_service` by a parameter that has the name of the member `service`; the
-- parameter is not stored, so `start` makes its deadline timer on the member.
pub data Service : Type 0 where
  given member : Service

-- `waits` are the handlers that `async_wait` has left with a service, oldest first.
pub record BTimer : Type 0 where
  pub mode : TimerMode
  pub handle : Option ℕ
  pub duration : ℕ
  pub has_callback : Bool
  pub timer_expiry : Bool
  pub waits : List Service

unfoldable pub make_btimer : TimerMode → Bool → BTimer
make_btimer mode has_callback = record {
  mode = mode;
  handle = none;
  duration = 1;
  has_callback = has_callback;
  timer_expiry = false;
  waits = [];
}

-- `stop`: a handler that waits is called all the same, with an error code that nobody reads.
unfoldable pub stop : BTimer → Bool → Bool × BTimer
stop t false = (false, t)
stop t true = elim t.handle [
  | none ↦ (false, t)
  | some deadline ↦ (true, record t { handle = none })
]

abbrev pub arm : BTimer → ℕ → ℕ → BTimer
arm t interval now = record t {
  duration = interval;
  timer_expiry = false;
  handle = some (now + interval);
  waits = Service.member ∷ t.waits;
}

-- `start` locks twice, in `stop` and for itself.
unfoldable pub start : BTimer → ℕ → ℕ → Bool → Bool → Bool × BTimer
unfolding stop
start t interval now stop_locked locked =
    let (_, stopped) = stop t stop_locked in
    if locked then (true, arm stopped interval now) else (false, stopped)

-- `restart`, of a periodic timer at its old interval.
unfoldable pub restart : BTimer → ℕ → Bool → Bool × BTimer
restart t now false = (false, t)
restart t now true = elim t.handle [
  | none ↦ (false, t)
  | some deadline ↦ elim t.mode [
    | TimerMode.one_shot ↦ (true, t)
    | TimerMode.periodic ↦
        (true, record t { handle = some (now + t.duration); waits = Service.member ∷ t.waits })
  ]
]

-- `isExpired` reads the mark and clears it.
unfoldable pub is_expired : BTimer → Bool → Bool × BTimer
is_expired t locked =
    if locked then (t.timer_expiry, record t { timer_expiry = false }) else (false, t)

-- `registerCB`; a NULL callback is refused.
unfoldable pub register_cb : BTimer → Bool → Bool → Bool × BTimer
register_cb t callback locked =
    if locked
    then if callback then (true, record t { has_callback = true }) else (false, t)
    else (false, t)

-- `timeoutCB`: whether the callback is called, and the timer after it. The mutex is taken once for
-- the mark and once in `restart`.
unfoldable pub timeout_cb : BTimer → ℕ → Bool → Bool → Bool × BTimer
unfolding restart
timeout_cb t now false restart_locked = (false, t)
timeout_cb t now true restart_locked = elim t.handle [
  | none ↦ (false, t)
  | some deadline ↦
      if leb deadline now
      then (t.has_callback, (restart (record t { timer_expiry = true }) now restart_locked).1)
      else (false, record t { timer_expiry = false })
]

-- What can happen to a timer: the calls of its owner, and a service that calls its oldest handler.
pub data TimerEvent : Type 0 where
  starts : (interval now : ℕ) (stop_locked locked : Bool) → TimerEvent
  stops : (locked : Bool) → TimerEvent
  polls : (locked : Bool) → TimerEvent
  registers : (callback locked : Bool) → TimerEvent
  serves : Service → (now : ℕ) (locked restart_locked : Bool) → TimerEvent

-- A running service calls the handlers that are left with it, and no others.
unfoldable pub serve : List Service → Service → Option (List Service)
serve [] s = none
serve (Service.given ∷ ws) Service.given = some ws
serve (Service.member ∷ ws) Service.member = some ws
serve (Service.given ∷ ws) Service.member = elim (serve ws Service.member) [
  | none ↦ none
  | some rest ↦ some (Service.given ∷ rest)
]
serve (Service.member ∷ ws) Service.given = elim (serve ws Service.given) [
  | none ↦ none
  | some rest ↦ some (Service.member ∷ rest)
]

unfoldable pub timer_step : BTimer → TimerEvent → BTimer
unfolding start stop is_expired register_cb timeout_cb serve
timer_step t (TimerEvent.starts interval now stop_locked locked) =
    (start t interval now stop_locked locked).1
timer_step t (TimerEvent.stops locked) = (stop t locked).1
timer_step t (TimerEvent.polls locked) = (is_expired t locked).1
timer_step t (TimerEvent.registers callback locked) = (register_cb t callback locked).1
timer_step t (TimerEvent.serves service now locked restart_locked) = elim (serve t.waits service) [
  | none ↦ t
  | some rest ↦ (timeout_cb (record t { waits = rest }) now locked restart_locked).1
]

unfoldable pub timer_run : BTimer → List TimerEvent → BTimer
unfolding timer_step
timer_run t [] = t
timer_run t (e ∷ es) = timer_run (timer_step t e) es
