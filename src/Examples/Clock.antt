-- ===== src/Examples/Clock.antt =====
-- The theorems on the timer of ClockAndTimer/source/msTimer.cpp, with a stopwatch that keeps its
-- start.
use data_dump_protocol.Base.{
  ℕ, suc, ◌-◌, ◌≡◌, refl, List, [], ◌∷◌, ◌++◌, some, none, true, false, arith, All,
}
use data_dump_protocol.MsTimer.Base.{Stopwatch, Measures}
use data_dump_protocol.MsTimer.Ops.{TimerMode, Place, MsTimer, start, is_expired}
use data_dump_protocol.MsTimer.Loop.{Event, run}
use data_dump_protocol.MsTimer.Expiry.{InTime}
use data_dump_protocol.MsTimer.Starting.{start_call}
use data_dump_protocol.MsTimer.Turns.{turns}
use data_dump_protocol.MsTimer.Firing.{expires_once}
use data_dump_protocol.MsTimer.Refiring.{cycles, called, periodic_refires}
use data_dump_protocol.MsTimer.Races.{early_expiry, lost_wake_up, stale_expiry}

abbrev clock : Stopwatch ℕ
clock = record { fresh = 0; restarted = λ t s. t; elapsed = λ t s. t - s }

clock-Measures : Measures clock
clock-Measures t t' s le = refl

-- The callback counts how often it is called.
abbrev timer : TimerMode → Place → MsTimer ℕ ℕ
timer mode place = record {
  base = record {
    timer_handle = 0;
    timeoutms = 0;
    callback = some (λ a w. suc w);
    timer_status = false;
    expired = false;
    callback_arg = none;
  };
  mode = mode;
  thread_id = 7;
  place = place;
}

-- Started at 3 with 50 ms.
abbrev going : TimerMode → Place → MsTimer ℕ ℕ
going mode place = record (timer mode place) {
  base = record (timer mode place).base { timer_handle = 3; timeoutms = 50; timer_status = true };
}

abbrev early : List (ℕ × Event)
early = (10, Event.turn) ∷ (20, Event.asked) ∷ (30, Event.started 5) ∷ (52, Event.turn) ∷ []

early-InTime : All (InTime 3 50) early
early-InTime = (
  (omega arith, omega arith, refl),
  (
    (omega arith, omega arith, refl),
    ((omega arith, omega arith, refl), ((omega arith, omega arith, refl), tt)),
  ),
)

early_expiry_example :
    let r =
      run clock
        (start_call 90 50 [] (90 ∷ 90 ∷ 90 ∷ 90 ∷ []) [])
        (timer TimerMode.one_shot Place.testing)
        0 in
    (r.0.base.timer_status ≡ false) × ((is_expired r.0).0 ≡ true) × (r.0.base.timer_handle ≡ 90)
early_expiry_example =
    early_expiry clock 90 50 (timer TimerMode.one_shot Place.testing) 0 refl (omega arith) refl refl
      (omega arith)

expires_once_example :
    let r =
      run clock
        (early ++ turns (53 ∷ 60 ∷ 70 ∷ 80 ∷ 90 ∷ 100 ∷ 110 ∷ []))
        (start clock 3 (timer TimerMode.one_shot Place.waiting) 50).1
        0 in
    (r.0.base.timer_status ≡ false) × (r.0.base.expired ≡ true) × (r.1 ≡ 1)
expires_once_example =
    expires_once clock 3 50 early 53 60 70 80 90 100 (110 ∷ [])
      (timer TimerMode.one_shot Place.waiting) 0 clock-Measures (omega arith) refl (omega arith)
      refl refl refl early-InTime (omega arith) (omega arith)

periodic_refires_example :
    let r = run clock (turns (cycles 3 60)) (going TimerMode.periodic Place.testing) 0 in
    (r.1 ≡ called 3 (going TimerMode.periodic Place.testing).base 0) × (r.0.base.timer_handle ≡ 3)
periodic_refires_example =
    periodic_refires clock 3 60 (going TimerMode.periodic Place.testing) 0 refl (omega arith) refl
      refl (omega arith) refl

lost_wake_up_example :
    let r =
      run clock
        (turns (60 ∷ 70 ∷ 800 ∷ []))
        (start clock 3 (timer TimerMode.one_shot Place.before_wait) 50).1
        0 in
    ((is_expired r.0).0 ≡ false)
    × (r.0.base.timer_status ≡ true)
    × (r.0.place ≡ Place.waiting)
    × (r.1 ≡ 0)
lost_wake_up_example =
    lost_wake_up clock 3 50 60 (70 ∷ 800 ∷ []) (timer TimerMode.one_shot Place.before_wait) 0
      (omega arith) (omega arith) refl refl refl

stale_expiry_example :
    let r =
      run clock
        ((53, Event.stopped) ∷ (53, Event.started 1000) ∷ turns (53 ∷ 53 ∷ []))
        (going TimerMode.one_shot Place.ending)
        0 in
    (r.0.base.timer_status ≡ false) × ((is_expired r.0).0 ≡ true)
stale_expiry_example =
    stale_expiry clock 53 1000 (going TimerMode.one_shot Place.ending) 0 refl (omega arith) refl
      refl (omega arith)
