-- ===== src/MsTimer/Expiry.antt =====
-- When a timer of ClockAndTimer/source/msTimer.cpp expires.
use data_dump_protocol.Base.{
  ℕ, ◌+◌, ◌≤◌, ◌<◌, ◌≡◌, refl, sym, ap, ◌∙◌, ◌==◌, ◌&&◌, not, ltb, Bool, true, false, if◌then◌else◌,
  List, [], ◌∷◌, All, arith, gt→leb, ne→==_false, lt→ltb,
}
use data_dump_protocol.MsTimer.Base.{Stopwatch, Measures, BaseTimer, check_time_out}
use data_dump_protocol.MsTimer.Ops.{Place, MsTimer, start, is_expired, woken}
use data_dump_protocol.MsTimer.Loop.{Event, thread_step, step, run, at_place}

-- Events that do not stop the timer: `stop` and `start(0)` do.
abbrev pub undisturbed : Event → Bool
undisturbed (Event.started timeout_ms) = ltb 0 timeout_ms
undisturbed Event.stopped = false
undisturbed Event.asked = true
undisturbed Event.turn = true
undisturbed Event.spurious = true
undisturbed (Event.section s) = false

-- The thread has not found the time to be up; with `awake` it is past its wait, too.
abbrev pub idle : Bool → Place → Bool
idle awake Place.before_wait = not awake
idle awake Place.waiting = not awake
idle awake Place.testing = true
idle awake Place.checking = true
idle awake Place.ending = false
idle awake Place.marking = false
idle awake Place.notifying = false

pub idle-woken : (awake : Bool) (p : Place) → idle awake p ≡ true → idle awake (woken p) ≡ true
idle-woken awake Place.before_wait h = h
idle-woken awake Place.waiting h = refl
idle-woken awake Place.testing h = h
idle-woken awake Place.checking h = h
idle-woken awake Place.ending h = h
idle-woken awake Place.marking h = h
idle-woken awake Place.notifying h = h

-- An event within `timeout` of `begin` that does not stop the timer.
abbrev pub InTime : ℕ → ℕ → ℕ × Event → Type 0
InTime begin timeout e = (begin ≤ e.0) × (e.0 < begin + timeout) × (undisturbed e.1 ≡ true)

-- The timer runs since `begin` and has not expired.
pub record Armed {S W : Type 0} (watch : Stopwatch S) (begin timeout : ℕ) (b : BaseTimer S W)
    : Type 0 where
  pub running : b.timer_status ≡ true
  pub limit : b.timeoutms ≡ timeout
  pub since : S
  pub handle : b.timer_handle ≡ watch.restarted begin since
  pub calm : b.expired ≡ false

module _ {S W : Type 0} (watch : Stopwatch S) (measures : Measures watch) (begin timeout : ℕ) where
  -- Nothing but the thread's place changes.
  abbrev Waits : Bool → MsTimer S W → W → MsTimer S W × W → Type 0
  Waits awake t w r = (p : Place) × (idle awake p ≡ true) × (r ≡ (record t { place = p }, w))

  not_yet :
      (t : MsTimer S W)
      → Armed watch begin timeout t.base
      → (now : ℕ) → begin ≤ now
      → now < begin + timeout
      → check_time_out watch now t.base ≡ false
  not_yet t k now from to =
      gt→leb t.base.timeoutms (watch.elapsed now t.base.timer_handle)
        (omega (arith, ap (watch.elapsed now) k.handle, measures begin now k.since from, k.limit))

  turn-Waits :
      (awake : Bool) (now : ℕ) (t : MsTimer S W) (w : W) (p : Place)
      → Armed watch begin timeout t.base
      → begin ≤ now
      → now < begin + timeout
      → idle awake p ≡ true
      → Waits awake t w (at_place watch p now t w)
  turn-Waits awake now t w Place.before_wait k from to h = (Place.waiting, h, refl)
  turn-Waits awake now t w Place.waiting k from to h = (Place.waiting, h, refl)
  turn-Waits awake now t w Place.testing k from to h = (Place.checking, refl, rw k.running refl)
  turn-Waits awake now t w Place.checking k from to h =
      (Place.testing, refl, rw (not_yet t k now from to) refl)
  turn-Waits awake now t w Place.ending k from to h = absurd (ground arith)
  turn-Waits awake now t w Place.marking k from to h = absurd (ground arith)
  turn-Waits awake now t w Place.notifying k from to h = absurd (ground arith)

  stay :
      (awake : Bool) (t : MsTimer S W) (w : W) → idle awake t.place ≡ true → Waits awake t w (t, w)
  stay awake t w h = (t.place, h, refl)

  step-Waits :
      (awake : Bool) (e : ℕ × Event) (t : MsTimer S W) (w : W)
      → Armed watch begin timeout t.base
      → InTime begin timeout e
      → idle awake t.place ≡ true
      → Waits awake t w (step watch e.0 e.1 t w)
  unfolding step thread_step start is_expired
  step-Waits awake (now, Event.started timeout_ms) t w k i h =
      (t.place, h, rw (k.running, ne→==_false timeout_ms 0 (ground arith)) refl)
  step-Waits awake (now, Event.stopped) t w k i h = absurd (ground arith)
  step-Waits awake (now, Event.asked) t w k i h =
      (t.place, h, ap (λ b. (record t { base = record t.base { expired = b } }, w)) (sym k.calm))
  step-Waits awake (now, Event.spurious) t w k i h =
      (woken t.place, idle-woken awake t.place h, refl)
  step-Waits awake (now, Event.section s) t w k i h = absurd (ground arith)
  step-Waits awake (now, Event.turn) t w k i h =
      elim (t.thread_id == 0)
        as (λ b. Waits awake t w (if b then (t, w) else at_place watch t.place now t w)) [
          | true ↦ stay awake t w h
          | false ↦ turn-Waits awake now t w t.place k i.0 i.1 h
        ]

  pub run-Waits :
      (awake : Bool) (es : List (ℕ × Event)) (t : MsTimer S W) (w : W)
      → Armed watch begin timeout t.base
      → All (InTime begin timeout) es
      → idle awake t.place ≡ true
      → Waits awake t w (run watch es t w)
  unfolding run
  run-Waits awake [] t w k all h = stay awake t w h
  run-Waits awake (e ∷ es) t w k all h =
      let (p, h', e1) = step-Waits awake e t w k all.0 h in
      let (p', h'', e2) = run-Waits awake es (record t { place = p }) w k all.1 h' in
      (p', h'', ap (λ r. run watch es r.0 r.1) e1 ∙ e2)

module _ {S W : Type 0} where
  -- What `start` makes of a timer that does not run.
  abbrev pub armed : Stopwatch S → ℕ → ℕ → MsTimer S W → MsTimer S W
  armed watch begin timeout t = record t {
    base = record t.base {
      timeoutms = timeout;
      timer_status = true;
      timer_handle = watch.restarted begin t.base.timer_handle;
    };
    place = woken t.place;
  }

  pub start_armed :
      (watch : Stopwatch S) (begin timeout : ℕ) (t : MsTimer S W)
      → t.base.timer_status ≡ false
      → 0 < timeout
      → start watch begin t timeout ≡ (true, armed watch begin timeout t)
  unfolding start
  start_armed watch begin timeout t off some_time =
      ap
        (λ b.
          if b
          then (true, armed watch begin timeout t)
          else if timeout == 0
          then (
            true,
            record t { base = record t.base { timeoutms = timeout; timer_status = false } },
          )
          else (false, t))
        startable
    where
      startable : (not t.base.timer_status && ltb 0 timeout) ≡ true
      startable = rw (off, lt→ltb 0 timeout some_time) refl

  pub armed-Armed :
      (watch : Stopwatch S) (begin timeout : ℕ) (t : MsTimer S W)
      → t.base.expired ≡ false
      → Armed watch begin timeout (armed watch begin timeout t).base
  armed-Armed watch begin timeout t calm = record {
    running = refl;
    limit = refl;
    since = t.base.timer_handle;
    handle = refl;
    calm = calm;
  }
