-- ===== src/MsTimer/Loop.antt =====
-- `evaluationLoop` (ClockAndTimer/source/msTimer.cpp), one step of the thread at a time, between
-- the calls of the timer's owner.
use data_dump_protocol.Base.{ℕ, ◌==◌, Bool, true, if◌then◌else◌, List, [], ◌∷◌}
use data_dump_protocol.MsTimer.Base.{
  Stopwatch, set_timeoutms, set_timer_status, start_timer, is_timer_running, check_time_out,
  get_timeoutms, set_expired_ind, notify,
}
use data_dump_protocol.MsTimer.Ops.{TimerMode, Place, MsTimer, start, stop, is_expired, woken}

-- The sections of `start` and `stop` that hold a mutex, `notify_one` included: the thread may get in
-- between them.
pub data Section : Type 0 where
  sets_timeout : ℕ → Section
  sets_status : Bool → Section
  restarts_watch notifies : Section

-- What may happen at a time: the owner calls a method, with no step of the thread between its sections,
-- or is in a section of a call, the thread makes a step, or its wait ends without a notification, as the
-- library allows.
pub data Event : Type 0 where
  started : ℕ → Event
  stopped asked turn spurious : Event
  section : Section → Event

module _ {S W : Type 0} (watch : Stopwatch S) where
  unfoldable pub in_section : ℕ → Section → MsTimer S W → MsTimer S W
  in_section now (Section.sets_timeout timeout_ms) t = record t {
    base = set_timeoutms t.base timeout_ms;
  }
  in_section now (Section.sets_status status) t = record t { base = set_timer_status t.base status }
  in_section now Section.restarts_watch t = record t { base = start_timer watch now t.base }
  in_section now Section.notifies t = record t { place = woken t.place }

  -- The restart of a periodic timer is a call of `start`; its result is ignored, and so is that of
  -- `stop`.
  unfoldable pub end_period : ℕ → MsTimer S W → MsTimer S W
  end_period now t = elim t.mode [
    | TimerMode.periodic ↦ (start watch now t (get_timeoutms t.base)).1
    | TimerMode.one_shot ↦ (stop t).1
  ]

  abbrev pub at_place : Place → ℕ → MsTimer S W → W → MsTimer S W × W
  at_place Place.before_wait now t w = (record t { place = Place.waiting }, w)
  at_place Place.waiting now t w = (record t { place = Place.waiting }, w)
  at_place Place.testing now t w = (
    record t { place = if is_timer_running t.base then Place.checking else Place.before_wait },
    w,
  )
  at_place Place.checking now t w = (
    record t { place = if check_time_out watch now t.base then Place.ending else Place.testing },
    w,
  )
  at_place Place.ending now t w = (record (end_period now t) { place = Place.marking }, w)
  at_place Place.marking now t w =
      (record t { base = set_expired_ind t.base true; place = Place.notifying }, w)
  at_place Place.notifying now t w = (record t { place = Place.testing }, notify t.base w)

  -- A step of the thread, if there is one.
  unfoldable pub thread_step : ℕ → MsTimer S W → W → MsTimer S W × W
  thread_step now t w = if t.thread_id == 0 then (t, w) else at_place t.place now t w

  unfoldable pub step : ℕ → Event → MsTimer S W → W → MsTimer S W × W
  step now (Event.started timeout_ms) t w = ((start watch now t timeout_ms).1, w)
  step now Event.stopped t w = ((stop t).1, w)
  step now Event.asked t w = ((is_expired t).1, w)
  step now Event.turn t w = thread_step now t w
  step now Event.spurious t w = (record t { place = woken t.place }, w)
  step now (Event.section s) t w = (in_section now s t, w)

  unfoldable pub run : List (ℕ × Event) → MsTimer S W → W → MsTimer S W × W
  run [] t w = (t, w)
  run (e ∷ es) t w = let r = step e.0 e.1 t w in run es r.0 r.1
