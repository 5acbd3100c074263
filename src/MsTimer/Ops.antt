-- ===== src/MsTimer/Ops.antt =====
-- The methods of `msTimer` (ClockAndTimer/source/msTimer.cpp) that the timer's owner calls.
use data_dump_protocol.Base.{ℕ, ◌==◌, ◌&&◌, not, ltb, Option, Bool, true, false, if◌then◌else◌}
use data_dump_protocol.Packet.Memory.{Pointer}
use data_dump_protocol.MsTimer.Base.{
  Stopwatch, Callback, BaseTimer, make_base_timer, set_timeoutms, is_timer_running,
  set_timer_status, start_timer, get_expired_ind,
}

-- `mode_e`
pub data TimerMode : Type 0 where
  one_shot periodic : TimerMode

-- Where the thread is in `evaluationLoop`: before `wait`, in it, at the inner `while`, at
-- `checkTimeOut`, at the restart or stop, at `setExpiredIND`, at `notify`.
pub data Place : Type 0 where
  before_wait waiting testing checking ending marking notifying : Place

-- `thread_id` is 0 while no thread has been created.
pub record MsTimer (S W : Type 0) : Type 0 where
  pub base : BaseTimer S W
  pub mode : TimerMode
  pub thread_id : ℕ
  pub place : Place

-- How a method ends that may throw.
pub data Ending : Type 0 where
  returns : Bool → Ending
  throws : Ending

-- `notify_one` reaches the thread only if it waits.
abbrev pub woken : Place → Place
woken Place.waiting = Place.testing
woken place = place

module _ {S W : Type 0} (watch : Stopwatch S) where
  unfoldable pub make_ms_timer : TimerMode → Option (Callback W) → Pointer → MsTimer S W
  unfolding make_base_timer
  make_ms_timer mode callback callback_arg = record {
    base = make_base_timer watch callback callback_arg;
    mode = mode;
    thread_id = 0;
    place = Place.before_wait;
  }

  -- `pthread_create` sets the number. The handler catches `std::exception`, and the `-1` that is
  -- thrown is none.
  unfoldable pub create : MsTimer S W → ℕ → Ending × MsTimer S W
  create t thread_id = (
    if thread_id == 0 then Ending.throws else Ending.returns true,
    record t { thread_id = thread_id; place = Place.before_wait },
  )

  unfoldable pub start : ℕ → MsTimer S W → ℕ → Bool × MsTimer S W
  start now t timeout_ms =
      if not (is_timer_running t.base) && ltb 0 timeout_ms
      then (
        true,
        record t {
          base = start_timer watch now (set_timer_status (set_timeoutms t.base timeout_ms) true);
          place = woken t.place;
        },
      )
      else if timeout_ms == 0
      then (true, record t { base = set_timer_status (set_timeoutms t.base timeout_ms) false })
      else (false, t)

module _ {S W : Type 0} where
  unfoldable pub stop : MsTimer S W → Bool × MsTimer S W
  stop t =
      if is_timer_running t.base
      then (true, record t { base = set_timeoutms (set_timer_status t.base false) 0 })
      else (false, t)

  unfoldable pub is_expired : MsTimer S W → Bool × MsTimer S W
  is_expired t = let r = get_expired_ind t.base in (r.0, record t { base = r.1 })
