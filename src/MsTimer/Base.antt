-- ===== src/MsTimer/Base.antt =====
-- ClockAndTimer/header/msBaseTimer.h: the fields that the timer's owner and its thread share. Each
-- method holds the object's mutex, so it is one step.
use data_dump_protocol.Base.{ℕ, ◌≤◌, ◌-◌, ◌≡◌, Option, none, some, Bool, true, false, leb}
use data_dump_protocol.Packet.Memory.{Pointer}

-- The stopwatch of ClockAndTimer/header/Stopwatch.hpp, a library: `start` at a time of the clock,
-- and the milliseconds that have `elapsed` at a time since. Times are milliseconds of one clock.
pub record Stopwatch (S : Type 0) : Type 0 where
  pub fresh : S
  pub restarted : ℕ → S → S
  pub elapsed : ℕ → S → ℕ

-- What the stopwatch is for.
abbrev pub Measures : {S : Type 0} → Stopwatch S → Type 0
Measures {S = S} watch =
    (t t' : ℕ) (s : S) → t ≤ t' → watch.elapsed t' (watch.restarted t s) ≡ t' - t

-- A callback takes the argument that it was registered with.
abbrev pub Callback : Type 0 → Type 0
Callback W = Pointer → W → W

pub record BaseTimer (S W : Type 0) : Type 0 where
  pub timer_handle : S
  pub timeoutms : ℕ
  pub callback : Option (Callback W)
  pub timer_status : Bool
  pub expired : Bool
  pub callback_arg : Pointer

module _ {S W : Type 0} where
  unfoldable pub make_base_timer : Stopwatch S → Option (Callback W) → Pointer → BaseTimer S W
  make_base_timer watch callback callback_arg = record {
    timer_handle = watch.fresh;
    timeoutms = 0;
    callback = callback;
    timer_status = false;
    expired = false;
    callback_arg = callback_arg;
  }

  abbrev pub get_timeoutms : BaseTimer S W → ℕ
  get_timeoutms t = t.timeoutms

  abbrev pub set_timeoutms : BaseTimer S W → ℕ → BaseTimer S W
  set_timeoutms t timeoutms = record t { timeoutms = timeoutms }

  abbrev pub is_timer_running : BaseTimer S W → Bool
  is_timer_running t = t.timer_status

  abbrev pub set_timer_status : BaseTimer S W → Bool → BaseTimer S W
  set_timer_status t status = record t { timer_status = status }

  abbrev pub start_timer : Stopwatch S → ℕ → BaseTimer S W → BaseTimer S W
  start_timer watch now t = record t { timer_handle = watch.restarted now t.timer_handle }

  abbrev pub check_time_out : Stopwatch S → ℕ → BaseTimer S W → Bool
  check_time_out watch now t = leb t.timeoutms (watch.elapsed now t.timer_handle)

  -- The callback, if it is not NULL, is called outside the mutex.
  abbrev pub notify : BaseTimer S W → W → W
  notify t w = elim t.callback [ none ↦ w | some f ↦ f t.callback_arg w ]

  abbrev pub set_expired_ind : BaseTimer S W → Bool → BaseTimer S W
  set_expired_ind t ind = record t { expired = ind }

  -- The indicator is read and cleared.
  abbrev pub get_expired_ind : BaseTimer S W → Bool × BaseTimer S W
  get_expired_ind t = (t.expired, record t { expired = false })

  unfoldable pub register_cb : BaseTimer S W → Option (Callback W) → Pointer → Bool × BaseTimer S W
  register_cb t none cb_arg = (false, t)
  register_cb t (some cb) cb_arg = (true, record t { callback = some cb; callback_arg = cb_arg })
