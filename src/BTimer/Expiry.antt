-- ===== src/BTimer/Expiry.antt =====
-- When the timer of bTimer/bTimer.cpp reports that its time is up.
use data_dump_protocol.Base.{
  ℕ, ◌+◌, ◌≡◌, refl, none, Bool, true, false, List, [], ◌∷◌, All, leb, arith,
}
use data_dump_protocol.BTimer.{
  BTimer, TimerMode, Service, TimerEvent, start, is_expired, timeout_cb, serve, timer_step,
  timer_run, make_btimer,
}

abbrev OnMember : List Service → Type 0
OnMember [] = Unit {0}
OnMember (Service.member ∷ ws) = OnMember ws
OnMember (Service.given ∷ ws) = ⊥

-- No handler waits on the service that the constructor was given, and the mark is clear.
record IsUnmarked (t : BTimer) : Type 0 where
  clear : t.timer_expiry ≡ false
  on_member : OnMember t.waits

serve_given : (ws : List Service) → OnMember ws → serve ws Service.given ≡ none
unfolding serve
serve_given [] h = refl
serve_given (Service.member ∷ ws) h = rw (serve_given ws h)
serve_given (Service.given ∷ ws) h = absurd h

-- The events of a program that runs the service that it gave to the constructor. The member is
-- private, so nothing outside the class can run it.
abbrev pub OutsideMember : TimerEvent → Type 0
OutsideMember (TimerEvent.serves Service.member now locked restart_locked) = ⊥
OutsideMember _ = Unit {0}

step-IsUnmarked :
    (t : BTimer) (e : TimerEvent) → OutsideMember e → IsUnmarked t → IsUnmarked (timer_step t e)
unfolding timer_step
step-IsUnmarked t (TimerEvent.starts interval now a b) o v = ground arith
step-IsUnmarked t (TimerEvent.stops a) o v = ground arith
step-IsUnmarked t (TimerEvent.polls a) o v = ground arith
step-IsUnmarked t (TimerEvent.registers c a) o v = ground arith
step-IsUnmarked t (TimerEvent.serves Service.member now a b) o v = absurd o
step-IsUnmarked t (TimerEvent.serves Service.given now a b) o v =
    rw (timer_step, serve_given t.waits v.on_member) v

run-IsUnmarked :
    (t : BTimer) (es : List TimerEvent)
    → All OutsideMember es
    → IsUnmarked t
    → IsUnmarked (timer_run t es)
unfolding timer_run
run-IsUnmarked t [] o v = v
run-IsUnmarked t (e ∷ es) o v = run-IsUnmarked (timer_step t e) es o.1 (step-IsUnmarked t e o.0 v)

unmarked_poll :
    (t : BTimer) (locked : Bool) → t.timer_expiry ≡ false → (is_expired t locked).0 ≡ false
unfolding is_expired
unmarked_poll t true e = e
unmarked_poll t false e = refl

-- A new timer never reports that its time is up, however long it runs, in a program that runs only
-- the service given to the constructor.
pub is_expired_never :
    (mode : TimerMode) (callback : Bool) (es : List TimerEvent) (locked : Bool)
    → All OutsideMember es
    → (is_expired (timer_run (make_btimer mode callback) es) locked).0 ≡ false
is_expired_never mode callback es locked o = unmarked_poll _ locked v.clear
  where
    start_unmarked : IsUnmarked (make_btimer mode callback)
    start_unmarked = unfold make_btimer in record { clear = refl; on_member = tt }

    v : IsUnmarked (timer_run (make_btimer mode callback) es)
    v = run-IsUnmarked (make_btimer mode callback) es o start_unmarked

-- A one-shot timer that was started and is served, its mutex free, reports its time as up exactly if
-- the deadline has passed, and it reports it once.
pub one_shot_expires :
    (t : BTimer) (interval now later : ℕ) (stop_locked restart_locked : Bool)
    → t.mode ≡ TimerMode.one_shot
    → let armed = (start t interval now stop_locked true).1 in
      let served = (timeout_cb armed later true restart_locked).1 in
      let polled = is_expired served true in
      (polled.0 ≡ leb (now + interval) later) × ((is_expired polled.1 true).0 ≡ false)
unfolding start timeout_cb is_expired
one_shot_expires t interval now later stop_locked restart_locked m = ground arith
