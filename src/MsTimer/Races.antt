-- ===== src/MsTimer/Races.antt =====
-- Orders of the owner's calls and the thread's steps in ClockAndTimer/source/msTimer.cpp for which
-- the timer does not expire, or expires at once.
use data_dump_protocol.Base.{
  ℕ, ◌<◌, ◌≤◌, le→leb, ◌≡◌, refl, sym, subst, ap, ◌∙◌, true, false, List, [], ◌∷◌,
}
use data_dump_protocol.MsTimer.Base.{Stopwatch}
use data_dump_protocol.MsTimer.Ops.{TimerMode, Place, MsTimer, start, stop, is_expired, woken}
use data_dump_protocol.MsTimer.Loop.{Event, Section, in_section, step, run}
use data_dump_protocol.MsTimer.Expiry.{armed, start_armed}
use data_dump_protocol.MsTimer.Starting.{start_call, section_first, ended}
use data_dump_protocol.MsTimer.Turns.{turns, run_turn, run-append, looks, finds}
use data_dump_protocol.MsTimer.Firing.{one_shot_ends}

module _ {S W : Type 0} (watch : Stopwatch S) where
  -- A thread that waits stays there.
  still_waits :
      (t : MsTimer S W) (ns : List ℕ) (w : W)
      → 0 < t.thread_id
      → run watch (turns ns) (record t { place = Place.waiting }) w
        ≡ (record t { place = Place.waiting }, w)
  unfolding run
  still_waits t [] w created = refl
  still_waits t (n ∷ ns) w created =
      run_turn watch (record t { place = Place.waiting }) created n ns w
      ∙ still_waits t ns w created

-- A timer that is started before its thread has reached its wait is not woken: however many steps
-- the thread makes, and however late, the timer does not expire, unless the wait ends by itself or
-- the timer is started anew.
pub lost_wake_up :
    {S W : Type 0} (watch : Stopwatch S) (begin timeout n : ℕ) (ns : List ℕ) (t : MsTimer S W)
    (w : W)
    → 0 < timeout
    → 0 < t.thread_id
    → t.place ≡ Place.before_wait
    → t.base.timer_status ≡ false
    → t.base.expired ≡ false
    → let r = run watch (turns (n ∷ ns)) (start watch begin t timeout).1 w in
      ((is_expired r.0).0 ≡ false)
      × (r.0.base.timer_status ≡ true)
      × (r.0.place ≡ Place.waiting)
      × (r.1 ≡ w)
unfolding is_expired
lost_wake_up {S = S} {W = W} watch begin timeout n ns t w some_time created h off calm =
    rw (start_armed watch begin timeout t off some_time, whole) (calm, refl, refl, refl)
  where
    t1 : MsTimer S W
    t1 = armed watch begin timeout t

    whole : run watch (turns (n ∷ ns)) t1 w ≡ (record t1 { place = Place.waiting }, w)
    whole =
        subst
          (λ p.
            run watch (turns (n ∷ ns)) (record t1 { place = woken p }) w
            ≡ (record t1 { place = Place.waiting }, w))
          (sym h)
          (run_turn watch (record t1 { place = Place.before_wait }) created n ns w
            ∙ still_waits watch t1 ns w created)

module _ {S W : Type 0} where
  stop_running :
      (t : MsTimer S W)
      → t.base.timer_status ≡ true
      → stop t ≡ (true, record t { base = record t.base { timer_status = false; timeoutms = 0 } })
  unfolding stop
  stop_running t running = simp running

module _ {S W : Type 0} (watch : Stopwatch S) (now : ℕ) (w : W) where
  -- The thread ends the period of a timer that runs, and sets the indicator.
  ends_at :
      (t : MsTimer S W) (p : Place)
      → p ≡ Place.ending
      → t.mode ≡ TimerMode.one_shot
      → 0 < t.thread_id
      → t.base.timer_status ≡ true
      → run watch (turns (now ∷ now ∷ [])) (record t { place = p }) w ≡ (
        record t {
          base = record t.base { timer_status = false; timeoutms = 0; expired = true };
          place = Place.notifying;
        },
        w,
      )
  unfolding run
  ends_at t p h mode created running =
      ap (λ p. run watch (turns (now ∷ now ∷ [])) (record t { place = p }) w) h
      ∙ (run_turn watch (record t { place = Place.ending }) created now (now ∷ []) w
          ∙ (ap (λ t. run watch (turns (now ∷ [])) (record t { place = Place.marking }) w)
                (one_shot_ends watch t now mode running)
              ∙ run_turn watch
                  (record t {
                    base = record t.base { timer_status = false; timeoutms = 0 };
                    place = Place.marking;
                  })
                  created now [] w))

-- A one-shot timer that is stopped and started anew while its thread is between `checkTimeOut` and
-- `stop` is stopped by the thread and held for expired, whatever its new time is and though none of
-- it is over.
pub stale_expiry :
    {S W : Type 0} (watch : Stopwatch S) (now timeout : ℕ) (t : MsTimer S W) (w : W)
    → t.mode ≡ TimerMode.one_shot
    → 0 < t.thread_id
    → t.place ≡ Place.ending
    → t.base.timer_status ≡ true
    → 0 < timeout
    → let r =
        run watch
          ((now, Event.stopped) ∷ (now, Event.started timeout) ∷ turns (now ∷ now ∷ []))
          t
          w in
      (r.0.base.timer_status ≡ false) × ((is_expired r.0).0 ≡ true)
unfolding run step stop is_expired
stale_expiry watch now timeout t w mode created h running some_time =
    let off = record t { base = record t.base { timer_status = false; timeoutms = 0 } } in
    rw (stop_running t running, start_armed watch now timeout off refl some_time)
      (rw
        (ends_at watch now w (armed watch now timeout off) (woken t.place) (ap woken h) mode created
          refl)
        (refl, refl))

-- If the thread of a one-shot timer is at the inner loop when `start` is called, and gets on to the end of
-- a period before the stopwatch is restarted, then the timer is stopped and held for expired at once,
-- though its stopwatch starts anew, whatever its new time, if the stopwatch has shown that much since the
-- start before.
pub early_expiry :
    {S W : Type 0} (watch : Stopwatch S) (now timeout : ℕ) (t : MsTimer S W) (w : W)
    → t.mode ≡ TimerMode.one_shot
    → 0 < t.thread_id
    → t.place ≡ Place.testing
    → t.base.timer_status ≡ false
    → timeout ≤ watch.elapsed now t.base.timer_handle
    → let r = run watch (start_call now timeout [] (now ∷ now ∷ now ∷ now ∷ []) []) t w in
      (r.0.base.timer_status ≡ false)
      × ((is_expired r.0).0 ≡ true)
      × (r.0.base.timer_handle ≡ watch.restarted now t.base.timer_handle)
unfolding is_expired in_section
early_expiry {S = S} {W = W} watch now timeout t w mode created inner off old =
    rw whole (refl, refl, refl)
  where
    t1 : MsTimer S W
    t1 = record t { base = record t.base { timeoutms = timeout; timer_status = true } }

    t2 : MsTimer S W
    t2 = record t {
      base = record t.base { timeoutms = 0; timer_status = false; expired = true };
      place = Place.notifying;
    }

    four : List ℕ
    four = now ∷ now ∷ now ∷ now ∷ []

    rest : List (ℕ × Event)
    rest = (now, Event.section Section.restarts_watch) ∷ (now, Event.section Section.notifies) ∷ []

    thread : run watch (turns four) t1 w ≡ (t2, w)
    thread =
        ap (λ p. run watch (turns four) (record t1 { place = p }) w) inner
        ∙ looks watch t1 now (now ∷ now ∷ now ∷ []) w created refl
        ∙ finds watch t1 now (now ∷ now ∷ []) w created
            (le→leb timeout (watch.elapsed now t.base.timer_handle) old)
        ∙ ends_at watch now w t1 Place.ending refl mode created refl

    whole : run watch (start_call now timeout [] four []) t w ≡ (
      record t2 {
        base = record t2.base { timer_handle = watch.restarted now t.base.timer_handle };
      },
      w,
    )
    whole =
        section_first watch now (Section.sets_timeout timeout) _ t w
        ∙ section_first watch now (Section.sets_status true) _ _ w
        ∙ run-append watch (turns four) rest t1 w
        ∙ ap (λ r. run watch rest r.0 r.1) thread
        ∙ section_first watch now Section.restarts_watch _ t2 w
        ∙ section_first watch now Section.notifies _ _ w
        ∙ ended watch _ w
