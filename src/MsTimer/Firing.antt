-- ===== src/MsTimer/Firing.antt =====
-- What the thread of ClockAndTimer/source/msTimer.cpp does once the time is over.
use data_dump_protocol.Base.{
  ℕ, ◌+◌, ◌≤◌, ◌<◌, ◌≡◌, refl, ap, ◌∙◌, true, false, List, ◌∷◌, ◌++◌, All, arith, le→leb,
}
use data_dump_protocol.MsTimer.Base.{Stopwatch, Measures, BaseTimer, check_time_out, notify}
use data_dump_protocol.MsTimer.Ops.{TimerMode, Place, MsTimer, start, stop, woken}
use data_dump_protocol.MsTimer.Loop.{Event, run, end_period}
use data_dump_protocol.MsTimer.Expiry.{
  Armed, InTime, idle, armed, start_armed, armed-Armed, run-Waits,
}
use data_dump_protocol.MsTimer.Turns.{turns, run-append, finds, looks, fires, rests}

module _ {S W : Type 0} (watch : Stopwatch S) where
  -- A one-shot timer that runs is stopped at the end of its time.
  pub one_shot_ends :
      (t : MsTimer S W) (n : ℕ)
      → t.mode ≡ TimerMode.one_shot
      → t.base.timer_status ≡ true
      → end_period watch n (record t { place = Place.ending }) ≡ record t {
        base = record t.base { timer_status = false; timeoutms = 0 };
        place = Place.ending;
      }
  unfolding end_period stop
  one_shot_ends t n e running = simp (e, running)

  -- What a one-shot timer becomes when its time is over.
  abbrev spent : BaseTimer S W → BaseTimer S W
  spent b = record b { timer_status = false; timeoutms = 0; expired = true }

  abbrev Spent : MsTimer S W → W → MsTimer S W × W → Type 0
  Spent t w r = (p : Place) × (r ≡ (record t { base = spent t.base; place = p }, notify t.base w))

  ending_Spent :
      (t : MsTimer S W) (n1 n2 n3 : ℕ) (ns : List ℕ) (w : W)
      → t.mode ≡ TimerMode.one_shot
      → 0 < t.thread_id
      → t.base.timer_status ≡ true
      → Spent t w (run watch (turns (n1 ∷ n2 ∷ n3 ∷ ns)) (record t { place = Place.ending }) w)
  ending_Spent t n1 n2 n3 ns w mode created running =
      let (p, e) =
        rests watch (record t { base = spent t.base }) Place.testing ns (notify t.base w) created
          refl refl in
      (
        p,
        fires watch t (record t.base { timer_status = false; timeoutms = 0 }) n1 n2 n3 ns w created
              (one_shot_ends t n1 mode running)
            ∙ e,
      )

  awake_Spent :
      (t : MsTimer S W) (p : Place) (n1 n2 n3 n4 n5 n6 : ℕ) (ns : List ℕ) (w : W)
      → t.mode ≡ TimerMode.one_shot
      → 0 < t.thread_id
      → t.base.timer_status ≡ true
      → check_time_out watch n1 t.base ≡ true
      → check_time_out watch n2 t.base ≡ true
      → idle true p ≡ true
      → Spent t w (run watch (turns (n1 ∷ n2 ∷ n3 ∷ n4 ∷ n5 ∷ n6 ∷ ns)) (record t { place = p }) w)
  awake_Spent t Place.testing n1 n2 n3 n4 n5 n6 ns w mode created running o1 o2 h =
      let (p, e) = ending_Spent t n3 n4 n5 (n6 ∷ ns) w mode created running in
      (
        p,
        looks watch t n1 (n2 ∷ n3 ∷ n4 ∷ n5 ∷ n6 ∷ ns) w created running
            ∙ (finds watch t n2 (n3 ∷ n4 ∷ n5 ∷ n6 ∷ ns) w created o2 ∙ e),
      )
  awake_Spent t Place.checking n1 n2 n3 n4 n5 n6 ns w mode created running o1 o2 h =
      let (p, e) = ending_Spent t n2 n3 n4 (n5 ∷ n6 ∷ ns) w mode created running in
      (p, finds watch t n1 (n2 ∷ n3 ∷ n4 ∷ n5 ∷ n6 ∷ ns) w created o1 ∙ e)
  awake_Spent t Place.before_wait n1 n2 n3 n4 n5 n6 ns w mode created running o1 o2 h =
      absurd (ground arith)
  awake_Spent t Place.waiting n1 n2 n3 n4 n5 n6 ns w mode created running o1 o2 h =
      absurd (ground arith)
  awake_Spent t Place.ending n1 n2 n3 n4 n5 n6 ns w mode created running o1 o2 h =
      absurd (ground arith)
  awake_Spent t Place.marking n1 n2 n3 n4 n5 n6 ns w mode created running o1 o2 h =
      absurd (ground arith)
  awake_Spent t Place.notifying n1 n2 n3 n4 n5 n6 ns w mode created running o1 o2 h =
      absurd (ground arith)

  over :
      (begin timeout n : ℕ) (b : BaseTimer S W)
      → Measures watch
      → Armed watch begin timeout b
      → begin + timeout ≤ n
      → check_time_out watch n b ≡ true
  over begin timeout n b measures k late = le→leb b.timeoutms (watch.elapsed n b.timer_handle) (
      omega (arith, ap (watch.elapsed n) k.handle, measures begin n k.since (omega arith), k.limit))

-- A one-shot timer whose thread waits, started with a time other than 0, does expire: whatever has
-- happened within its time without stopping it, six steps of the thread after that time suffice. Then
-- the timer is stopped, its indicator is set, and its callback has been called exactly once, and
-- further steps of the thread change nothing of that.
pub expires_once :
    {S W : Type 0} (watch : Stopwatch S) (begin timeout : ℕ) (es : List (ℕ × Event))
    (n1 n2 n3 n4 n5 n6 : ℕ) (ns : List ℕ) (t : MsTimer S W) (w : W)
    → Measures watch
    → 0 < timeout
    → t.mode ≡ TimerMode.one_shot
    → 0 < t.thread_id
    → t.place ≡ Place.waiting
    → t.base.timer_status ≡ false
    → t.base.expired ≡ false
    → All (InTime begin timeout) es
    → begin + timeout ≤ n1
    → begin + timeout ≤ n2
    → let r =
        run watch
          (es ++ turns (n1 ∷ n2 ∷ n3 ∷ n4 ∷ n5 ∷ n6 ∷ ns))
          (start watch begin t timeout).1
          w in
      (r.0.base.timer_status ≡ false) × (r.0.base.expired ≡ true) × (r.1 ≡ notify t.base w)
expires_once watch begin timeout es n1 n2 n3 n4 n5 n6 ns t w measures some_time mode created h off
      calm all late1 late2 =
    let t1 = armed watch begin timeout t in
    let k = armed-Armed watch begin timeout t calm in
    let (p, h', e) =
      run-Waits watch measures begin timeout true es t1 w k all (ap (λ p. idle true (woken p)) h) in
    let (p', e') =
      awake_Spent watch t1 p n1 n2 n3 n4 n5 n6 ns w mode created refl
        (over watch begin timeout n1 t1.base measures k late1)
        (over watch begin timeout n2 t1.base measures k late2) h' in
    rw
      (
        start_armed watch begin timeout t off some_time,
        run-append watch es (turns (n1 ∷ n2 ∷ n3 ∷ n4 ∷ n5 ∷ n6 ∷ ns)) t1 w,
        e,
        e',
      )
      (refl, refl, refl)
