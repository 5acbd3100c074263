-- ===== src/MsTimer/Turns.antt =====
-- Steps of the thread of ClockAndTimer/source/msTimer.cpp, one place after the other.
use data_dump_protocol.Base.{
  ℕ, ◌<◌, ◌≡◌, refl, ap, ◌∙◌, Bool, true, false, if◌then◌else◌, List, [], ◌∷◌, ◌++◌, arith,
  ne→==_false,
}
use data_dump_protocol.MsTimer.Base.{Stopwatch, BaseTimer, check_time_out, notify}
use data_dump_protocol.MsTimer.Ops.{Place, MsTimer}
use data_dump_protocol.MsTimer.Loop.{Event, thread_step, step, run, end_period, at_place}

-- Steps of the thread and nothing else, at these times.
abbrev pub turns : List ℕ → List (ℕ × Event)
turns [] = []
turns (n ∷ ns) = (n, Event.turn) ∷ turns ns

-- The thread has nothing to finish before it waits.
abbrev pub parked : Place → Bool
parked Place.before_wait = true
parked Place.waiting = true
parked Place.testing = true
parked Place.checking = false
parked Place.ending = false
parked Place.marking = false
parked Place.notifying = false

module _ {S W : Type 0} (watch : Stopwatch S) where
  pub run-append :
      (es fs : List (ℕ × Event)) (t : MsTimer S W) (w : W)
      → run watch (es ++ fs) t w ≡ run watch fs (run watch es t w).0 (run watch es t w).1
  unfolding run
  run-append [] fs t w = refl
  run-append (e ∷ es) fs t w =
      run-append es fs (step watch e.0 e.1 t w).0 (step watch e.0 e.1 t w).1

  module _ (t : MsTimer S W) (created : 0 < t.thread_id) where
    pub turn_at : (n : ℕ) (w : W) → step watch n Event.turn t w ≡ at_place watch t.place n t w
    unfolding step thread_step
    turn_at n w = rw (ne→==_false t.thread_id 0 (ground arith)) refl

    pub run_turn :
        (n : ℕ) (ns : List ℕ) (w : W)
        → run watch (turns (n ∷ ns)) t w
          ≡ run watch (turns ns) (at_place watch t.place n t w).0 (at_place watch t.place n t w).1
    unfolding run
    run_turn n ns w = ap (λ r. run watch (turns ns) r.0 r.1) (turn_at n w)

  -- From `checkTimeOut` the thread goes on to end the period.
  pub finds :
      (t : MsTimer S W) (n : ℕ) (ns : List ℕ) (w : W)
      → 0 < t.thread_id
      → check_time_out watch n t.base ≡ true
      → run watch (turns (n ∷ ns)) (record t { place = Place.checking }) w
        ≡ run watch (turns ns) (record t { place = Place.ending }) w
  finds t n ns w created over =
      run_turn (record t { place = Place.checking }) created n ns w
      ∙ ap
          (λ b.
            run watch (turns ns) (record t { place = if b then Place.ending else Place.testing }) w)
          over

  pub looks :
      (t : MsTimer S W) (n : ℕ) (ns : List ℕ) (w : W)
      → 0 < t.thread_id
      → t.base.timer_status ≡ true
      → run watch (turns (n ∷ ns)) (record t { place = Place.testing }) w
        ≡ run watch (turns ns) (record t { place = Place.checking }) w
  looks t n ns w created running =
      run_turn (record t { place = Place.testing }) created n ns w
      ∙ ap
          (λ b.
            run watch (turns ns)
              (record t { place = if b then Place.checking else Place.before_wait }) w)
          running

  -- Three steps end the period, set the indicator and call the callback.
  pub fires :
      (t : MsTimer S W) (b : BaseTimer S W) (n1 n2 n3 : ℕ) (ns : List ℕ) (w : W)
      → 0 < t.thread_id
      → end_period watch n1 (record t { place = Place.ending })
        ≡ record t { base = b; place = Place.ending }
      → run watch (turns (n1 ∷ n2 ∷ n3 ∷ ns)) (record t { place = Place.ending }) w
        ≡ run watch
            (turns ns)
            (record t { base = record b { expired = true }; place = Place.testing })
            (notify b w)
  fires t b n1 n2 n3 ns w created e =
      run_turn (record t { place = Place.ending }) created n1 (n2 ∷ n3 ∷ ns) w
      ∙ (ap (λ t. run watch (turns (n2 ∷ n3 ∷ ns)) (record t { place = Place.marking }) w) e
          ∙ (run_turn (record t { base = b; place = Place.marking }) created n2 (n3 ∷ ns) w
              ∙ run_turn (record t { base = record b { expired = true }; place = Place.notifying })
                  created n3 ns w))

  -- A timer that does not run stays as it is while its thread goes back to its wait.
  pub rests :
      (t : MsTimer S W) (p : Place) (ns : List ℕ) (w : W)
      → 0 < t.thread_id
      → t.base.timer_status ≡ false
      → parked p ≡ true
      → (p' : Place) × (run watch (turns ns) (record t { place = p }) w
          ≡ (record t { place = p' }, w))
  unfolding run
  rests t p [] w created off h = (p, refl)
  rests t Place.before_wait (n ∷ ns) w created off h =
      let (p', e) = rests t Place.waiting ns w created off refl in
      (p', run_turn (record t { place = Place.before_wait }) created n ns w ∙ e)
  rests t Place.waiting (n ∷ ns) w created off h =
      let (p', e) = rests t Place.waiting ns w created off refl in
      (p', run_turn (record t { place = Place.waiting }) created n ns w ∙ e)
  rests t Place.testing (n ∷ ns) w created off h =
      let (p', e) = rests t Place.before_wait ns w created off refl in
      (
        p',
        run_turn (record t { place = Place.testing }) created n ns w
            ∙ (ap
                  (λ b.
                    run watch (turns ns)
                      (record t { place = if b then Place.checking else Place.before_wait }) w)
                  off
                ∙ e),
      )
  rests t Place.checking (n ∷ ns) w created off h = absurd (ground arith)
  rests t Place.ending (n ∷ ns) w created off h = absurd (ground arith)
  rests t Place.marking (n ∷ ns) w created off h = absurd (ground arith)
  rests t Place.notifying (n ∷ ns) w created off h = absurd (ground arith)
