-- ===== src/MsTimer/Starting.antt =====
-- The sections of `start` of ClockAndTimer/source/msTimer.cpp, and what the thread may do between them.
use data_dump_protocol.Base.{ℕ, ◌<◌, ◌≡◌, refl, Bool, true, false, List, [], ◌∷◌, ◌++◌}
use data_dump_protocol.MsTimer.Base.{Stopwatch}
use data_dump_protocol.MsTimer.Ops.{Place, MsTimer, start}
use data_dump_protocol.MsTimer.Loop.{Event, Section, step, run, in_section}
use data_dump_protocol.MsTimer.Turns.{turns}
use data_dump_protocol.MsTimer.Expiry.{start_armed}

-- The thread has not come to the inner loop.
abbrev pub asleep : Place → Bool
asleep Place.before_wait = true
asleep Place.waiting = true
asleep Place.testing = false
asleep Place.checking = false
asleep Place.ending = false
asleep Place.marking = false
asleep Place.notifying = false

-- A call of `start` that finds the timer stopped and restarts the stopwatch at `begin`: the thread makes
-- steps at the times `ts`, `us` and `vs` between its sections.
abbrev pub start_call : ℕ → ℕ → List ℕ → List ℕ → List ℕ → List (ℕ × Event)
start_call begin timeout ts us vs =
    (begin, Event.section (Section.sets_timeout timeout))
    ∷ (turns ts
        ++ (begin, Event.section (Section.sets_status true))
          ∷ (turns us
              ++ (begin, Event.section Section.restarts_watch)
                ∷ (turns vs ++ (begin, Event.section Section.notifies) ∷ [])))

module _ {S W : Type 0} (watch : Stopwatch S) where
  pub section_first :
      (begin : ℕ) (s : Section) (es : List (ℕ × Event)) (t : MsTimer S W) (w : W)
      → run watch ((begin, Event.section s) ∷ es) t w ≡ run watch es (in_section watch begin s t) w
  unfolding run step
  section_first begin s es t w = refl

  -- Nothing but the thread's place changes, and it stays asleep.
  abbrev Sleeps : MsTimer S W → W → MsTimer S W × W → Type 0
  Sleeps t w r = (p : Place) × (asleep p ≡ true) × (r ≡ (record t { place = p }, w))

  pub ended : (t : MsTimer S W) (w : W) → run watch [] t w ≡ (t, w)
  unfolding run
  ended t w = refl

-- Without a step of the thread between them the sections are the call.
start_call-start :
    {S W : Type 0} (watch : Stopwatch S) (begin timeout : ℕ) (t : MsTimer S W) (w : W)
    → t.base.timer_status ≡ false
    → 0 < timeout
    → run watch (start_call begin timeout [] [] []) t w ≡ ((start watch begin t timeout).1, w)
unfolding run step in_section
start_call-start watch begin timeout t w off some_time =
    rw (start_armed watch begin timeout t off some_time) refl
