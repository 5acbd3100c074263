-- ===== src/MsTimer/Refiring.antt =====
-- What a periodic timer of ClockAndTimer/source/msTimer.cpp does after its first period.
use data_dump_protocol.Base.{
  ℕ, zero, suc, ◌<◌, ◌≡◌, refl, sym, subst, ap, ◌∙◌, true, List, [], ◌∷◌, arith, ne→==_false,
}
use data_dump_protocol.MsTimer.Base.{Stopwatch, BaseTimer, check_time_out, notify}
use data_dump_protocol.MsTimer.Ops.{TimerMode, Place, MsTimer, start}
use data_dump_protocol.MsTimer.Loop.{run, end_period}
use data_dump_protocol.MsTimer.Turns.{turns, finds, looks, fires}

module _ {S W : Type 0} (watch : Stopwatch S) where
  -- A periodic timer that runs refuses to be started again.
  periodic_ends :
      (t : MsTimer S W) (n : ℕ)
      → t.mode ≡ TimerMode.periodic
      → t.base.timer_status ≡ true
      → 0 < t.base.timeoutms
      → end_period watch n (record t { place = Place.ending }) ≡ record t { place = Place.ending }
  unfolding end_period start
  periodic_ends t n e running some_time =
      simp (e, running, ne→==_false t.base.timeoutms 0 (ground arith))

-- `k` rounds of the inner loop, all at the time `n`.
abbrev pub cycles : ℕ → ℕ → List ℕ
cycles zero n = []
cycles (suc k) n = n ∷ n ∷ n ∷ n ∷ n ∷ cycles k n

abbrev pub called : {S W : Type 0} → ℕ → BaseTimer S W → W → W
called zero b w = w
called (suc k) b w = called k b (notify b w)

-- Which callback is called does not depend on the indicator.
called_expired :
    {S W : Type 0} (k : ℕ) (b : BaseTimer S W) (w : W)
    → called k (record b { expired = true }) w ≡ called k b w
called_expired zero b w = refl
called_expired (suc k) b w = called_expired k b (notify b w)

module _ {S W : Type 0} (watch : Stopwatch S) (n : ℕ) where
  round_refires :
      (t : MsTimer S W) (ns : List ℕ) (w : W)
      → t.mode ≡ TimerMode.periodic
      → 0 < t.thread_id
      → t.base.timer_status ≡ true
      → 0 < t.base.timeoutms
      → check_time_out watch n t.base ≡ true
      → run watch (turns (n ∷ n ∷ n ∷ n ∷ n ∷ ns)) (record t { place = Place.testing }) w
        ≡ run watch
            (turns ns)
            (record t { base = record t.base { expired = true }; place = Place.testing })
            (notify t.base w)
  round_refires t ns w mode created running some_time over =
      looks watch t n (n ∷ n ∷ n ∷ n ∷ ns) w created running
      ∙ (finds watch t n (n ∷ n ∷ n ∷ ns) w created over
          ∙ fires watch t t.base n n n ns w created
              (periodic_ends watch t n mode running some_time))

  refires :
      (k : ℕ) (t : MsTimer S W) (w : W)
      → t.mode ≡ TimerMode.periodic
      → 0 < t.thread_id
      → t.base.timer_status ≡ true
      → 0 < t.base.timeoutms
      → check_time_out watch n t.base ≡ true
      → let r = run watch (turns (cycles k n)) (record t { place = Place.testing }) w in
        (r.1 ≡ called k t.base w) × (r.0.base.timer_handle ≡ t.base.timer_handle)
  unfolding run
  refires zero t w mode created running some_time over = (refl, refl)
  refires (suc k) t w mode created running some_time over =
      let (e, e') =
        refires k (record t { base = record t.base { expired = true } }) (notify t.base w) mode
          created running some_time over in
      let round = round_refires t (cycles k n) w mode created running some_time over in
      (
        ap (λ r. r.1) round ∙ (e ∙ called_expired k t.base (notify t.base w)),
        ap (λ r. r.0.base.timer_handle) round ∙ e',
      )

-- A periodic timer whose time is over calls its callback in every round of its thread's loop from
-- then on, though no time passes between the rounds: it runs, so it refuses to be started again,
-- and its stopwatch keeps the old start.
pub periodic_refires :
    {S W : Type 0} (watch : Stopwatch S) (k n : ℕ) (t : MsTimer S W) (w : W)
    → t.mode ≡ TimerMode.periodic
    → 0 < t.thread_id
    → t.place ≡ Place.testing
    → t.base.timer_status ≡ true
    → 0 < t.base.timeoutms
    → check_time_out watch n t.base ≡ true
    → let r = run watch (turns (cycles k n)) t w in
      (r.1 ≡ called k t.base w) × (r.0.base.timer_handle ≡ t.base.timer_handle)
periodic_refires watch k n t w mode created h running some_time over =
    subst
      (λ p.
        let r = run watch (turns (cycles k n)) (record t { place = p }) w in
        (r.1 ≡ called k t.base w) × (r.0.base.timer_handle ≡ t.base.timer_handle))
      (sym h) (refires watch n k t w mode created running some_time over)
