-- ===== src/DataDump/Worlds.antt =====
-- What the methods of dataDump/DDBase.cpp leave alone outside the object: a property of the
-- surroundings that every callback, timer call and mutex keeps is kept by every method.
use data_dump_protocol.Base.{
  ℕ, zero, suc, Option, none, some, Bool, true, false, if◌then◌else◌, List, Outcome, ok, fault,
  pending, ◌≡◌, refl,
}
use data_dump_protocol.Packet.Types.{ContinueBit}
use data_dump_protocol.DataDump.State.{DataDump, Host, Mutex}
use data_dump_protocol.DataDump.Monad.{M, ◌>>=◌, ◌>>◌, pure, get, modify, outside, lift, skip, poll}

-- Every call that the object makes of its surroundings keeps `V`.
pub record Guards {W : Type 0} (host : Host W) (V : W → Type 0) : Type 0 where
  pub sends :
      (f : List ℕ → W → Bool × W)
      → host.send_cb ≡ some f
      → (bytes : List ℕ) (w : W) → V w
      → V (f bytes w).1
  pub receives :
      (f : ℕ → W → List ℕ × W) → host.recv_cb ≡ some f → (n : ℕ) (w : W) → V w → V (f n w).1
  pub consumes :
      (f : ℕ → Bool → W → List ℕ × W)
      → host.consumer_cb ≡ some f
      → (n : ℕ) (erase : Bool) (w : W) → V w
      → V (f n erase w).1
  pub notifies : (f : Bool → W → W) → host.notify_cb ≡ some f → (b : Bool) (w : W) → V w → V (f b w)
  pub starts : (interval : ℕ) (w : W) → V w → V (host.timer_start interval w).1
  pub stops : (w : W) → V w → V (host.timer_stop w).1
  pub expires : (w : W) → V w → V (host.timer_is_expired w).1
  pub locks : (m : Mutex) (w : W) → V w → V (host.try_lock m w).1

-- Where a method ends, if it does, its surroundings satisfy `V`.
abbrev pub Reaches : {W A : Type 0} → (W → Type 0) → Outcome (A × DataDump × W) → Type 0
Reaches V (ok r) = V r.2
Reaches V fault = Unit {0}
Reaches V pending = Unit {0}

-- From surroundings that satisfy `V`, `m` comes to such.
pub record Spares {W A : Type 0} (V : W → Type 0) (m : M W A) : Type 0 where
  pub spares : (d : DataDump) (w : W) → V w → Reaches V (m d w)

lifted :
    {W A : Type 0} (V : W → Type 0) (o : Outcome A) (d : DataDump) (w : W)
    → V w
    → Reaches V (lift o d w)
lifted V (ok a) d w v = v
lifted V fault d w v = tt
lifted V pending d w v = tt

module _ {W : Type 0} {V : W → Type 0} where
  Reaches-bind :
      {A B : Type 0} (o : Outcome (A × DataDump × W)) (f : A → M W B)
      → Reaches V o
      → ((a : A) → Spares V (f a))
      → Reaches V (elim o [ ok r ↦ f r.0 r.1 r.2 | fault ↦ fault | pending ↦ pending ])
  Reaches-bind (ok r) f h k = (k r.0).spares r.1 r.2 h
  Reaches-bind fault f h k = tt
  Reaches-bind pending f h k = tt

  pub bind-Spares :
      {A B : Type 0} {m : M W A} {f : A → M W B}
      → Spares V m
      → ((a : A) → Spares V (f a))
      → Spares V (m >>= f)
  bind-Spares {m = m} {f = f} hm hf = record {
    spares = λ d w v. Reaches-bind (m d w) f (hm.spares d w v) hf;
  }

  pub then-Spares :
      {A B : Type 0} {m : M W A} {k : M W B} → Spares V m → Spares V k → Spares V (m >> k)
  then-Spares hm hk = bind-Spares hm (λ _. hk)

  pub pure-Spares : {A : Type 0} {a : A} → Spares V (pure a)
  pure-Spares = record { spares = λ d w v. v }

  pub get-Spares : Spares V get
  get-Spares = record { spares = λ d w v. v }

  pub skip-Spares : Spares V skip
  skip-Spares = record { spares = λ d w v. v }

  pub modify-Spares : (f : DataDump → DataDump) → Spares V (modify f)
  modify-Spares f = record { spares = λ d w v. v }

  pub outside-Spares :
      {A : Type 0} (f : W → A × W) → ((w : W) → V w → V (f w).1) → Spares V (outside f)
  outside-Spares f h = record { spares = λ d w v. h w v }

  pub lift-Spares : {A : Type 0} (o : Outcome A) → Spares V (lift o)
  lift-Spares o = record { spares = lifted V o }

  pub if-Spares :
      {A : Type 0} (b : Bool) {m k : M W A}
      → Spares V m
      → Spares V k
      → Spares V (if b then m else k)
  if-Spares true hm hk = hm
  if-Spares false hm hk = hk

  pub option-Spares :
      {X A : Type 0} (o : Option X) {m : M W A} {f : X → M W A}
      → Spares V m
      → ((x : X) → o ≡ some x → Spares V (f x))
      → Spares V (elim o [ none ↦ m | some x ↦ f x ])
  option-Spares none hm hf = hm
  option-Spares (some x) hm hf = hf x refl

  pub by_bit-Spares :
      (b : ContinueBit) {A : Type 0} {m k : M W A}
      → Spares V m
      → Spares V k
      → Spares V (elim b [ ContinueBit.terminate_transfer ↦ m | ContinueBit.continue_transfer ↦ k ])
  by_bit-Spares ContinueBit.terminate_transfer hm hk = hm
  by_bit-Spares ContinueBit.continue_transfer hm hk = hk

  pub poll-Spares :
      {S : Type 0} {body : S → M W S} {stop : M W Bool} (rounds : ℕ) (again : S → Bool)
      → ((s : S) → Spares V (body s))
      → Spares V stop
      → (s : S) → Spares V (poll rounds body again stop s)
  unfolding poll
  poll-Spares zero again hb hs s = record { spares = λ d w v. tt }
  poll-Spares (suc rounds) again hb hs s = bind-Spares (hb s) λ s'.
      if-Spares (again s')
        (bind-Spares hs
          λ stopped. if-Spares stopped pure-Spares (poll-Spares rounds again hb hs s'))
        pure-Spares
