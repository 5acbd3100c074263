-- ===== src/DataDump/Does.antt =====
-- Methods that return: what they give, what they leave of the object, and what then holds outside it.
use data_dump_protocol.Base.{ℕ, suc, ◌≡◌, refl, ◌∙◌, Bool, true, false, if◌then◌else◌, ok}
use data_dump_protocol.DataDump.State.{DataDump}
use data_dump_protocol.DataDump.Monad.{M, ◌>>=◌, pure, get, modify, skip, poll}
use data_dump_protocol.DataDump.Phase.{bind-ok}

-- From `d`, with surroundings that satisfy `V`, `m` returns `a` and leaves `d'`, with such that
-- satisfy `V'`.
pub record Does {W A : Type 0} (m : M W A) (V : W → Type 0) (d : DataDump) (a : A) (d' : DataDump)
    (V' : W → Type 0) : Type 0 where
  pub does : (w : W) → V w → (w' : W) × (m d w ≡ ok (a, d', w')) × V' w'

module _ {W : Type 0} where
  pub bind-Does :
      {A B : Type 0} {m : M W A} (f : A → M W B) {U V V' : W → Type 0} {d d' d'' : DataDump} {a : A}
      {b : B}
      → Does m U d a d' V
      → Does (f a) V d' b d'' V'
      → Does (m >>= f) U d b d'' V'
  bind-Does {m = m} f {d = d} {d' = d'} {a = a} hm hf = record {
    does = λ w u.
        let (w1, e1, v1) = hm.does w u in
        let (w2, e2, v2) = hf.does w1 v1 in (w2, bind-ok m f d d' w w1 a e1 ∙ e2, v2);
  }

  pub modify-Does :
      (f : DataDump → DataDump) {V : W → Type 0} {d : DataDump} → Does (modify f) V d tt (f d) V
  modify-Does f = record { does = λ w v. (w, refl, v) }

  pub skip-Does : {V : W → Type 0} {d : DataDump} → Does (skip {W = W}) V d tt d V
  skip-Does = record { does = λ w v. (w, refl, v) }

  pub pure-Does : {A : Type 0} {a : A} {V : W → Type 0} {d : DataDump} → Does (pure a) V d a d V
  pure-Does = record { does = λ w v. (w, refl, v) }

  -- The test's result is known.
  pub taken-Does :
      {A : Type 0} {m : M W A} (k : M W A) {V V' : W → Type 0} {d d' : DataDump} {a : A} (b : Bool)
      → b ≡ true
      → Does m V d a d' V'
      → Does (if b then m else k) V d a d' V'
  taken-Does k true e h = h
  taken-Does k false e h = absurd (cc e)

  pub passed-Does :
      {A : Type 0} (m : M W A) {k : M W A} {V V' : W → Type 0} {d d' : DataDump} {a : A} (b : Bool)
      → b ≡ false
      → Does k V d a d' V'
      → Does (if b then m else k) V d a d' V'
  passed-Does m false e h = h
  passed-Does m true e h = absurd (cc e)

  -- A loop whose first round gives what it is run for.
  pub poll-Does :
      {S : Type 0} (body : S → M W S) (stop : M W Bool) {V V' : W → Type 0} {d d' : DataDump}
      {s : S} (rounds : ℕ) (again : S → Bool) (start : S)
      → again s ≡ false
      → Does (body start) V d s d' V'
      → Does (poll (suc rounds) body again stop start) V d s d' V'
  unfolding poll
  poll-Does body stop {V' = V'} {d' = d'} {s = s} rounds again start enough h = bind-Does _ h (
      passed-Does (stop >>= λ stopped. if stopped then pure s else poll rounds body again stop s)
        (again s) enough pure-Does)

  -- `get` hands on the object itself.
  pub get-Does : {V : W → Type 0} {d : DataDump} → Does (get {W = W}) V d d d V
  get-Does = record { does = λ w v. (w, refl, v) }
