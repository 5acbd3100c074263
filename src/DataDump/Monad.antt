-- ===== src/DataDump/Monad.antt =====
-- Methods of a `DataDump` object: state passing over the object and its surroundings.
use data_dump_protocol.Base.{ℕ, zero, suc, Bool, if◌then◌else◌, Outcome, ok, fault, pending}
use data_dump_protocol.DataDump.State.{DataDump}

abbrev pub M : Type 0 → Type 0 → Type 0
M W A = DataDump → W → Outcome (A × DataDump × W)

module _ {W : Type 0} where
  infixl 5 ◌>>=◌ ◌>>◌
  abbrev pub ◌>>=◌ : {A B : Type 0} → M W A → (A → M W B) → M W B
  ◌>>=◌ m f d w = elim (m d w) [ ok r ↦ f r.0 r.1 r.2 | fault ↦ fault | pending ↦ pending ]

  abbrev pub ◌>>◌ : {A B : Type 0} → M W A → M W B → M W B
  ◌>>◌ m k = ◌>>=◌ m λ _. k

  abbrev pub pure : {A : Type 0} → A → M W A
  pure a d w = ok (a, d, w)

  abbrev pub get : M W DataDump
  get d w = ok (d, d, w)

  abbrev pub modify : (DataDump → DataDump) → M W (Unit {0})
  modify f d w = ok (tt, f d, w)

  -- A call that touches the surroundings only.
  abbrev pub outside : {A : Type 0} → (W → A × W) → M W A
  outside f d w = let r = f w in ok (r.0, d, r.1)

  -- Code that touches neither.
  abbrev pub lift : {A : Type 0} → Outcome A → M W A
  lift (ok a) d w = ok (a, d, w)
  lift fault d w = fault
  lift pending d w = pending

  abbrev pub skip : M W (Unit {0})
  skip d w = ok (tt, d, w)

  abbrev pub running : {A : Type 0} → M W A
  running d w = pending

  -- `do { body } while(again && !stop())`, `stop` being called only if `again` holds. The number
  -- bounds the rounds: when they are used up the loop is still running.
  unfoldable pub poll : {S : Type 0} → ℕ → (S → M W S) → (S → Bool) → M W Bool → S → M W S
  poll zero body again stop s = running
  poll (suc rounds) body again stop s = ◌>>=◌ (body s) λ s'.
      let rest = poll rounds body again stop s' in
      if again s' then ◌>>=◌ stop (λ stopped. if stopped then pure s' else rest) else pure s'
