-- ===== src/DataDump/Phase.antt =====
-- How the steps of DDServer and DDClient change `current_state` and `next_state` of a `DataDump`: the
-- lemmas follow a method call by call.
use data_dump_protocol.Base.{
  ◌≡◌, refl, ap, ℕ, zero, suc, Option, none, some, Bool, true, false, if◌then◌else◌, Outcome, ok,
  fault, pending,
}
use data_dump_protocol.Packet.Types.{ContinueBit}
use data_dump_protocol.DataDump.State.{DataDump}
use data_dump_protocol.DataDump.Monad.{M, ◌>>=◌, ◌>>◌, pure, get, modify, outside, lift, skip, poll}

-- A call that returns hands its result on.
pub bind-ok :
    {W A B : Type 0} (m : M W A) (f : A → M W B) (d d' : DataDump) (w w' : W) (a : A)
    → m d w ≡ ok (a, d', w')
    → (m >>= f) d w ≡ f a d' w'
bind-ok m f d d' w w' a e =
    ap (λ o. elim o [ ok r ↦ f r.0 r.1 r.2 | fault ↦ fault | pending ↦ pending ]) e

module _ {W : Type 0} where
  -- Where a method ends, if it does, the object it leaves satisfies `P`.
  abbrev pub Leaves : {A : Type 0} → (DataDump → Type 0) → Outcome (A × DataDump × W) → Type 0
  Leaves P (ok r) = P r.1
  Leaves P fault = Unit {0}
  Leaves P pending = Unit {0}

  pub Leaves-map :
      {A : Type 0} {P Q : DataDump → Type 0} (o : Outcome (A × DataDump × W))
      → ((d : DataDump) → P d → Q d)
      → Leaves P o
      → Leaves Q o
  Leaves-map (ok r) f h = f r.1 h
  Leaves-map fault f h = tt
  Leaves-map pending f h = tt

  -- From an object that satisfies `P`, `m` leaves one that satisfies `Q`.
  pub record Takes {A : Type 0} (P Q : DataDump → Type 0) (m : M W A) : Type 0 where
    pub takes : (d : DataDump) (w : W) → P d → Leaves Q (m d w)

  abbrev pub Keeps : {A : Type 0} → (DataDump → Type 0) → M W A → Type 0
  Keeps P m = Takes P P m

  pub Leaves-bind :
      {A B : Type 0} (P Q : DataDump → Type 0) (o : Outcome (A × DataDump × W)) (f : A → M W B)
      → Leaves P o
      → ((a : A) → Takes P Q (f a))
      → Leaves Q (elim o [ ok r ↦ f r.0 r.1 r.2 | fault ↦ fault | pending ↦ pending ])
  Leaves-bind P Q (ok r) f h k = (k r.0).takes r.1 r.2 h
  Leaves-bind P Q fault f h k = tt
  Leaves-bind P Q pending f h k = tt

  pub bind-Takes :
      {A B : Type 0} {P R Q : DataDump → Type 0} {m : M W A} {f : A → M W B}
      → Takes P R m
      → ((a : A) → Takes R Q (f a))
      → Takes P Q (m >>= f)
  bind-Takes {P = P} {R = R} {Q = Q} {m = m} {f = f} hm hf = record {
    takes = λ d w p. Leaves-bind R Q (m d w) f (hm.takes d w p) hf;
  }

  pub then-Takes :
      {A B : Type 0} {P R Q : DataDump → Type 0} {m : M W A} {k : M W B}
      → Takes P R m
      → Takes R Q k
      → Takes P Q (m >> k)
  then-Takes hm hk = bind-Takes hm (λ _. hk)

  -- What `get` hands on is the object itself.
  pub known-Takes :
      {A : Type 0} {P Q : DataDump → Type 0} {f : DataDump → M W A}
      → ((d : DataDump) → P d → Takes (λ d'. d' ≡ d) Q (f d))
      → Takes P Q (get >>= f)
  known-Takes h = record { takes = λ d w p. (h d p).takes d w refl }

  -- What `lift` hands on is what the code returned.
  pub lifted-Takes :
      {X A : Type 0} {P Q : DataDump → Type 0} (o : Outcome X) {f : X → M W A}
      → ((x : X) → o ≡ ok x → Takes P Q (f x))
      → Takes P Q (lift o >>= f)
  lifted-Takes (ok x) h = record { takes = λ d w p. (h x refl).takes d w p }
  lifted-Takes fault h = record { takes = λ d w p. tt }
  lifted-Takes pending h = record { takes = λ d w p. tt }

  pub pure-Keeps : {A : Type 0} {P : DataDump → Type 0} {a : A} → Keeps P (pure a)
  pure-Keeps = record { takes = λ d w p. p }

  pub get-Keeps : {P : DataDump → Type 0} → Keeps P get
  get-Keeps = record { takes = λ d w p. p }

  pub skip-Takes : {P Q : DataDump → Type 0} → ((d : DataDump) → P d → Q d) → Takes P Q skip
  skip-Takes h = record { takes = λ d w p. h d p }

  pub skip-Keeps : {P : DataDump → Type 0} → Keeps P skip
  skip-Keeps = record { takes = λ d w p. p }

  pub outside-Keeps : {A : Type 0} {P : DataDump → Type 0} (f : W → A × W) → Keeps P (outside f)
  outside-Keeps f = record { takes = λ d w p. p }

  pub modify-Takes :
      {P Q : DataDump → Type 0} (f : DataDump → DataDump)
      → ((d : DataDump) → P d → Q (f d))
      → Takes P Q (modify f)
  modify-Takes f h = record { takes = λ d w p. h d p }

  Leaves-lift :
      {A : Type 0} (P : DataDump → Type 0) (o : Outcome A) (d : DataDump) (w : W)
      → P d
      → Leaves P (lift o d w)
  Leaves-lift P (ok a) d w p = p
  Leaves-lift P fault d w p = tt
  Leaves-lift P pending d w p = tt

  pub lift-Keeps : {A : Type 0} {P : DataDump → Type 0} (o : Outcome A) → Keeps P (lift o)
  lift-Keeps {P = P} o = record { takes = Leaves-lift P o }

  pub if-Takes :
      {A : Type 0} {P Q : DataDump → Type 0} (b : Bool) {m k : M W A}
      → Takes P Q m
      → Takes P Q k
      → Takes P Q (if b then m else k)
  if-Takes true hm hk = hm
  if-Takes false hm hk = hk

  -- In the branch of a test the test's result is known.
  pub tested-Takes :
      {A : Type 0} {P Q : DataDump → Type 0} (b : Bool) {m k : M W A}
      → (b ≡ true → Takes P Q m)
      → (b ≡ false → Takes P Q k)
      → Takes P Q (if b then m else k)
  tested-Takes true hm hk = hm refl
  tested-Takes false hm hk = hk refl

  pub option-Takes :
      {X A : Type 0} {P Q : DataDump → Type 0} (o : Option X) {m : M W A} {f : X → M W A}
      → Takes P Q m
      → ((x : X) → o ≡ some x → Takes P Q (f x))
      → Takes P Q (elim o [ none ↦ m | some x ↦ f x ])
  option-Takes none hm hf = hm
  option-Takes (some x) hm hf = hf x refl

  pub by_bit-Takes :
      (b : ContinueBit) {A : Type 0} {m k : M W A} {P Q : DataDump → Type 0}
      → Takes P Q m
      → Takes P Q k
      → Takes P Q
          (elim b [ ContinueBit.terminate_transfer ↦ m | ContinueBit.continue_transfer ↦ k ])
  by_bit-Takes ContinueBit.terminate_transfer hm hk = hm
  by_bit-Takes ContinueBit.continue_transfer hm hk = hk

  pub poll-Keeps :
      {S : Type 0} {P : DataDump → Type 0} {body : S → M W S} {stop : M W Bool} (rounds : ℕ)
      (again : S → Bool)
      → ((s : S) → Keeps P (body s))
      → Keeps P stop
      → (s : S) → Keeps P (poll rounds body again stop s)
  unfolding poll
  poll-Keeps zero again hb hs s = record { takes = λ d w p. tt }
  poll-Keeps (suc rounds) again hb hs s = bind-Takes (hb s) λ s'.
      if-Takes (again s')
        (bind-Takes hs λ stopped. if-Takes stopped pure-Keeps (poll-Keeps rounds again hb hs s'))
        pure-Keeps
