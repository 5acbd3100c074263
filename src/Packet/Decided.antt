-- ===== src/Packet/Decided.antt =====
-- The conversions of dataDump/DDPacket.cpp end: they return, or access something out of bounds. No
-- loop of theirs goes on.
use data_dump_protocol.Base.{
  ℕ, zero, suc, ◌+◌, List, [], ◌∷◌, Option, none, some, Bool, true, false, leb, if◌then◌else◌,
  Outcome, ok, fault, pending, ◌>>=◌, of_option, get_elem?, length,
}
use data_dump_protocol.Packet.Types.{MsgType}
use data_dump_protocol.Packet.Memory.{
  Memory, Pointer, store, load_bytes, store_bytes, get_loop, get_word, put_loop, put_word, reading,
  writing, or_zero,
}
use data_dump_protocol.Packet.Header.{store_msg_type}

abbrev pub IsOver {ℓ} : {A : Type ℓ} → Outcome A → Type 0
IsOver (ok a) = Unit {0}
IsOver fault = Unit {0}
IsOver pending = ⊥

pub record Decided {A : Type 0} (o : Outcome A) : Type 0 where
  pub over : IsOver o

pub ok-Decided : {A : Type 0} {a : A} → Decided (ok a)
ok-Decided = record { over = tt }

pub bind-Decided :
    {A B : Type 0} {o : Outcome A} {f : A → Outcome B}
    → Decided o
    → ((a : A) → Decided (f a))
    → Decided (o >>= f)
bind-Decided {o = ok a} h k = k a
bind-Decided {o = fault} h k = record { over = tt }
bind-Decided {o = pending} h k = absurd h.over

pub if-Decided :
    {A : Type 0} (b : Bool) {o o' : Outcome A}
    → Decided o
    → Decided o'
    → Decided (if b then o else o')
if-Decided true h h' = h
if-Decided false h h' = h'

pub of_option-Decided : {A : Type 0} (o : Option A) → Decided (of_option o)
of_option-Decided none = record { over = tt }
of_option-Decided (some a) = record { over = tt }

store-Decided : (mem : Memory) (i v : ℕ) → Decided (store mem i v)
store-Decided [] i v = record { over = tt }
store-Decided (x ∷ mem) zero v = record { over = tt }
store-Decided (x ∷ mem) (suc i) v = bind-Decided (store-Decided mem i v) (λ rest. ok-Decided)

pub load_bytes-Decided : (mem : Memory) (i n : ℕ) → Decided (load_bytes mem i n)
load_bytes-Decided mem i n = if-Decided (leb (i + n) (length mem)) ok-Decided (record { over = tt })

pub store_bytes-Decided :
    (mem : Memory) (i : ℕ) (bytes : List ℕ) → Decided (store_bytes mem i bytes)
store_bytes-Decided mem i bytes =
    if-Decided (leb (i + length bytes) (length mem)) ok-Decided (record { over = tt })

get_loop-Decided : (w left i ret : ℕ) (mem : Memory) (j : ℕ) → Decided (get_loop w left i ret mem j)
get_loop-Decided w zero i ret mem j = ok-Decided
get_loop-Decided w (suc left) i ret mem j =
    bind-Decided (of_option-Decided (get_elem? mem (j + i)))
      (λ b. get_loop-Decided w left (i + 1) _ mem j)

pub get_word-Decided : (w size : ℕ) (mem : Memory) (j : ℕ) → Decided (get_word w size mem j)
unfolding get_word
get_word-Decided w size mem j = get_loop-Decided w size 0 0 mem j

put_loop-Decided : (w left i v : ℕ) (mem : Memory) (j : ℕ) → Decided (put_loop w left i v mem j)
put_loop-Decided w zero i v mem j = ok-Decided
put_loop-Decided w (suc left) i v mem j =
    bind-Decided (store-Decided mem (j + i) _) (λ mem'. put_loop-Decided w left (i + 1) v mem' j)

pub put_word-Decided : (w size v : ℕ) (mem : Memory) (j : ℕ) → Decided (put_word w size v mem j)
unfolding put_word
put_word-Decided w size v mem j = put_loop-Decided w size 0 v mem j

pub store_msg_type-Decided : (mem : Memory) (i : ℕ) (t : MsgType) → Decided (store_msg_type mem i t)
store_msg_type-Decided mem i MsgType.block_acknot = ok-Decided
store_msg_type-Decided mem i MsgType.unassigned = store-Decided mem i _
store_msg_type-Decided mem i MsgType.request = store-Decided mem i _
store_msg_type-Decided mem i MsgType.response = store-Decided mem i _
store_msg_type-Decided mem i MsgType.initiate_block_transfer = store-Decided mem i _
store_msg_type-Decided mem i MsgType.block_transfer = store-Decided mem i _
store_msg_type-Decided mem i MsgType.block_ack = store-Decided mem i _

pub reading-Decided :
    {H : Type 0} (size : ℕ) (ptr : Pointer) (len : ℕ) (h : H) {body : ℕ → Outcome H}
    → ((i : ℕ) → Decided (body i))
    → Decided (reading size ptr len h body)
reading-Decided size none len h k = ok-Decided
reading-Decided size (some i) len h k =
    if-Decided (leb size len) (bind-Decided (k i) (λ changed. ok-Decided)) ok-Decided

pub writing-Decided :
    (size : ℕ) (mem : Memory) (ptr : Pointer) (len : ℕ) {body : ℕ → Outcome Memory}
    → ((i : ℕ) → Decided (body i))
    → Decided (writing size mem ptr len body)
writing-Decided size mem none len k = ok-Decided
writing-Decided size mem (some i) len k =
    if-Decided (leb size len) (bind-Decided (k i) (λ changed. ok-Decided)) ok-Decided

pub or_zero-Decided :
    {A : Type 0} (a : A) (r : Bool × Memory) {next : Memory → Outcome (ℕ × A × Memory)}
    → ((mem : Memory) → Decided (next mem))
    → Decided (or_zero a r next)
or_zero-Decided a r k = elim r.0 as (λ b. Decided (or_zero a (b, r.1) _)) [
  | true ↦ k r.1
  | false ↦ ok-Decided
]
