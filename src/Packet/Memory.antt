-- ===== src/Packet/Memory.antt =====
-- Byte arrays, pointers into them, and the copying loops that every field conversion of
-- dataDump/DDPacket.cpp repeats. An access outside the array is a `fault`.
use data_dump_protocol.Base.{
  ℕ, zero, suc, ◌+◌, ◌*◌, ◌/◌, ◌%◌, ◌^◌, bit_and, bit_or, List, [], ◌∷◌, ◌++◌, Option, none, some,
  Bool, true, false, leb, if◌then◌else◌, get_elem?, take, drop, length, Outcome, ok, fault, ◌>>=◌,
  of_option,
}

abbrev pub Memory : Type 0
Memory = List ℕ

-- NULL, or an index into the array.
abbrev pub Pointer : Type 0
Pointer = Option ℕ

abbrev pub load : Memory → ℕ → Outcome ℕ
load mem i = of_option (get_elem? mem i)

abbrev pub store : Memory → ℕ → ℕ → Outcome Memory
store [] i v = fault
store (x ∷ mem) zero v = ok (v ∷ mem)
store (x ∷ mem) (suc i) v = store mem i v >>= λ rest. ok (x ∷ rest)

-- The two sides of a `memcpy`.
abbrev pub load_bytes : Memory → ℕ → ℕ → Outcome (List ℕ)
load_bytes mem at_index n =
    if leb (at_index + n) (length mem) then ok (take n (drop at_index mem)) else fault

abbrev pub store_bytes : Memory → ℕ → List ℕ → Outcome Memory
store_bytes mem at_index bytes =
    if leb (at_index + length bytes) (length mem)
    then ok (take at_index mem ++ (bytes ++ drop (at_index + length bytes) mem))
    else fault

-- `for(i=0;i<sizeof(T);i++){ T byteCopier=ptr[i]; ret |= byteCopier<<(i*8); }` with `w` the bits of
-- `T`. The shift is done in 32 bits, the result is cut to `T`.
abbrev pub get_loop : ℕ → ℕ → ℕ → ℕ → Memory → ℕ → Outcome ℕ
get_loop w zero i ret mem at_index = ok ret
get_loop w (suc left) i ret mem at_index = do
  byte_copier ← load mem (at_index + i)
  get_loop w left (i + 1) (bit_or ret (byte_copier * 2 ^ (i * 8) % 2 ^ 32) % 2 ^ w) mem at_index

unfoldable pub get_word : ℕ → ℕ → Memory → ℕ → Outcome ℕ
get_word w size mem at_index = get_loop w size 0 0 mem at_index

-- `for(…){ T byteCopier=255; byteCopier=byteCopier<<(i*8); buf[i]=(v & byteCopier)>>(i*8); }`
abbrev pub put_loop : ℕ → ℕ → ℕ → ℕ → Memory → ℕ → Outcome Memory
put_loop w zero i v mem at_index = ok mem
put_loop w (suc left) i v mem at_index = do
  mem' ← store mem (at_index + i) (bit_and v (255 * 2 ^ (i * 8) % 2 ^ w) / 2 ^ (i * 8) % 2 ^ 8)
  put_loop w left (i + 1) v mem' at_index

unfoldable pub put_word : ℕ → ℕ → ℕ → Memory → ℕ → Outcome Memory
put_word w size v mem at_index = put_loop w size 0 v mem at_index

-- The guard `len>=sizeof(T) && ptr!=NULL` of a field's reader: the header is changed under it alone.
abbrev pub reading {ℓ} : {H : Type ℓ} → ℕ → Pointer → ℕ → H → (ℕ → Outcome H) → Outcome (Bool × H)
reading size none len header body = ok (false, header)
reading size (some at_index) len header body =
    if leb size len then (body at_index >>= λ changed. ok (true, changed)) else ok (false, header)

-- The same guard of a field's writer.
abbrev pub writing : ℕ → Memory → Pointer → ℕ → (ℕ → Outcome Memory) → Outcome (Bool × Memory)
writing size mem none len body = ok (false, mem)
writing size mem (some at_index) len body =
    if leb size len then (body at_index >>= λ changed. ok (true, changed)) else ok (false, mem)

-- `if(convert(...)==false) return 0;` between two conversions.
abbrev pub or_zero {ℓ} :
    {A : Type ℓ}
    → A
    → Bool × Memory
    → (Memory → Outcome (ℕ × A × Memory))
    → Outcome (ℕ × A × Memory)
or_zero a (true, mem) next = next mem
or_zero a (false, mem) next = ok (0, a, mem)
