-- ===== src/Packet/Words.antt =====
-- The field conversions of dataDump/DDPacket.cpp as arithmetic on little-endian bytes.
use data_dump_protocol.Base.{
  ℕ, ◌+◌, ◌*◌, ◌/◌, ◌%◌, ◌^◌, ◌≤◌, ◌<◌, bit_and, bit_or, ◌≡◌, refl, sym, ap, ◌∙◌, List, ◌++◌, true,
  ok, arith, length, length-append, take-append, drop-append, drop-drop, leb, le→leb, drop, ◌≢◌,
  ◌∷◌, get_or, drop-cons, length-drop,
}
use native.Mathlib.Nat.{mod-eq_of_lt}
use data_dump_protocol.Base.Bits.{bit_and_field, bit_or_field}
use data_dump_protocol.Packet.Types.{MsgType, code, msg_type_of, u8}
use data_dump_protocol.Packet.Header.{store_msg_type}
use data_dump_protocol.Packet.Memory.{Memory, load_bytes, store_bytes}

-- Byte `k` of a word.
abbrev pub byte : ℕ → ℕ → ℕ
byte k v = v / 2 ^ (k * 8) % 256

-- What the writers store: the mask picks one byte of the word.
pub byte_stored : (k x : ℕ) → bit_and x (255 * 2 ^ (k * 8)) / 2 ^ (k * 8) % 2 ^ 8 ≡ byte k x
byte_stored k x = omega (arith, bit_and_field (k * 8) 8 x)

-- What the readers assemble from the bytes of a value that fits the word.
abbrev pub assemble : ℕ → ℕ → ℕ → ℕ → ℕ
assemble w k ret b = bit_or ret (b * 2 ^ (k * 8) % 2 ^ 32) % 2 ^ w

assemble_field :
    (w k ret b : ℕ)
    → ret < 2 ^ (k * 8)
    → b * 2 ^ (k * 8) < 2 ^ 32
    → ret + b * 2 ^ (k * 8) < 2 ^ w
    → assemble w k ret b ≡ ret + b * 2 ^ (k * 8)
assemble_field w k ret b low shifted fits =
    rw (mod-eq_of_lt shifted, bit_or_field (k * 8) b ret low, mod-eq_of_lt fits)

pub byte_read : (x : ℕ) → x < 2 ^ 8 → assemble 8 0 0 (byte 0 x) ≡ x
byte_read x h =
    omega (arith, assemble_field 8 0 0 (byte 0 x) (omega arith) (omega arith) (omega arith))

pub two_bytes_read :
    (x : ℕ) → x < 2 ^ 16 → assemble 16 1 (assemble 16 0 0 (byte 0 x)) (byte 1 x) ≡ x
two_bytes_read x h = rw low (
    omega
      (arith, assemble_field 16 1 (byte 0 x) (byte 1 x) (omega arith) (omega arith) (omega arith)))
  where
    low : assemble 16 0 0 (byte 0 x) ≡ byte 0 x
    low = omega (arith, assemble_field 16 0 0 (byte 0 x) (omega arith) (omega arith) (omega arith))

pub four_bytes_read :
    (x : ℕ)
    → x < 2 ^ 32
    → assemble 32 3
        (assemble 32 2 (assemble 32 1 (assemble 32 0 0 (byte 0 x)) (byte 1 x)) (byte 2 x))
        (byte 3 x)
      ≡ x
four_bytes_read x h =
    rw (first, second, third)
      (omega (arith, next 3 (x % 2 ^ 24) (omega arith) (omega arith) (omega arith)))
  where
    next :
        (k ret : ℕ)
        → ret < 2 ^ (k * 8)
        → byte k x * 2 ^ (k * 8) < 2 ^ 32
        → ret + byte k x * 2 ^ (k * 8) < 2 ^ 32
        → assemble 32 k ret (byte k x) ≡ ret + byte k x * 2 ^ (k * 8)
    next k ret = assemble_field 32 k ret (byte k x)

    first : assemble 32 0 0 (byte 0 x) ≡ x % 2 ^ 8
    first = omega (arith, next 0 0 (omega arith) (omega arith) (omega arith))

    second : assemble 32 1 (x % 2 ^ 8) (byte 1 x) ≡ x % 2 ^ 16
    second = omega (arith, next 1 (x % 2 ^ 8) (omega arith) (omega arith) (omega arith))

    third : assemble 32 2 (x % 2 ^ 16) (byte 2 x) ≡ x % 2 ^ 24
    third = omega (arith, next 2 (x % 2 ^ 16) (omega arith) (omega arith) (omega arith))

pub type_read : (t : MsgType) → msg_type_of (code t) ≡ t
type_read MsgType.unassigned = refl
type_read MsgType.request = refl
type_read MsgType.response = refl
type_read MsgType.initiate_block_transfer = refl
type_read MsgType.block_transfer = refl
type_read MsgType.block_ack = refl
type_read MsgType.block_acknot = refl

pub u8_lem : (x : ℕ) → x < 256 → u8 x ≡ x
u8_lem x h = omega arith

-- `memcpy` at the seam between what was passed over and what follows.
pub load_bytes_seam :
    (k n : ℕ) (front bytes rest : List ℕ)
    → length front ≡ k
    → length bytes ≡ n
    → load_bytes (front ++ (bytes ++ rest)) k n ≡ ok bytes
load_bytes_seam k n front bytes rest hf hb =
    rw (fits, drop-append k front (bytes ++ rest) hf, take-append n bytes rest hb) refl
  where
    fits : leb (k + n) (length (front ++ (bytes ++ rest))) ≡ true
    fits = le→leb _ _ (omega (arith, length-append front (bytes ++ rest), length-append bytes rest))

pub store_bytes_seam :
    (k n : ℕ) (front bytes rest : List ℕ)
    → length front ≡ k
    → length bytes ≡ n
    → n ≤ length rest
    → store_bytes (front ++ rest) k bytes ≡ ok (front ++ (bytes ++ drop n rest))
store_bytes_seam k n front bytes rest hf hb room =
    rw (fits, take-append k front rest hf, hb, seam) refl
  where
    fits : leb (k + length bytes) (length (front ++ rest)) ≡ true
    fits = le→leb _ _ (omega (arith, length-append front rest))

    seam : drop (k + n) (front ++ rest) ≡ drop n rest
    seam =
        sym (drop-drop k n (k + n) (front ++ rest) refl) ∙ ap (drop n) (drop-append k front rest hf)

-- The type byte on the wire: BLOCK_ACKNOT leaves the byte that was there.
abbrev pub type_byte : ℕ → MsgType → ℕ
type_byte old MsgType.block_acknot = old
type_byte old t = code t

pub type_stored :
    (t : MsgType) (old : ℕ) (mem : Memory)
    → store_msg_type (old ∷ mem) 0 t ≡ ok (type_byte old t ∷ mem)
type_stored MsgType.block_acknot old mem = refl
type_stored MsgType.unassigned old mem = refl
type_stored MsgType.request old mem = refl
type_stored MsgType.response old mem = refl
type_stored MsgType.initiate_block_transfer old mem = refl
type_stored MsgType.block_transfer old mem = refl
type_stored MsgType.block_ack old mem = refl

pub type_byte-code : (t : MsgType) (old : ℕ) → t ≢ MsgType.block_acknot → type_byte old t ≡ code t
type_byte-code MsgType.block_acknot old h = absurd (h refl)
type_byte-code MsgType.unassigned old h = refl
type_byte-code MsgType.request old h = refl
type_byte-code MsgType.response old h = refl
type_byte-code MsgType.initiate_block_transfer old h = refl
type_byte-code MsgType.block_transfer old h = refl
type_byte-code MsgType.block_ack old h = refl

-- An array with its first cells written out.
pub five_cells : (m : Memory) → 5 ≤ length m → (a b c d e : ℕ) × (m ≡ a ∷ b ∷ c ∷ d ∷ e ∷ drop 5 m)
five_cells m h = (
  get_or m 0 0,
  get_or m 1 0,
  get_or m 2 0,
  get_or m 3 0,
  get_or m 4 0,
  drop-cons 0 0 m (omega arith)
      ∙ ap (◌∷◌ (get_or m 0 0)) (
          drop-cons 1 0 m (omega arith)
          ∙ ap (◌∷◌ (get_or m 1 0)) (
              drop-cons 2 0 m (omega arith)
              ∙ ap (◌∷◌ (get_or m 2 0)) (
                  drop-cons 3 0 m (omega arith)
                  ∙ ap (◌∷◌ (get_or m 3 0)) (drop-cons 4 0 m (omega arith))))),
)

pub eleven_cells :
    (m : Memory)
    → 11 ≤ length m
    → (a b c d e f g h i j k : ℕ) × (m ≡ a ∷ b ∷ c ∷ d ∷ e ∷ f ∷ g ∷ h ∷ i ∷ j ∷ k ∷ drop 11 m)
eleven_cells m long =
    let (a, b, c, d, e, first) = five_cells m (omega arith) in
    let (f, g, h, i, j, second) = five_cells (drop 5 m) (omega (arith, length-drop 5 m)) in
    let last : drop 10 m ≡ get_or m 10 0 ∷ drop 11 m = drop-cons 10 0 m (omega arith) in
    (
      a,
      b,
      c,
      d,
      e,
      f,
      g,
      h,
      i,
      j,
      get_or m 10 0,
      first
          ∙ ap (λ t. a ∷ b ∷ c ∷ d ∷ e ∷ t)
              (second ∙ ap (λ t. f ∷ g ∷ h ∷ i ∷ j ∷ t) (drop-drop 5 5 10 m refl ∙ last)),
    )
