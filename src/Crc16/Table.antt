-- ===== src/Crc16/Table.antt =====
-- The table of dataDump/crc16.cpp against the polynomial that its comment names.
use Prim.Native.Nat.{bit_xor}
use data_dump_protocol.Base.{
  ℕ, zero, suc, ◌+◌, ◌*◌, ◌%◌, ◌^◌, ◌<◌, ◌≡◌, refl, Bool, true, ◌&&◌, some, leb, ◌==◌,
  if◌then◌else◌, get_elem?, arith, List, [], ◌∷◌, length,
}
use data_dump_protocol.Crc16.{crc16tab}

-- One bit through the shift register of x^16 + x^12 + x^5 + 1.
shift_bit : ℕ → ℕ
shift_bit r = if leb (2 ^ 15) r then bit_xor (r * 2 % 2 ^ 16) 0x1021 else r * 2

shift_bits : ℕ → ℕ → ℕ
unfolding shift_bit
shift_bits zero r = r
shift_bits (suc n) r = shift_bits n (shift_bit r)

-- The check sum of one byte by polynomial division, bit for bit.
unfoldable pub crc_of_byte : ℕ → ℕ
unfolding shift_bits
crc_of_byte b = shift_bits 8 (b * 2 ^ 8)

-- A list holds the values of `f` from `i` on.
module _ (f : ℕ → ℕ) where
  agree_from : ℕ → List ℕ → Bool
  agree_from i [] = true
  agree_from i (x ∷ xs) = (x == f i) && agree_from (suc i) xs

  agree_from_sound :
      (xs : List ℕ) (i k b : ℕ)
      → agree_from i xs ≡ true
      → k < length xs
      → b ≡ i + k
      → get_elem? xs k ≡ some (f b)
  unfolding agree_from
  agree_from_sound [] i k b e h s = absurd (omega arith)
  agree_from_sound (x ∷ xs) i zero b e h s = ground arith
  agree_from_sound (x ∷ xs) i (suc k) b e h s =
      agree_from_sound xs (suc i) k b (ground arith) (omega arith) (omega arith)

table_agrees : agree_from crc_of_byte 0 crc16tab ≡ true
unfolding agree_from crc_of_byte
table_agrees = refl

-- Entry `b` of the table is the CRC-16/XMODEM check sum of the byte `b`.
pub crc16tab_lem : (b : ℕ) → b < 256 → get_elem? crc16tab b ≡ some (crc_of_byte b)
crc16tab_lem b h =
    agree_from_sound crc_of_byte crc16tab 0 b b table_agrees (omega (arith, table_length))
      (omega arith)
  where
    table_length : length crc16tab ≡ 256
    table_length = refl
