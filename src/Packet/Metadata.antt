-- ===== src/Packet/Metadata.antt =====
-- The metadata byte of `blockHeader` (dataDump/DDPacket.cpp): the continue bit on top, the frame
-- number in the seven bits below.
use data_dump_protocol.Base.{ℕ, ◌+◌, ◌*◌, ◌/◌, ◌%◌, ◌^◌, ◌≤◌, ◌<◌, ◌≡◌, bit_or, arith, ap, ◌∙◌}
use data_dump_protocol.Base.Bits.{bit_and_low, bit_or_field, field_bit_or, zero-bit_or}
use data_dump_protocol.Packet.Types.{ContinueBit, bit}
use data_dump_protocol.Packet.BlockHeader.{
  BlockHeader, get_continue_bit, set_continue_bit, get_frame_number, set_frame_number,
}

bit-le : (c : ContinueBit) → bit c ≤ 1
bit-le ContinueBit.terminate_transfer = omega arith
bit-le ContinueBit.continue_transfer = omega arith

metadata_after_continue :
    (h : BlockHeader) (c : ContinueBit)
    → (set_continue_bit h c).block_metadata ≡ h.block_metadata % 128 + bit c * 128
unfolding set_continue_bit
metadata_after_continue h c =
    rw (bit_and_low 7 h.block_metadata)
      (omega (arith, bit-le c, bit_or_field 7 (bit c) (h.block_metadata % 128) (omega arith)))

get_frame_number_lem : (h : BlockHeader) → get_frame_number h ≡ h.block_metadata % 128
unfolding get_frame_number
get_frame_number_lem h = bit_and_low 7 h.block_metadata

top_bit_read :
    (h : BlockHeader) (c : ContinueBit) (low : ℕ)
    → low < 128
    → h.block_metadata ≡ low + bit c * 128
    → get_continue_bit h ≡ c
unfolding get_continue_bit
top_bit_read h ContinueBit.terminate_transfer low fits e = ground arith
top_bit_read h ContinueBit.continue_transfer low fits e = ground arith

-- Setting the continue bit is read back and leaves the frame number alone.
pub get-set_continue_bit :
    (h : BlockHeader) (c : ContinueBit)
    → (get_continue_bit (set_continue_bit h c) ≡ c)
      × (get_frame_number (set_continue_bit h c) ≡ get_frame_number h)
get-set_continue_bit h c = (
  top_bit_read (set_continue_bit h c) c (h.block_metadata % 128) (omega arith)
      (metadata_after_continue h c),
  omega (
    arith,
    get_frame_number_lem (set_continue_bit h c),
    get_frame_number_lem h,
    metadata_after_continue h c,
  ),
)

metadata_after_frame :
    (h : BlockHeader) (n : ℕ)
    → h.block_metadata < 256
    → h.block_metadata % 128 ≡ 0
    → (set_frame_number h n).block_metadata ≡ h.block_metadata + n % 128
unfolding set_frame_number
metadata_after_frame h n fits clear = rw (bit_and_low 7 n) (omega (arith, joined))
  where
    joined : bit_or h.block_metadata (n % 128) ≡ h.block_metadata + n % 128
    joined =
        ap (λ (m : ℕ). bit_or m (n % 128)) split
        ∙ omega (arith, field_bit_or 7 (h.block_metadata / 128) (n % 128) (omega arith))
      where
        split : h.block_metadata ≡ h.block_metadata / 128 * 2 ^ 7
        split = omega arith

-- On a header whose metadata is a byte with no frame number yet, the number is read back modulo 128,
-- and the continue bit stays.
pub get-set_frame_number :
    (h : BlockHeader) (n : ℕ)
    → h.block_metadata < 256
    → get_frame_number h ≡ 0
    → (get_frame_number (set_frame_number h n) ≡ n % 128)
      × (get_continue_bit (set_frame_number h n) ≡ get_continue_bit h)
unfolding get_continue_bit
get-set_frame_number h n fits clear =
    let low = get_frame_number_lem h in
    let after = metadata_after_frame h n fits (omega arith) in
    (omega (arith, get_frame_number_lem (set_frame_number h n)), ground arith)

-- A second frame number is joined to the first by `|` and does not replace it: a first number below
-- `2 ^ k` and a second that is a multiple of it, both below 128, leave their sum.
pub set_frame_number_twice :
    (h : BlockHeader) (k a b : ℕ)
    → h.block_metadata ≡ 0
    → a < 2 ^ k
    → a + b * 2 ^ k < 128
    → get_frame_number (set_frame_number (set_frame_number h a) (b * 2 ^ k)) ≡ a + b * 2 ^ k
set_frame_number_twice h k a b clear low fits =
    rw (get_frame_number_lem (set_frame_number (set_frame_number h a) (b * 2 ^ k))) (
      unfold set_frame_number in
      rw (bit_and_low 7 a, bit_and_low 7 (b * 2 ^ k), clear, zero-bit_or (a % 128))
        (rw (inner, outer, bit_or_field k b a low) (omega arith)))
  where
    inner : a % 128 % 2 ^ 8 ≡ a
    inner = omega arith

    outer : b * 2 ^ k % 128 ≡ b * 2 ^ k
    outer = omega arith
