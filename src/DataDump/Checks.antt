-- ===== src/DataDump/Checks.antt =====
-- What both `receive` of dataDump/DDBase.cpp let through.
use data_dump_protocol.Base.{
  Bool, ◌==◌, if◌then◌else◌, gt→leb, zero→==, ℕ, ◌+◌, ◌<◌, ◌≡◌, ◌≢◌, refl, ap, ◌∙◌, List, ◌∷◌, ◌++◌,
  some, length, get_or, lt→ltb, ==_self, true, false, ok, fault, arith,
}
use data_dump_protocol.Packet.Types.{MsgType, code}
use data_dump_protocol.Packet.Memory.{Memory, get_word}
use data_dump_protocol.Packet.Words.{assemble, u8_lem, byte_read, byte, type_byte-code}
use data_dump_protocol.Packet.Header.{TranscationHeader}
use data_dump_protocol.Packet.BlockHeader.{BlockHeader}
use data_dump_protocol.Packet.Block
use data_dump_protocol.Packet.Block.{BlockTxRxPacket, header_size}
use data_dump_protocol.Packet.Transaction.{TransactionPacket}
use data_dump_protocol.Packet.WireBlock.{block_header_bytes, read_back}
use data_dump_protocol.Packet.WireTransaction.{IsHeader, with_header, deserialize-header}
use data_dump_protocol.DataDump.Accept.{accept_transaction, accept_block}

ok_if {ℓ} : {A : Type ℓ} (b : Bool) (x y : A) → (if b then ok x else ok y) ≡ ok (if b then x else y)
ok_if true x y = refl
ok_if false x y = refl

-- A header with the data size 0 and the check sum field 0 that is ever compared is accepted with the
-- settings that it was sent with if its type is the one waited for; else it counts as nothing and
-- the packet to be filled stays as it was. Its fields fit their types, its type is any but
-- BLOCK_ACKNOT, and some bytes have come.
pub accept_transaction_lem :
    (q : TransactionPacket) (h : TranscationHeader) (wanted : MsgType) (mem : Memory) (len : ℕ)
    → IsHeader h
    → h.msg_type ≢ MsgType.block_acknot
    → h.data_buffer_size ≡ 0
    → h.crc ≡ 0
    → 0 < len
    → accept_transaction q wanted len (with_header h mem)
      ≡ ok (if code h.msg_type == code wanted then (len, record q { header = h }) else (0, q))
unfolding accept_transaction
accept_transaction_lem q h wanted mem len v known nodata nocrc some_bytes =
    rw
      (
        lt→ltb 0 len some_bytes,
        deserialize-header q h mem len v known nodata,
        zero→== h.crc nocrc,
        type_byte-code h.msg_type (get_or mem 0 0) known,
      )
      (ok_if (code h.msg_type == code wanted) (len, record q { header = h }) (0, q))

-- The bytes of a block packet, whatever its data, with the check sum field 0 that is ever compared,
-- are accepted with header and data if the type is the one waited for; else they count as nothing
-- and the packet to be filled stays as it was. The packet is well formed, of any type but
-- BLOCK_ACKNOT, and some bytes have come.
pub accept_block_lem :
    (q : BlockTxRxPacket) (h : BlockHeader) (payload rest : List ℕ) (wanted : MsgType) (old len : ℕ)
    → h.msg_type ≢ MsgType.block_acknot
    → h.block_metadata < 256
    → h.crc ≡ 0
    → h.data_buffer_size < 256
    → 0 < h.data_buffer_size
    → length payload ≡ h.data_buffer_size
    → 0 < len
    → accept_block q wanted len (block_header_bytes old h ++ (payload ++ rest))
      ≡ ok (
          if code h.msg_type == code wanted
          then (len, record { header = h; buffer = some payload })
          else (0, q))
unfolding accept_block
accept_block_lem q h payload rest wanted old len known hm nocrc hs pos sized some_bytes =
    rw
      (
        lt→ltb 0 len some_bytes,
        read_back q h payload rest old len known hm (omega arith) hs pos sized,
        zero→== h.crc nocrc,
        type_byte-code h.msg_type old known,
      )
      (ok_if (code h.msg_type == code wanted) (len, record { header = h; buffer = some payload })
        (0, q))

-- A frame of the type waited for, whose size byte counts more data than the buffer holds behind the
-- header, makes `receive` read out of bounds, however many bytes have come.
pub accept_block_overrun :
    (q : BlockTxRxPacket) (wanted : MsgType) (a b c size len : ℕ) (rest : List ℕ)
    → 0 < len
    → size < 256
    → length rest < size
    → accept_block q wanted len (code wanted ∷ a ∷ b ∷ c ∷ size ∷ rest) ≡ fault
unfolding accept_block Block.deserialize get_word
accept_block_overrun q wanted a b c size len rest some_bytes fits short = rw (
  lt→ltb 0 len some_bytes,
  ==_self (code wanted),
  size_read,
  u8_lem size fits,
  lt→ltb 0 size (omega arith),
  gt→leb (header_size + size) (length (code wanted ∷ a ∷ b ∷ c ∷ size ∷ rest)) (omega arith),
)
  where
    size_read : assemble 8 0 0 size ≡ size
    size_read = ap (assemble 8 0 0) same ∙ byte_read size fits
      where
        same : size ≡ byte 0 size
        same = omega arith
