-- ===== src/Examples/Wire.antt =====
-- The theorems on packets and their bytes, at the sample packets.
use data_dump_protocol.Base.{◌≡◌, refl, ap, [], ◌∷◌, some, true, false, ok, fault, arith}
use data_dump_protocol.Packet.Types.{MsgType, code}
use data_dump_protocol.Packet.Memory.{Memory}
use data_dump_protocol.Packet.BlockHeader.{get_frame_number, set_frame_number, empty_block_header}
use data_dump_protocol.Packet.Block
use data_dump_protocol.Packet.Block.{empty_block}
use data_dump_protocol.Packet.Transaction
use data_dump_protocol.Packet.Transaction.{TransactionPacket, empty_packet}
use data_dump_protocol.Packet.Metadata.{set_frame_number_twice}
use data_dump_protocol.Packet.WireBlock.{deserialize-serialize}
use data_dump_protocol.Packet.WireTransaction.{
  with_header, serialize_loses_payload, deserialize-header, IsHeader,
}
use data_dump_protocol.DataDump.Accept.{accept_transaction, accept_block}
use data_dump_protocol.DataDump.Checks.{accept_transaction_lem, accept_block_overrun}
use data_dump_protocol.Examples.Samples.{
  zeros, two_bytes, block, block-IsBlock, request_header, request-IsHeader,
}

deserialize-serialize_example :
    (mem' : Memory) × (Block.serialize block zeros (some 0) 12
      ≡ ok (Block.get_packet_size block, tt, mem'))
    × (Block.deserialize empty_block mem' (some 0) 12 ≡ ok (true, block))
deserialize-serialize_example =
    deserialize-serialize block two_bytes block-IsBlock empty_block zeros 12 12
      (λ e. omega (arith, ap code e)) (unfold Block.get_packet_size in omega arith)
      (unfold Block.get_packet_size in omega arith)

deserialize-header_example :
    Transaction.deserialize empty_packet (with_header request_header zeros) (some 0) 12
    ≡ ok (false, record empty_packet { header = request_header })
deserialize-header_example =
    deserialize-header empty_packet request_header zeros 12 request-IsHeader
      (λ e. omega (arith, ap code e)) refl

-- A packet with one byte of data, 77.
abbrev loaded : TransactionPacket
loaded = record { header = record request_header { data_buffer_size = 1 }; buffer = some (77 ∷ []) }

loaded-IsHeader : IsHeader loaded.header
loaded-IsHeader = record {
  id_fits = omega arith;
  blocks_fit = omega arith;
  packetlen_fits = omega arith;
  timeout_fits = omega arith;
  crc_fits = omega arith;
  size_fits = omega arith;
}

serialize_loses_payload_example :
    Transaction.serialize loaded zeros (some 0) 12
    ≡ ok (
      Transaction.get_packet_size loaded,
      record loaded { buffer = some (0 ∷ []) },
      with_header loaded.header zeros,
    )
serialize_loses_payload_example =
    serialize_loses_payload loaded zeros 12 loaded-IsHeader (omega arith)
      (unfold Transaction.get_packet_size in omega arith)
      (unfold Transaction.get_packet_size in omega arith)

accept_transaction_lem_example :
    accept_transaction empty_packet MsgType.request 11 (with_header request_header zeros)
    ≡ ok (11, record empty_packet { header = request_header })
accept_transaction_lem_example =
    accept_transaction_lem empty_packet request_header MsgType.request zeros 11 request-IsHeader
      (λ e. omega (arith, ap code e)) refl refl (omega arith)

accept_block_overrun_example :
    accept_block empty_block MsgType.block_transfer 7 (4 ∷ 129 ∷ 0 ∷ 0 ∷ 200 ∷ two_bytes) ≡ fault
accept_block_overrun_example =
    accept_block_overrun empty_block MsgType.block_transfer 129 0 0 200 7 two_bytes (omega arith)
      (omega arith) (omega arith)

set_frame_number_twice_example :
    get_frame_number (set_frame_number (set_frame_number empty_block_header 1) 2) ≡ 3
set_frame_number_twice_example =
    set_frame_number_twice empty_block_header 1 1 1 refl (omega arith) (omega arith)
