-- ===== src/Packet/Block.antt =====
-- `blockTxRxPacket` of dataDump/DDPacket.h and dataDump/DDPacket.cpp.
use data_dump_protocol.Base.{
  ℕ, ◌+◌, List, Option, none, some, Bool, true, false, ltb, if◌then◌else◌, Outcome, ok, fault,
  ◌>>=◌,
}
use data_dump_protocol.Packet.Types.{
  MsgType, ContinueBit, u8, sizeof_msg_type, sizeof_block_metadata, sizeof_crc,
  sizeof_data_buffer_size,
}
use data_dump_protocol.Packet.Memory.{Memory, Pointer, load_bytes, store_bytes, or_zero}
use data_dump_protocol.Packet.BlockHeader
use data_dump_protocol.Packet.BlockHeader.{
  BlockHeader, empty_block_header, make_block_header, set_msg_type, set_frame_number,
  set_continue_bit, set_crc, set_data_buffer_size,
}

pub record BlockTxRxPacket : Type 0 where
  pub header : BlockHeader
  pub buffer : Option (List ℕ)

abbrev pub empty_block : BlockTxRxPacket
empty_block = record { header = empty_block_header; buffer = none }

-- The constructor with values copies `size` bytes of the array it is given, if there is one.
unfoldable pub make_block :
    MsgType → ℕ → ContinueBit → ℕ → Option Memory → ℕ → Outcome BlockTxRxPacket
make_block msg_type frame_number continue_bit crc none size = ok (record {
  header = make_block_header msg_type frame_number continue_bit crc size;
  buffer = none;
})
make_block msg_type frame_number continue_bit crc (some given) size =
    let header = make_block_header msg_type frame_number continue_bit crc size in
    if ltb 0 size
    then (load_bytes given 0 size >>= λ bytes. ok (record { header = header; buffer = some bytes }))
    else ok (record { header = header; buffer = none })

unfoldable pub set_buffer :
    BlockTxRxPacket → Memory → Pointer → ℕ → Outcome (Bool × BlockTxRxPacket)
set_buffer p mem none len = ok (false, p)
set_buffer p mem (some at_index) len =
    if ltb 0 len
    then (load_bytes mem at_index len >>= λ bytes.
        ok (true, record { header = set_data_buffer_size p.header len; buffer = some bytes }))
    else ok (false, p)

unfoldable pub set_header : BlockTxRxPacket → MsgType → ℕ → ContinueBit → ℕ → ℕ → BlockTxRxPacket
set_header p msg_type frame_number continue_bit crc size =
    let h = set_msg_type p.header msg_type in
    let h = set_frame_number h frame_number in
    let h = set_continue_bit h continue_bit in
    let h = set_crc h crc in record p { header = set_data_buffer_size h size }

-- `getHeaderSize`
abbrev pub header_size : ℕ
header_size = sizeof_msg_type + sizeof_block_metadata + sizeof_crc + sizeof_data_buffer_size

unfoldable pub get_packet_size : BlockTxRxPacket → ℕ
get_packet_size p = header_size + p.header.data_buffer_size

abbrev pub generate_crc : BlockTxRxPacket → Bool × BlockTxRxPacket
generate_crc p = (true, p)

unfoldable pub deserialize :
    BlockTxRxPacket → Memory → Pointer → ℕ → Outcome (Bool × BlockTxRxPacket)
unfolding BlockHeader.bytes_to_msg_type BlockHeader.bytes_to_block_metadata BlockHeader.bytes_to_crc
    BlockHeader.bytes_to_data_buffer_size set_buffer
deserialize p mem none len = ok (false, p)
deserialize p mem (some buffer) len = do
  (_, h) ← BlockHeader.bytes_to_msg_type p.header mem (some buffer) sizeof_msg_type
  let buffer = buffer + sizeof_msg_type
  (_, h) ← BlockHeader.bytes_to_block_metadata h mem (some buffer) sizeof_block_metadata
  let buffer = buffer + sizeof_block_metadata
  (_, h) ← BlockHeader.bytes_to_crc h mem (some buffer) sizeof_crc
  let buffer = buffer + sizeof_crc
  (_, h) ← BlockHeader.bytes_to_data_buffer_size h mem (some buffer) sizeof_data_buffer_size
  let buffer = buffer + sizeof_data_buffer_size
  set_buffer (record p { header = h }) mem (some buffer) (u8 h.data_buffer_size)

-- `memcpy(buffer,this->buffer,bufferSize)`: out of NULL, or past the packet's own array, it faults.
abbrev pub copy_out : Option (List ℕ) → ℕ → Memory → ℕ → Outcome Memory
copy_out none size mem at_index = fault
copy_out (some own) size mem at_index =
    load_bytes own 0 size >>= λ bytes. store_bytes mem at_index bytes

unfoldable pub serialize_buffer : BlockTxRxPacket → Memory → ℕ → ℕ → Outcome (ℕ × Unit {0} × Memory)
serialize_buffer p mem buffer payload_size =
    if ltb 0 p.header.data_buffer_size
    then (copy_out p.buffer p.header.data_buffer_size mem buffer >>= λ mem.
        ok (payload_size, tt, mem))
    else ok (0, tt, mem)

-- `serialize`: the bytes written and the array after it; the packet does not change.
unfoldable pub serialize : BlockTxRxPacket → Memory → Pointer → ℕ → Outcome (ℕ × Unit {0} × Memory)
unfolding get_packet_size serialize_buffer BlockHeader.msg_type_to_bytes
    BlockHeader.block_metadata_to_bytes BlockHeader.crc_to_bytes
    BlockHeader.data_buffer_size_to_bytes
serialize p mem none len = ok (0, tt, mem)
serialize p mem (some buffer) len =
    if ltb len (get_packet_size p)
    then ok (0, tt, mem)
    else BlockHeader.msg_type_to_bytes p.header mem (some buffer) sizeof_msg_type >>= λ r.
        or_zero tt r λ mem.
          let buffer = buffer + sizeof_msg_type in
          BlockHeader.block_metadata_to_bytes p.header mem (some buffer) sizeof_block_metadata
          >>= λ r. or_zero tt r λ mem.
            let buffer = buffer + sizeof_block_metadata in
            BlockHeader.crc_to_bytes p.header mem (some buffer) sizeof_crc >>= λ r.
            or_zero tt r λ mem.
              let buffer = buffer + sizeof_crc in
              BlockHeader.data_buffer_size_to_bytes p.header mem (some buffer)
                sizeof_data_buffer_size
              >>= λ r. or_zero tt r λ mem.
                let buffer = buffer + sizeof_data_buffer_size in
                serialize_buffer p mem buffer (get_packet_size p)
