-- ===== src/Packet/Transaction.antt =====
-- `TransactionPacket` of dataDump/DDPacket.h and dataDump/DDPacket.cpp. `buffer` is the array that
-- the packet owns, or NULL. Allocation succeeds: a failing `new` throws and is not modelled.
use data_dump_protocol.Base.{
  ℕ, ◌+◌, List, Option, none, some, Bool, true, false, ltb, if◌then◌else◌, Outcome, ok, fault,
  ◌>>=◌,
}
use data_dump_protocol.Packet.Types.{
  MsgType, u8, sizeof_msg_type, sizeof_transaction_id, sizeof_blocks_per_transaction,
  sizeof_max_packet_len, sizeof_ack_timeout, sizeof_crc, sizeof_data_buffer_size,
}
use data_dump_protocol.Packet.Memory.{Memory, Pointer, load_bytes, or_zero}
use data_dump_protocol.Packet.Header
use data_dump_protocol.Packet.Header.{
  TranscationHeader, empty_header, make_header, set_ack_timeout, set_blocks_per_transaction,
  set_crc, set_max_packet_length, set_msg_type, set_data_buffer_size, set_transaction_id,
}

pub record TransactionPacket : Type 0 where
  pub header : TranscationHeader
  pub buffer : Option (List ℕ)

abbrev pub empty_packet : TransactionPacket
empty_packet = record { header = empty_header; buffer = none }

-- The constructor with values. `buffer==NULL && bufferSize>0` is the test before it copies from
-- `buffer`, so a copy is always made through NULL.
unfoldable pub make_packet :
    MsgType → ℕ → ℕ → ℕ → ℕ → ℕ → Option (List ℕ) → ℕ → Outcome TransactionPacket
make_packet msg_type transaction_id crc blocks max_size_of_block ack_timeout (some given) size =
    ok (record {
      header = make_header msg_type transaction_id crc size blocks max_size_of_block ack_timeout;
      buffer = none;
    })
make_packet msg_type transaction_id crc blocks max_size_of_block ack_timeout none size =
    if ltb 0 size
    then fault
    else ok (record {
      header = make_header msg_type transaction_id crc size blocks max_size_of_block ack_timeout;
      buffer = none;
    })

-- `setBuffer`: `length` is a `uint8_t`.
unfoldable pub set_buffer :
    TransactionPacket → Memory → Pointer → ℕ → Outcome (Bool × TransactionPacket)
set_buffer p mem none len = ok (false, p)
set_buffer p mem (some at_index) len =
    if ltb 0 len
    then (load_bytes mem at_index len >>= λ bytes.
        ok (true, record { header = set_data_buffer_size p.header len; buffer = some bytes }))
    else ok (false, p)

unfoldable pub set_header : TransactionPacket → MsgType → ℕ → ℕ → ℕ → ℕ → ℕ → ℕ → TransactionPacket
set_header p msg_type transaction_id crc data_buffer_size blocks max_size_of_block ack_timeout =
    let h = set_msg_type p.header msg_type in
    let h = set_ack_timeout h ack_timeout in
    let h = set_blocks_per_transaction h blocks in
    let h = set_crc h crc in
    let h = set_data_buffer_size h data_buffer_size in
    let h = set_max_packet_length h max_size_of_block in
    record p { header = set_transaction_id h transaction_id }

abbrev pub header_size : ℕ
header_size =
    sizeof_msg_type + sizeof_transaction_id + sizeof_blocks_per_transaction + sizeof_max_packet_len
    + sizeof_ack_timeout + sizeof_crc + sizeof_data_buffer_size

unfoldable pub get_packet_size : TransactionPacket → ℕ
get_packet_size p = header_size + p.header.data_buffer_size

-- `generateCRC` does nothing.
abbrev pub generate_crc : TransactionPacket → Bool × TransactionPacket
generate_crc p = (true, p)

-- `deserialize`: the results of the field readers are not looked at, nor is `len`.
unfoldable pub deserialize :
    TransactionPacket → Memory → Pointer → ℕ → Outcome (Bool × TransactionPacket)
unfolding Header.bytes_to_msg_type Header.bytes_to_transaction_id
    Header.byte_to_block_per_transaction Header.byte_to_max_size_of_block Header.byte_to_ack_timeout
    Header.byte_to_crc Header.byte_to_data_buffer_size set_buffer
deserialize p mem none len = ok (false, p)
deserialize p mem (some buffer) len = do
  (_, h) ← Header.bytes_to_msg_type p.header mem (some buffer) sizeof_msg_type
  let buffer = buffer + sizeof_msg_type
  (_, h) ← Header.bytes_to_transaction_id h mem (some buffer) sizeof_transaction_id
  let buffer = buffer + sizeof_transaction_id
  (_, h) ← Header.byte_to_block_per_transaction h mem (some buffer) sizeof_blocks_per_transaction
  let buffer = buffer + sizeof_blocks_per_transaction
  (_, h) ← Header.byte_to_max_size_of_block h mem (some buffer) sizeof_max_packet_len
  let buffer = buffer + sizeof_max_packet_len
  (_, h) ← Header.byte_to_ack_timeout h mem (some buffer) sizeof_ack_timeout
  let buffer = buffer + sizeof_ack_timeout
  (_, h) ← Header.byte_to_crc h mem (some buffer) sizeof_crc
  let buffer = buffer + sizeof_crc
  (_, h) ← Header.byte_to_data_buffer_size h mem (some buffer) sizeof_data_buffer_size
  let buffer = buffer + sizeof_data_buffer_size
  set_buffer (record p { header = h }) mem (some buffer) (u8 h.data_buffer_size)

-- The end of `serialize`: `setBuffer` copies the output array into the packet, not the packet out.
unfoldable pub serialize_buffer :
    TransactionPacket → Memory → ℕ → ℕ → Outcome (ℕ × TransactionPacket × Memory)
unfolding set_buffer
serialize_buffer p mem buffer payload_size =
    if ltb 0 p.header.data_buffer_size
    then (set_buffer p mem (some buffer) (u8 p.header.data_buffer_size) >>= λ done.
        if done.0 then ok (payload_size, done.1, mem) else ok (0, done.1, mem))
    else ok (0, p, mem)

-- `serialize`: the bytes written, the packet after it and the array after it.
unfoldable pub serialize :
    TransactionPacket → Memory → Pointer → ℕ → Outcome (ℕ × TransactionPacket × Memory)
unfolding get_packet_size serialize_buffer Header.msg_type_to_bytes Header.transaction_id_to_bytes
    Header.block_per_transaction_to_bytes Header.max_size_of_block_to_bytes
    Header.ack_timeout_to_bytes Header.crc_to_bytes Header.data_buffer_size_to_bytes
serialize p mem none len = ok (0, p, mem)
serialize p mem (some buffer) len =
    if ltb len (get_packet_size p)
    then ok (0, p, mem)
    else Header.msg_type_to_bytes p.header mem (some buffer) sizeof_msg_type >>= λ r.
        or_zero p r λ mem.
          let buffer = buffer + sizeof_msg_type in
          Header.transaction_id_to_bytes p.header mem (some buffer) sizeof_transaction_id >>= λ r.
          or_zero p r λ mem.
            let buffer = buffer + sizeof_transaction_id in
            Header.block_per_transaction_to_bytes p.header mem (some buffer)
              sizeof_blocks_per_transaction
            >>= λ r. or_zero p r λ mem.
              let buffer = buffer + sizeof_blocks_per_transaction in
              Header.max_size_of_block_to_bytes p.header mem (some buffer) sizeof_max_packet_len
              >>= λ r. or_zero p r λ mem.
                let buffer = buffer + sizeof_max_packet_len in
                Header.ack_timeout_to_bytes p.header mem (some buffer) sizeof_ack_timeout >>= λ r.
                or_zero p r λ mem.
                  let buffer = buffer + sizeof_ack_timeout in
                  Header.crc_to_bytes p.header mem (some buffer) sizeof_crc >>= λ r.
                  or_zero p r λ mem.
                    let buffer = buffer + sizeof_crc in
                    Header.data_buffer_size_to_bytes p.header mem (some buffer)
                      sizeof_data_buffer_size
                    >>= λ r. or_zero p r λ mem.
                      let buffer = buffer + sizeof_data_buffer_size in
                      serialize_buffer p mem buffer (get_packet_size p)
