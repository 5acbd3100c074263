-- ===== src/Packet/DecidedTransaction.antt =====
-- `TransactionPacket` of dataDump/DDPacket.cpp is read and written in finitely many steps.
use data_dump_protocol.Base.{ℕ, ◌+◌, none, some, ltb, get_elem?}
use data_dump_protocol.Packet.Types.{
  u8, sizeof_msg_type, sizeof_transaction_id, sizeof_blocks_per_transaction, sizeof_max_packet_len,
  sizeof_ack_timeout, sizeof_crc, sizeof_data_buffer_size,
}
use data_dump_protocol.Packet.Memory.{Memory, Pointer}
use data_dump_protocol.Packet.Decided.{
  Decided, ok-Decided, bind-Decided, if-Decided, of_option-Decided, load_bytes-Decided,
  get_word-Decided, put_word-Decided, store_msg_type-Decided, reading-Decided, writing-Decided,
  or_zero-Decided,
}
use data_dump_protocol.Packet.Header
use data_dump_protocol.Packet.Header.{TranscationHeader}
use data_dump_protocol.Packet.Transaction
use data_dump_protocol.Packet.Transaction.{TransactionPacket}

module _ (h : TranscationHeader) (mem : Memory) (ptr : Pointer) (len : ℕ) where
  bytes_to_msg_type-Decided : Decided (Header.bytes_to_msg_type h mem ptr len)
  unfolding Header.bytes_to_msg_type
  bytes_to_msg_type-Decided =
      reading-Decided _ ptr len h
        (λ i. bind-Decided (of_option-Decided (get_elem? mem i)) (λ b. ok-Decided))

  bytes_to_transaction_id-Decided : Decided (Header.bytes_to_transaction_id h mem ptr len)
  unfolding Header.bytes_to_transaction_id
  bytes_to_transaction_id-Decided =
      reading-Decided _ ptr len h (λ i. bind-Decided (get_word-Decided _ _ mem i) (λ v. ok-Decided))

  byte_to_block_per_transaction-Decided :
      Decided (Header.byte_to_block_per_transaction h mem ptr len)
  unfolding Header.byte_to_block_per_transaction
  byte_to_block_per_transaction-Decided =
      reading-Decided _ ptr len h (λ i. bind-Decided (get_word-Decided _ _ mem i) (λ v. ok-Decided))

  byte_to_max_size_of_block-Decided : Decided (Header.byte_to_max_size_of_block h mem ptr len)
  unfolding Header.byte_to_max_size_of_block
  byte_to_max_size_of_block-Decided =
      reading-Decided _ ptr len h (λ i. bind-Decided (get_word-Decided _ _ mem i) (λ v. ok-Decided))

  byte_to_ack_timeout-Decided : Decided (Header.byte_to_ack_timeout h mem ptr len)
  unfolding Header.byte_to_ack_timeout
  byte_to_ack_timeout-Decided =
      reading-Decided _ ptr len h (λ i. bind-Decided (get_word-Decided _ _ mem i) (λ v. ok-Decided))

  byte_to_crc-Decided : Decided (Header.byte_to_crc h mem ptr len)
  unfolding Header.byte_to_crc
  byte_to_crc-Decided =
      reading-Decided _ ptr len h (λ i. bind-Decided (get_word-Decided _ _ mem i) (λ v. ok-Decided))

  byte_to_data_buffer_size-Decided : Decided (Header.byte_to_data_buffer_size h mem ptr len)
  unfolding Header.byte_to_data_buffer_size
  byte_to_data_buffer_size-Decided =
      reading-Decided _ ptr len h (λ i. bind-Decided (get_word-Decided _ _ mem i) (λ v. ok-Decided))

  msg_type_to_bytes-Decided : Decided (Header.msg_type_to_bytes h mem ptr len)
  unfolding Header.msg_type_to_bytes
  msg_type_to_bytes-Decided =
      writing-Decided _ mem ptr len (λ i. store_msg_type-Decided mem i h.msg_type)

  transaction_id_to_bytes-Decided : Decided (Header.transaction_id_to_bytes h mem ptr len)
  unfolding Header.transaction_id_to_bytes
  transaction_id_to_bytes-Decided =
      writing-Decided _ mem ptr len (λ i. put_word-Decided _ _ _ mem i)

  block_per_transaction_to_bytes-Decided :
      Decided (Header.block_per_transaction_to_bytes h mem ptr len)
  unfolding Header.block_per_transaction_to_bytes
  block_per_transaction_to_bytes-Decided =
      writing-Decided _ mem ptr len (λ i. put_word-Decided _ _ _ mem i)

  max_size_of_block_to_bytes-Decided : Decided (Header.max_size_of_block_to_bytes h mem ptr len)
  unfolding Header.max_size_of_block_to_bytes
  max_size_of_block_to_bytes-Decided =
      writing-Decided _ mem ptr len (λ i. put_word-Decided _ _ _ mem i)

  ack_timeout_to_bytes-Decided : Decided (Header.ack_timeout_to_bytes h mem ptr len)
  unfolding Header.ack_timeout_to_bytes
  ack_timeout_to_bytes-Decided = writing-Decided _ mem ptr len (λ i. put_word-Decided _ _ _ mem i)

  crc_to_bytes-Decided : Decided (Header.crc_to_bytes h mem ptr len)
  unfolding Header.crc_to_bytes
  crc_to_bytes-Decided = writing-Decided _ mem ptr len (λ i. put_word-Decided _ _ _ mem i)

  data_buffer_size_to_bytes-Decided : Decided (Header.data_buffer_size_to_bytes h mem ptr len)
  unfolding Header.data_buffer_size_to_bytes
  data_buffer_size_to_bytes-Decided =
      writing-Decided _ mem ptr len (λ i. put_word-Decided _ _ _ mem i)

set_buffer-Decided :
    (p : TransactionPacket) (mem : Memory) (ptr : Pointer) (len : ℕ)
    → Decided (Transaction.set_buffer p mem ptr len)
unfolding Transaction.set_buffer
set_buffer-Decided p mem none len = ok-Decided
set_buffer-Decided p mem (some i) len =
    if-Decided (ltb 0 len) (bind-Decided (load_bytes-Decided mem i len) (λ bytes. ok-Decided))
      ok-Decided

pub deserialize-Decided :
    (p : TransactionPacket) (mem : Memory) (ptr : Pointer) (len : ℕ)
    → Decided (Transaction.deserialize p mem ptr len)
unfolding Transaction.deserialize
deserialize-Decided p mem none len = ok-Decided
deserialize-Decided p mem (some buffer) len =
    bind-Decided (bytes_to_msg_type-Decided p.header mem (some (buffer)) sizeof_msg_type) λ r0.
      bind-Decided
        (bytes_to_transaction_id-Decided r0.1 mem (some (buffer + sizeof_msg_type))
          sizeof_transaction_id)
        λ r1.
          bind-Decided
            (byte_to_block_per_transaction-Decided r1.1 mem
              (some (buffer + sizeof_msg_type + sizeof_transaction_id))
              sizeof_blocks_per_transaction)
            λ r2.
              bind-Decided
                (byte_to_max_size_of_block-Decided r2.1 mem
                  (some (
                    buffer + sizeof_msg_type + sizeof_transaction_id
                    + sizeof_blocks_per_transaction))
                  sizeof_max_packet_len)
                λ r3.
                  bind-Decided
                    (byte_to_ack_timeout-Decided r3.1 mem
                      (some (
                        buffer + sizeof_msg_type + sizeof_transaction_id
                        + sizeof_blocks_per_transaction + sizeof_max_packet_len))
                      sizeof_ack_timeout)
                    λ r4.
                      bind-Decided
                        (byte_to_crc-Decided r4.1 mem
                          (some (
                            buffer + sizeof_msg_type + sizeof_transaction_id
                            + sizeof_blocks_per_transaction + sizeof_max_packet_len
                            + sizeof_ack_timeout))
                          sizeof_crc)
                        λ r5.
                          bind-Decided
                            (byte_to_data_buffer_size-Decided r5.1 mem
                              (some (
                                buffer + sizeof_msg_type + sizeof_transaction_id
                                + sizeof_blocks_per_transaction + sizeof_max_packet_len
                                + sizeof_ack_timeout + sizeof_crc))
                              sizeof_data_buffer_size)
                            λ r6.
                              set_buffer-Decided (record p { header = r6.1 }) mem
                                (some (
                                  buffer + sizeof_msg_type + sizeof_transaction_id
                                  + sizeof_blocks_per_transaction + sizeof_max_packet_len
                                  + sizeof_ack_timeout + sizeof_crc + sizeof_data_buffer_size))
                                (u8 r6.1.data_buffer_size)

serialize_buffer-Decided :
    (p : TransactionPacket) (mem : Memory) (buffer size : ℕ)
    → Decided (Transaction.serialize_buffer p mem buffer size)
unfolding Transaction.serialize_buffer
serialize_buffer-Decided p mem buffer size =
    if-Decided (ltb 0 p.header.data_buffer_size)
      (bind-Decided (set_buffer-Decided p mem (some buffer) (u8 p.header.data_buffer_size)) λ done.
        if-Decided done.0 (ok-Decided {a = (size, done.1, mem)})
          (ok-Decided {a = (0, done.1, mem)}))
      (ok-Decided {a = (0, p, mem)})

pub serialize-Decided :
    (p : TransactionPacket) (mem : Memory) (ptr : Pointer) (len : ℕ)
    → Decided (Transaction.serialize p mem ptr len)
unfolding Transaction.serialize
serialize-Decided p mem none len = ok-Decided
serialize-Decided p mem (some buffer) len =
    if-Decided (ltb len (Transaction.get_packet_size p)) ok-Decided (
      bind-Decided (msg_type_to_bytes-Decided p.header mem (some (buffer)) sizeof_msg_type) λ r0.
        or_zero-Decided p r0 λ m0.
          bind-Decided
            (transaction_id_to_bytes-Decided p.header m0 (some (buffer + sizeof_msg_type))
              sizeof_transaction_id)
            λ r1. or_zero-Decided p r1 λ m1.
              bind-Decided
                (block_per_transaction_to_bytes-Decided p.header m1
                  (some (buffer + sizeof_msg_type + sizeof_transaction_id))
                  sizeof_blocks_per_transaction)
                λ r2. or_zero-Decided p r2 λ m2.
                  bind-Decided
                    (max_size_of_block_to_bytes-Decided p.header m2
                      (some (
                        buffer + sizeof_msg_type + sizeof_transaction_id
                        + sizeof_blocks_per_transaction))
                      sizeof_max_packet_len)
                    λ r3. or_zero-Decided p r3 λ m3.
                      bind-Decided
                        (ack_timeout_to_bytes-Decided p.header m3
                          (some (
                            buffer + sizeof_msg_type + sizeof_transaction_id
                            + sizeof_blocks_per_transaction + sizeof_max_packet_len))
                          sizeof_ack_timeout)
                        λ r4. or_zero-Decided p r4 λ m4.
                          bind-Decided
                            (crc_to_bytes-Decided p.header m4
                              (some (
                                buffer + sizeof_msg_type + sizeof_transaction_id
                                + sizeof_blocks_per_transaction + sizeof_max_packet_len
                                + sizeof_ack_timeout))
                              sizeof_crc)
                            λ r5. or_zero-Decided p r5 λ m5.
                              bind-Decided
                                (data_buffer_size_to_bytes-Decided p.header m5
                                  (some (
                                    buffer + sizeof_msg_type + sizeof_transaction_id
                                    + sizeof_blocks_per_transaction + sizeof_max_packet_len
                                    + sizeof_ack_timeout + sizeof_crc))
                                  sizeof_data_buffer_size)
                                λ r6. or_zero-Decided p r6 λ m6.
                                  serialize_buffer-Decided p m6
                                    (buffer + sizeof_msg_type + sizeof_transaction_id
                                      + sizeof_blocks_per_transaction + sizeof_max_packet_len
                                      + sizeof_ack_timeout + sizeof_crc + sizeof_data_buffer_size)
                                    (Transaction.get_packet_size p))
