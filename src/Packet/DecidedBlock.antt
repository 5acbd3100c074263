-- ===== src/Packet/DecidedBlock.antt =====
-- `blockTxRxPacket` of dataDump/DDPacket.cpp is read and written in finitely many steps.
use data_dump_protocol.Base.{ℕ, ◌+◌, List, Option, none, some, ltb, get_elem?}
use data_dump_protocol.Packet.Types.{
  u8, sizeof_msg_type, sizeof_block_metadata, sizeof_crc, sizeof_data_buffer_size,
}
use data_dump_protocol.Packet.Memory.{Memory, Pointer}
use data_dump_protocol.Packet.Decided.{
  Decided, ok-Decided, bind-Decided, if-Decided, of_option-Decided, load_bytes-Decided,
  store_bytes-Decided, get_word-Decided, put_word-Decided, store_msg_type-Decided, reading-Decided,
  writing-Decided, or_zero-Decided,
}
use data_dump_protocol.Packet.BlockHeader
use data_dump_protocol.Packet.BlockHeader.{BlockHeader}
use data_dump_protocol.Packet.Block
use data_dump_protocol.Packet.Block.{BlockTxRxPacket, copy_out}

module _ (h : BlockHeader) (mem : Memory) (ptr : Pointer) (len : ℕ) where
  bytes_to_msg_type-Decided : Decided (BlockHeader.bytes_to_msg_type h mem ptr len)
  unfolding BlockHeader.bytes_to_msg_type
  bytes_to_msg_type-Decided =
      reading-Decided _ ptr len h
        (λ i. bind-Decided (of_option-Decided (get_elem? mem i)) (λ b. ok-Decided))

  bytes_to_block_metadata-Decided : Decided (BlockHeader.bytes_to_block_metadata h mem ptr len)
  unfolding BlockHeader.bytes_to_block_metadata
  bytes_to_block_metadata-Decided =
      reading-Decided _ ptr len h (λ i. bind-Decided (get_word-Decided _ _ mem i) (λ v. ok-Decided))

  bytes_to_crc-Decided : Decided (BlockHeader.bytes_to_crc h mem ptr len)
  unfolding BlockHeader.bytes_to_crc
  bytes_to_crc-Decided =
      reading-Decided _ ptr len h (λ i. bind-Decided (get_word-Decided _ _ mem i) (λ v. ok-Decided))

  bytes_to_data_buffer_size-Decided : Decided (BlockHeader.bytes_to_data_buffer_size h mem ptr len)
  unfolding BlockHeader.bytes_to_data_buffer_size
  bytes_to_data_buffer_size-Decided =
      reading-Decided _ ptr len h (λ i. bind-Decided (get_word-Decided _ _ mem i) (λ v. ok-Decided))

  msg_type_to_bytes-Decided : Decided (BlockHeader.msg_type_to_bytes h mem ptr len)
  unfolding BlockHeader.msg_type_to_bytes
  msg_type_to_bytes-Decided =
      writing-Decided _ mem ptr len (λ i. store_msg_type-Decided mem i h.msg_type)

  block_metadata_to_bytes-Decided : Decided (BlockHeader.block_metadata_to_bytes h mem ptr len)
  unfolding BlockHeader.block_metadata_to_bytes
  block_metadata_to_bytes-Decided =
      writing-Decided _ mem ptr len (λ i. put_word-Decided _ _ _ mem i)

  crc_to_bytes-Decided : Decided (BlockHeader.crc_to_bytes h mem ptr len)
  unfolding BlockHeader.crc_to_bytes
  crc_to_bytes-Decided = writing-Decided _ mem ptr len (λ i. put_word-Decided _ _ _ mem i)

  data_buffer_size_to_bytes-Decided : Decided (BlockHeader.data_buffer_size_to_bytes h mem ptr len)
  unfolding BlockHeader.data_buffer_size_to_bytes
  data_buffer_size_to_bytes-Decided =
      writing-Decided _ mem ptr len (λ i. put_word-Decided _ _ _ mem i)

pub set_buffer-Decided :
    (p : BlockTxRxPacket) (mem : Memory) (ptr : Pointer) (len : ℕ)
    → Decided (Block.set_buffer p mem ptr len)
unfolding Block.set_buffer
set_buffer-Decided p mem none len = ok-Decided
set_buffer-Decided p mem (some i) len =
    if-Decided (ltb 0 len) (bind-Decided (load_bytes-Decided mem i len) (λ bytes. ok-Decided))
      ok-Decided

pub deserialize-Decided :
    (p : BlockTxRxPacket) (mem : Memory) (ptr : Pointer) (len : ℕ)
    → Decided (Block.deserialize p mem ptr len)
unfolding Block.deserialize
deserialize-Decided p mem none len = ok-Decided
deserialize-Decided p mem (some buffer) len =
    bind-Decided (bytes_to_msg_type-Decided p.header mem (some (buffer)) sizeof_msg_type) λ r0.
      bind-Decided
        (bytes_to_block_metadata-Decided r0.1 mem (some (buffer + sizeof_msg_type))
          sizeof_block_metadata)
        λ r1.
          bind-Decided
            (bytes_to_crc-Decided r1.1 mem (some (buffer + sizeof_msg_type + sizeof_block_metadata))
              sizeof_crc)
            λ r2.
              bind-Decided
                (bytes_to_data_buffer_size-Decided r2.1 mem
                  (some (buffer + sizeof_msg_type + sizeof_block_metadata + sizeof_crc))
                  sizeof_data_buffer_size)
                λ r3.
                  set_buffer-Decided (record p { header = r3.1 }) mem
                    (some (
                      buffer + sizeof_msg_type + sizeof_block_metadata + sizeof_crc
                      + sizeof_data_buffer_size))
                    (u8 r3.1.data_buffer_size)

pub copy_out-Decided :
    (own : Option (List ℕ)) (size : ℕ) (mem : Memory) (i : ℕ) → Decided (copy_out own size mem i)
copy_out-Decided none size mem i = record { over = tt }
copy_out-Decided (some own) size mem i =
    bind-Decided (load_bytes-Decided own 0 size) (λ bytes. store_bytes-Decided mem i bytes)

serialize_buffer-Decided :
    (p : BlockTxRxPacket) (mem : Memory) (buffer size : ℕ)
    → Decided (Block.serialize_buffer p mem buffer size)
unfolding Block.serialize_buffer
serialize_buffer-Decided p mem buffer size =
    if-Decided (ltb 0 p.header.data_buffer_size)
      (bind-Decided (copy_out-Decided p.buffer p.header.data_buffer_size mem buffer)
        λ mem'. ok-Decided {a = (size, tt, mem')})
      (ok-Decided {a = (0, tt, mem)})

pub serialize-Decided :
    (p : BlockTxRxPacket) (mem : Memory) (ptr : Pointer) (len : ℕ)
    → Decided (Block.serialize p mem ptr len)
unfolding Block.serialize
serialize-Decided p mem none len = ok-Decided
serialize-Decided p mem (some buffer) len =
    if-Decided (ltb len (Block.get_packet_size p)) ok-Decided (
      bind-Decided (msg_type_to_bytes-Decided p.header mem (some (buffer)) sizeof_msg_type) λ r0.
        or_zero-Decided tt r0 λ m0.
          bind-Decided
            (block_metadata_to_bytes-Decided p.header m0 (some (buffer + sizeof_msg_type))
              sizeof_block_metadata)
            λ r1. or_zero-Decided tt r1 λ m1.
              bind-Decided
                (crc_to_bytes-Decided p.header m1
                  (some (buffer + sizeof_msg_type + sizeof_block_metadata)) sizeof_crc)
                λ r2. or_zero-Decided tt r2 λ m2.
                  bind-Decided
                    (data_buffer_size_to_bytes-Decided p.header m2
                      (some (buffer + sizeof_msg_type + sizeof_block_metadata + sizeof_crc))
                      sizeof_data_buffer_size)
                    λ r3. or_zero-Decided tt r3 λ m3.
                      serialize_buffer-Decided p m3
                        (buffer + sizeof_msg_type + sizeof_block_metadata + sizeof_crc
                          + sizeof_data_buffer_size)
                        (Block.get_packet_size p))
