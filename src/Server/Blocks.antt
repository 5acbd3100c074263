-- ===== src/Server/Blocks.antt =====
-- How the state BLOCK of dataDump/DDServer.cpp cuts the data into blocks.
use data_dump_protocol.Base.{
  ℕ, ◌+◌, ◌%◌, ◌^◌, none, some, ◌||◌, ltb, leb, if◌then◌else◌, replicate, Outcome, ok, ◌>>=◌,
}
use data_dump_protocol.Packet.Types.{MsgType, ContinueBit, u8}
use data_dump_protocol.Packet.Memory.{Pointer}
use data_dump_protocol.Packet.BlockHeader
use data_dump_protocol.Packet.Block
use data_dump_protocol.Packet.Block.{BlockTxRxPacket, empty_block}
use data_dump_protocol.DataDump.State.{DataDump, Mode, make_data_dump, size_sub, size_mul}

-- The bytes of data that one block and one transaction of `blocks` blocks can hold.
abbrev pub block_room : DataDump → ℕ
block_room d = size_sub d.max_packet_size Block.header_size

abbrev pub storage_room : DataDump → ℕ → ℕ
storage_room d blocks = size_mul (block_room d) blocks

-- The constructor: the buffer holds what one transaction can carry.
unfoldable pub make_server : ℕ → ℕ → ℕ → ℕ → DataDump
unfolding make_data_dump
make_server transaction_id blocks max_packetlen ack_timeout =
    let d = make_data_dump Mode.server transaction_id blocks max_packetlen ack_timeout in
    record d {
      internal_buffer = some 0;
      internal_memory = replicate (storage_room d d.server_config.max_blocks_per_transaction) 0;
    }

abbrev pub advance : Pointer → ℕ → Pointer
advance none n = none
advance (some i) n = some (i + n)

-- The size of the next block: a full one, or what is left.
abbrev pub block_size : DataDump → ℕ
block_size d =
    if ltb d.internal_buffer_len (block_room d) then d.internal_buffer_len else block_room d

-- The frame number is the counter cut to a byte.
abbrev pub frame_of : DataDump → ℕ
frame_of d = u8 d.internal_counter

-- The object once the block is taken: the pointer moves on and the length shrinks by its size.
abbrev pub take_block : DataDump → DataDump
take_block d = record d {
  internal_counter = (d.internal_counter + 1) % 2 ^ 32;
  internal_buffer = advance d.internal_buffer (block_size d);
  internal_buffer_len = size_sub d.internal_buffer_len (block_size d);
}

-- The frame is the last of the transaction.
abbrev pub last_bit : DataDump → ContinueBit
last_bit d =
    if leb d.client_config.max_blocks_per_transaction (frame_of d)
      || leb (take_block d).internal_buffer_len 0
    then ContinueBit.terminate_transfer
    else ContinueBit.continue_transfer

-- The block that is sent next.
unfoldable pub next_block : DataDump → Outcome BlockTxRxPacket
next_block d =
    let header =
      BlockHeader.set_frame_number
        (BlockHeader.set_msg_type BlockHeader.empty_block_header MsgType.block_transfer)
        (frame_of d) in
    Block.set_buffer (record empty_block { header = header }) d.internal_memory d.internal_buffer
      (u8 (block_size d))
    >>= λ r. ok (record r.1 { header = BlockHeader.set_continue_bit r.1.header (last_bit d) })
