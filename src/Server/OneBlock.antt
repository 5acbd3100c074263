-- ===== src/Server/OneBlock.antt =====
-- One block of dataDump/DDServer.cpp: what it holds and what is left to send behind it.
use data_dump_protocol.Base.{
  ℕ, zero, suc, ◌+◌, ◌-◌, ◌*◌, ◌%◌, ◌^◌, ◌≤◌, ◌<◌, ◌≡◌, refl, ◌∙◌, List, [], Option, some, none,
  length, take, drop, length-take, length-drop, ok, arith, ltb, leb, lt→ltb, le→ltb, le→leb,
  if◌then◌else◌,
}
use data_dump_protocol.Packet.Types.{MsgType, ContinueBit}
use data_dump_protocol.Packet.Words.{u8_lem}
use data_dump_protocol.Packet.BlockHeader
use data_dump_protocol.Packet.BlockHeader.{BlockHeader, get_continue_bit, get_frame_number}
use data_dump_protocol.Packet.Metadata.{get-set_continue_bit, get-set_frame_number}
use data_dump_protocol.Packet.Block
use data_dump_protocol.Packet.Block.{BlockTxRxPacket, header_size, empty_block}
use data_dump_protocol.Packet.WireBlock.{IsBlock}
use data_dump_protocol.DataDump.State.{DataDump}
use data_dump_protocol.Server.Blocks.{
  block_room, block_size, frame_of, last_bit, take_block, next_block,
}

-- The bytes of data that fit a packet behind the five of the header.
abbrev pub room : DataDump → ℕ
room d = d.max_packet_size - header_size

-- `n` bytes stand ready at index `i`, and a block can hold some.
pub record IsReady (d : DataDump) (i n : ℕ) : Type 0 where
  pub at_index : d.internal_buffer ≡ some i
  pub len : d.internal_buffer_len ≡ n
  pub inside : i + n ≤ length d.internal_memory
  pub some_data : 0 < n
  pub small : n < 2 ^ 64
  pub packet_fits : d.max_packet_size < 256
  pub has_room : header_size < d.max_packet_size

-- The header before the data size and the continue bit are set.
abbrev pub numbered : ℕ → BlockHeader
numbered frame =
    BlockHeader.set_frame_number
      (BlockHeader.set_msg_type BlockHeader.empty_block_header MsgType.block_transfer) frame

abbrev pub next_size : DataDump → ℕ → ℕ
next_size d n = if ltb n (room d) then n else room d

room_lem : (d : DataDump) (i n : ℕ) → IsReady d i n → block_room d ≡ room d
room_lem d i n r = omega arith

size_lem : (d : DataDump) (i n : ℕ) → IsReady d i n → block_size d ≡ next_size d n
size_lem d i n r = rw (room_lem d i n r, r.len)

-- The next block holds the next bytes, as many as fit.
pub next_block_lem :
    (d : DataDump) (i n : ℕ)
    → IsReady d i n
    → next_block d
      ≡ ok (record {
        header =
            BlockHeader.set_continue_bit
              (BlockHeader.set_data_buffer_size (numbered (frame_of d)) (next_size d n))
              (last_bit d);
        buffer = some (take (next_size d n) (drop i d.internal_memory));
      })
unfolding next_block Block.set_buffer
next_block_lem d i n r = rw (
  r.at_index,
  size_lem d i n r,
  u8_lem (next_size d n) (ground arith),
  lt→ltb 0 (next_size d n) (ground arith),
  le→leb (i + next_size d n) (length d.internal_memory) (ground arith),
)

-- The transaction's blocks are enough for the data: counting from frame `c`, `left` more frames
-- hold it.
pub record IsEnough (d : DataDump) (n c left : ℕ) : Type 0 where
  pub counter : d.internal_counter ≡ c
  pub counts_on : c + left ≡ d.client_config.max_blocks_per_transaction
  pub blocks_fit : d.client_config.max_blocks_per_transaction < 256
  pub holds : n ≤ suc left * room d

pub last_bit_lem :
    (d : DataDump) (i n c left : ℕ)
    → IsReady d i n
    → IsEnough d n c left
    → last_bit d
      ≡ (if leb n (room d) then ContinueBit.terminate_transfer else ContinueBit.continue_transfer)
last_bit_lem d i n c zero r e =
    rw (size_lem d i n r, r.len, e.counter) (ground (arith, e.counts_on, e.holds))
last_bit_lem d i n c (suc left) r e =
    rw (size_lem d i n r, r.len, e.counter) (ground (arith, e.counts_on, e.blocks_fit))

pub take_block-IsReady :
    (d : DataDump) (i n : ℕ)
    → IsReady d i n
    → room d < n
    → IsReady (take_block d) (i + room d) (n - room d)
take_block-IsReady d i n r more = record {
  at_index = rw (size_lem d i n r, full, r.at_index);
  len = rw (size_lem d i n r, full, r.len) (omega arith);
  inside = omega (arith, r.inside);
  some_data = omega arith;
  small = omega (arith, r.small);
  packet_fits = r.packet_fits;
  has_room = r.has_room;
}
  where
    full : next_size d n ≡ room d
    full = rw (le→ltb n (room d) (omega arith))

pub take_block-IsEnough :
    (d : DataDump) (n c left : ℕ)
    → IsEnough d n c (suc left)
    → room d < n
    → IsEnough (take_block d) (n - room d) (suc c) left
take_block-IsEnough d n c left e more = record {
  counter = omega (arith, e.counter, e.counts_on, e.blocks_fit);
  counts_on = omega (arith, e.counts_on);
  blocks_fit = e.blocks_fit;
  holds = omega (arith, e.holds);
}

-- The data of a block.
abbrev pub payload : Option (List ℕ) → List ℕ
payload none = []
payload (some bytes) = bytes

abbrev pub block_at : DataDump → ℕ → ℕ → BlockTxRxPacket
block_at d i n = record {
  header =
      BlockHeader.set_continue_bit
        (BlockHeader.set_data_buffer_size (numbered (frame_of d)) (next_size d n)) (last_bit d);
  buffer = some (take (next_size d n) (drop i d.internal_memory));
}

block_at-frame :
    (d : DataDump) (i n c left : ℕ)
    → IsEnough d n c left
    → get_frame_number (block_at d i n).header ≡ c % 128
unfolding get_frame_number
block_at-frame d i n c left e =
    (get-set_continue_bit (BlockHeader.set_data_buffer_size (numbered (frame_of d)) (next_size d n))
      (last_bit d)).1
    ∙ (get-set_frame_number
        (BlockHeader.set_msg_type BlockHeader.empty_block_header MsgType.block_transfer)
        (frame_of d) (omega arith) refl).0
    ∙ omega (arith, e.counter, e.counts_on, e.blocks_fit)

block_at-size :
    (d : DataDump) (i n : ℕ)
    → IsReady d i n
    → length (take (next_size d n) (drop i d.internal_memory)) ≤ room d
block_at-size d i n r =
    omega (arith, length-take (next_size d n) (drop i d.internal_memory), small_size)
  where
    small_size : next_size d n ≤ room d
    small_size = ground arith

pub block_at-bit :
    (d : DataDump) (i n c left : ℕ)
    → IsReady d i n
    → IsEnough d n c left
    → get_continue_bit (block_at d i n).header
      ≡ (if leb n (room d) then ContinueBit.terminate_transfer else ContinueBit.continue_transfer)
block_at-bit d i n c left r e =
    (get-set_continue_bit (BlockHeader.set_data_buffer_size (numbered (frame_of d)) (next_size d n))
      (last_bit d)).0
    ∙ last_bit_lem d i n c left r e

pub next_size_last : (d : DataDump) (n : ℕ) → n ≤ room d → next_size d n ≡ n
next_size_last d n h = ground arith

-- A block with the frame number `c` modulo 128 and at most `most` bytes of data, that its header
-- counts.
pub record IsSent (most c : ℕ) (b : BlockTxRxPacket) : Type 0 where
  pub frame : get_frame_number b.header ≡ c % 128
  pub fits : length (payload b.buffer) ≤ most
  pub well_formed : IsBlock b (payload b.buffer)
  pub kind : b.header.msg_type ≡ MsgType.block_transfer
  pub unchecked : b.header.crc ≡ 0

block_at-size_exact :
    (d : DataDump) (i n : ℕ)
    → IsReady d i n
    → length (take (next_size d n) (drop i d.internal_memory)) ≡ next_size d n
block_at-size_exact d i n r = omega (
  arith,
  length-take (next_size d n) (drop i d.internal_memory),
  length-drop i d.internal_memory,
  small_size,
  r.inside,
)
  where
    small_size : next_size d n ≤ n
    small_size = ground arith

block_at-IsBlock :
    (d : DataDump) (i n : ℕ)
    → IsReady d i n
    → IsBlock (block_at d i n) (take (next_size d n) (drop i d.internal_memory))
unfolding BlockHeader.set_continue_bit BlockHeader.set_frame_number
block_at-IsBlock d i n r = record {
  metadata_fits = omega arith;
  crc_fits = omega arith;
  size_fits = ground (arith, r.packet_fits);
  nonempty = ground (arith, r.some_data, r.has_room);
  held = refl;
  sized = block_at-size_exact d i n r;
}

pub block_at-IsSent :
    (d : DataDump) (i n c left : ℕ)
    → IsReady d i n
    → IsEnough d n c left
    → IsSent (room d) c (block_at d i n)
unfolding BlockHeader.set_continue_bit BlockHeader.set_frame_number
block_at-IsSent d i n c left r e = record {
  frame = block_at-frame d i n c left e;
  fits = block_at-size d i n r;
  well_formed = block_at-IsBlock d i n r;
  kind = refl;
  unchecked = refl;
}
