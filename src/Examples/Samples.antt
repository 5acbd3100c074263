-- ===== src/Examples/Samples.antt =====
-- Packets and objects for the examples.
use data_dump_protocol.Base.{
  ℕ, List, [], ◌∷◌, some, refl, arith, replicate, true, false, none, Bool, leb, ◌-◌,
}
use data_dump_protocol.Packet.Types.{MsgType}
use data_dump_protocol.Packet.Memory.{Memory}
use data_dump_protocol.Packet.Header.{TranscationHeader}
use data_dump_protocol.Packet.BlockHeader.{BlockHeader}
use data_dump_protocol.Packet.Transaction.{TransactionPacket}
use data_dump_protocol.Packet.Block.{BlockTxRxPacket}
use data_dump_protocol.Packet.WireBlock.{IsBlock}
use data_dump_protocol.Packet.WireTransaction.{IsHeader}
use data_dump_protocol.DataDump.State.{DataDump, Host, Mode, FsmState}
use data_dump_protocol.DataDump.Carry.{wire}
use data_dump_protocol.Harness.Channel.{Channel}
use data_dump_protocol.Client.Storage.{HasRoom}
use data_dump_protocol.Server.OneBlock.{IsReady, IsEnough}

abbrev pub zeros : Memory
zeros = replicate 12 0

-- The first block of a transaction, with two bytes.
abbrev pub block_header : BlockHeader
block_header = record {
  msg_type = MsgType.block_transfer;
  block_metadata = 129;
  crc = 0;
  data_buffer_size = 2;
}

abbrev pub two_bytes : List ℕ
two_bytes = 7 ∷ 9 ∷ []

abbrev pub block : BlockTxRxPacket
block = record { header = block_header; buffer = some two_bytes }

pub block-IsBlock : IsBlock block two_bytes
block-IsBlock = record {
  metadata_fits = omega arith;
  crc_fits = omega arith;
  size_fits = omega arith;
  nonempty = omega arith;
  held = refl;
  sized = refl;
}

-- A request with the settings of dataDump/DDTest.cpp.
abbrev pub request_header : TranscationHeader
request_header = record {
  msg_type = MsgType.request;
  transaction_id = 4660;
  max_blocks_per_transaction = 35;
  max_packetlen = 12;
  max_ack_timeout = 5;
  crc = 0;
  data_buffer_size = 0;
}

abbrev pub request : TransactionPacket
request = record { header = request_header; buffer = none }

pub request-IsHeader : IsHeader request_header
request-IsHeader = record {
  id_fits = omega arith;
  blocks_fit = omega arith;
  packetlen_fits = omega arith;
  timeout_fits = omega arith;
  crc_fits = omega arith;
  size_fits = omega arith;
}

-- A server that is to send eight bytes in blocks of at most seven.
abbrev pub server : DataDump
server = record {
  mode = Mode.server;
  max_packet_size = 12;
  internal_counter = 1;
  server_config = request_header;
  client_config = record request_header { max_blocks_per_transaction = 3 };
  internal_buffer = some 0;
  internal_memory = 1 ∷ 2 ∷ 3 ∷ 4 ∷ 5 ∷ 6 ∷ 7 ∷ 8 ∷ 0 ∷ [];
  internal_buffer_len = 8;
  is_transfer_success = false;
  is_busy = true;
  current_state = FsmState.block;
  next_state = FsmState.block;
}

pub server-IsReady : IsReady server 0 8
server-IsReady = record {
  at_index = refl;
  len = refl;
  inside = omega arith;
  some_data = omega arith;
  small = omega arith;
  packet_fits = omega arith;
  has_room = omega arith;
}

pub server-IsEnough : IsEnough server 8 1 2
server-IsEnough = record {
  counter = refl;
  counts_on = refl;
  blocks_fit = omega arith;
  holds = omega arith;
}

-- A client with room for eleven bytes behind the first.
abbrev pub client : DataDump
client = record server {
  mode = Mode.client;
  internal_buffer = some 1;
  internal_memory = replicate 12 0;
  internal_buffer_len = 11;
}

pub client-HasRoom : HasRoom client 1 11
client-HasRoom = record { at_index = refl; len = refl; inside = omega arith; small = omega arith }

-- A line on which a message that is sent is the next to be received; the timer has `clock` polls
-- left.
pub record Line : Type 0 where
  pub sent : Channel
  pub clock : ℕ

abbrev pub keep : List ℕ → Line → Bool × Line
keep bytes w = (true, record w { sent = bytes ∷ w.sent })

abbrev pub refuse : List ℕ → Line → Bool × Line
refuse bytes w = (false, w)

abbrev pub hand : ℕ → Line → List ℕ × Line
hand max_length w = (wire block two_bytes, w)

-- The storage gives back the two bytes 3 and 4, whatever it is asked for.
abbrev pub give : ℕ → Bool → Line → List ℕ × Line
give max_size erase w = (3 ∷ 4 ∷ [], w)

abbrev pub line : (List ℕ → Line → Bool × Line) → Host Line
line send = record {
  send_cb = some send;
  recv_cb = some hand;
  consumer_cb = some give;
  notify_cb = none;
  timer_start = λ interval w. (true, w);
  timer_stop = λ w. (true, w);
  timer_is_expired = λ w. (leb w.clock 0, record w { clock = w.clock - 1 });
  try_lock = λ mutex w. (true, w);
}

abbrev pub idle_line : Line
idle_line = record { sent = []; clock = 3 }
