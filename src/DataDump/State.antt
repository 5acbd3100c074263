-- ===== src/DataDump/State.antt =====
-- The members of `DataDump` (dataDump/DDBase.h), its callbacks, and what it asks of its surroundings.
use data_dump_protocol.Base.{ℕ, List, Option, none, Bool, false, ◌+◌, ◌-◌, ◌*◌, ◌%◌, ◌^◌}
use data_dump_protocol.Packet.Memory.{Memory, Pointer}
use data_dump_protocol.Packet.Header.{
  TranscationHeader, empty_header, set_transaction_id, set_blocks_per_transaction,
  set_max_packet_length, set_ack_timeout,
}

-- `mode_e`
pub data Mode : Type 0 where
  server client : Mode

-- `fsm_state_e`
pub data FsmState : Type 0 where
  idle request response initiate_block block terminate : FsmState

-- `cur_mutex` and `nxt_mutex`
pub data Mutex : Type 0 where
  cur_mutex nxt_mutex : Mutex

-- `internal_memory` is the array that `internal_buffer` points into: the server's own, or the one
-- that the client's application lent.
pub record DataDump : Type 0 where
  pub mode : Mode
  pub max_packet_size : ℕ
  pub internal_counter : ℕ
  pub server_config : TranscationHeader
  pub client_config : TranscationHeader
  pub internal_buffer : Pointer
  pub internal_memory : Memory
  pub internal_buffer_len : ℕ
  pub is_transfer_success : Bool
  pub is_busy : Bool
  pub current_state : FsmState
  pub next_state : FsmState

-- The callbacks, each of them perhaps NULL, and the calls of the timer and of the mutexes, over a
-- state `W` of everything outside the object. A callback that fills a buffer returns the bytes that
-- it wrote; their number is the count that it returns. `try_lock` answers `try_lock_for` of 1 ms.
pub record Host (W : Type 0) : Type 0 where
  pub send_cb : Option (List ℕ → W → Bool × W)
  pub recv_cb : Option (ℕ → W → List ℕ × W)
  pub consumer_cb : Option (ℕ → Bool → W → List ℕ × W)
  pub notify_cb : Option (Bool → W → W)
  pub timer_start : ℕ → W → Bool × W
  pub timer_stop : W → Bool × W
  pub timer_is_expired : W → Bool × W
  pub try_lock : Mutex → W → Bool × W

abbrev configured : ℕ → ℕ → ℕ → ℕ → TranscationHeader
configured transaction_id blocks max_packetlen ack_timeout =
    set_ack_timeout
      (set_max_packet_length
        (set_blocks_per_transaction (set_transaction_id empty_header transaction_id) blocks)
        max_packetlen)
      ack_timeout

-- The constructor: the configuration goes to the side that the object plays.
unfoldable pub make_data_dump : Mode → ℕ → ℕ → ℕ → ℕ → DataDump
make_data_dump Mode.client transaction_id blocks max_packetlen ack_timeout = record {
  mode = Mode.client;
  max_packet_size = max_packetlen;
  internal_counter = 1;
  server_config = empty_header;
  client_config = configured transaction_id blocks max_packetlen ack_timeout;
  internal_buffer = none;
  internal_memory = List.[];
  internal_buffer_len = 0;
  is_transfer_success = false;
  is_busy = false;
  current_state = FsmState.idle;
  next_state = FsmState.idle;
}
make_data_dump Mode.server transaction_id blocks max_packetlen ack_timeout = record {
  mode = Mode.server;
  max_packet_size = max_packetlen;
  internal_counter = 1;
  server_config = configured transaction_id blocks max_packetlen ack_timeout;
  client_config = empty_header;
  internal_buffer = none;
  internal_memory = List.[];
  internal_buffer_len = 0;
  is_transfer_success = false;
  is_busy = false;
  current_state = FsmState.idle;
  next_state = FsmState.idle;
}

-- `size_t` subtraction and multiplication.
abbrev pub size_sub : ℕ → ℕ → ℕ
size_sub a b = (a + 2 ^ 64 - b) % 2 ^ 64

abbrev pub size_mul : ℕ → ℕ → ℕ
size_mul a b = a * b % 2 ^ 64
