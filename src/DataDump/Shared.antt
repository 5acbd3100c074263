-- ===== src/DataDump/Shared.antt =====
-- Steps that the state machines of dataDump/DDServer.cpp and dataDump/DDClient.cpp have in common.
use data_dump_protocol.Base.{
  ℕ, none, some, Bool, true, false, ◌==◌, not, if◌then◌else◌, List, of_option, length,
}
use data_dump_protocol.Packet.Types.{MsgType, u8}
use data_dump_protocol.Packet.Memory.{store_bytes}
use data_dump_protocol.Packet.Header.{
  TranscationHeader, empty_header, set_msg_type, set_ack_timeout, set_blocks_per_transaction,
  set_max_packet_length, set_transaction_id,
}
use data_dump_protocol.Packet.Transaction.{TransactionPacket, empty_packet, get_packet_size}
use data_dump_protocol.DataDump.State.{Host, FsmState}
use data_dump_protocol.DataDump.Monad.{M, ◌>>=◌, ◌>>◌, pure, get, modify, outside, lift, skip, poll}
use data_dump_protocol.DataDump.Ops.{
  send_transaction, receive_transaction, timer_is_expired, get_current_fsm_state,
  get_next_fsm_state, set_current_fsm_state, set_module_status,
}

abbrev pub state_code : FsmState → ℕ
state_code FsmState.idle = 0
state_code FsmState.request = 1
state_code FsmState.response = 2
state_code FsmState.initiate_block = 3
state_code FsmState.block = 4
state_code FsmState.terminate = 5

-- The four settings that travel between the peers, copied from `h` into `config`.
abbrev pub copy_config : TranscationHeader → TranscationHeader → TranscationHeader
copy_config config h =
    set_transaction_id
      (set_max_packet_length
        (set_blocks_per_transaction (set_ack_timeout config h.max_ack_timeout)
          h.max_blocks_per_transaction)
        h.max_packetlen)
      h.transaction_id

-- The same four, set to 0.
abbrev pub clear_config : TranscationHeader → TranscationHeader
clear_config config =
    set_transaction_id
      (set_max_packet_length (set_blocks_per_transaction (set_ack_timeout config 0) 0) 0) 0

-- A packet of a type that carries the settings of `config`, with no data.
abbrev pub config_packet : MsgType → TranscationHeader → TransactionPacket
config_packet msg_type config = record empty_packet {
  header = copy_config (set_msg_type empty_header msg_type) config;
}

-- A packet of a type that carries a transaction's number only.
abbrev pub id_packet : MsgType → ℕ → TransactionPacket
id_packet msg_type id = record empty_packet {
  header = set_msg_type (set_transaction_id empty_header id) msg_type;
}

module _ {W : Type 0} (host : Host W) where
  -- `do{ stateRet=send(packet,packet.getPacketSize()); }while(stateRet==false && isExpired()==false)`
  unfoldable pub send_until : ℕ → TransactionPacket → M W Bool
  send_until rounds packet = do
    r ←
        poll rounds (λ s. send_transaction host s.1 (u8 (get_packet_size s.1))) (λ s. not s.0)
          (timer_is_expired host) (false, packet)
    pure r.0

  -- `do{ recvLen=receive(packet,type); }while(recvLen==0 && isExpired()==false)`
  unfoldable pub receive_until : ℕ → MsgType → M W (ℕ × TransactionPacket)
  receive_until rounds msg_type =
      poll rounds (λ s. receive_transaction host s.1 msg_type) (λ s. s.0 == 0)
        (timer_is_expired host) (0, empty_packet)

  -- `consumerCB(internalBuffer,…)`: its bytes go where `internal_buffer` points.
  unfoldable pub consume : (ℕ → Bool → W → List ℕ × W) → ℕ → Bool → M W ℕ
  consume callback max_size erase = do
    bytes ← outside (callback max_size erase)
    d ← get
    start ← lift (of_option d.internal_buffer)
    mem ← lift (store_bytes d.internal_memory start bytes)
    modify (λ d. record d { internal_memory = mem })
    pure (length bytes)

  -- `notifyCB(isTransferSuccess)`, if there is one.
  unfoldable pub notify : M W (Unit {0})
  notify = do
    d ← get
    elim host.notify_cb [ none ↦ skip | some f ↦ outside (λ w. (tt, f d.is_transfer_success w)) ]

  -- The head of both `FSMLoop`: the next state becomes the current one, and the object is marked busy
  -- unless it is idle. The state to act on is read once more.
  unfoldable pub enter_state : M W FsmState
  enter_state = do
    next ← get_next_fsm_state host
    current ← get_current_fsm_state host
    if state_code next == state_code current
        then skip
        else (get_next_fsm_state host >>= set_current_fsm_state host)
    current ← get_current_fsm_state host
    if state_code current == 0 then skip else set_module_status true
    get_current_fsm_state host
