-- ===== src/Server/States.antt =====
-- The cases of `DDServer::FSMLoop` (dataDump/DDServer.cpp), one function each. `rounds` bounds the
-- polls of each loop.
use data_dump_protocol.Base.{ℕ, none, some, Bool, true, false, ◌&&◌, ◌==◌, not, if◌then◌else◌}
use data_dump_protocol.Packet.Types.{MsgType, ContinueBit, u8}
use data_dump_protocol.Packet.BlockHeader.{get_continue_bit}
use data_dump_protocol.Packet.Transaction.{TransactionPacket, empty_packet}
use data_dump_protocol.Packet.Block
use data_dump_protocol.Packet.Block.{BlockTxRxPacket}
use data_dump_protocol.DataDump.State.{DataDump, Host, FsmState}
use data_dump_protocol.DataDump.Monad.{M, ◌>>=◌, ◌>>◌, pure, get, modify, lift, skip, poll}
use data_dump_protocol.DataDump.Ops.{
  send_block, receive_transaction, start_state_transition_timer, stop_state_transition_timer,
  timer_is_expired, set_next_fsm_state, get_current_fsm_state, set_module_status,
}
use data_dump_protocol.DataDump.Shared.{
  copy_config, clear_config, config_packet, send_until, receive_until, consume, notify,
}
use data_dump_protocol.Server.Terms.{negotiate}
use data_dump_protocol.Server.Blocks.{storage_room, take_block, next_block}

-- What the states IDLE and TERMINATE reset.
abbrev pub reset : DataDump → DataDump
reset d = record d {
  is_transfer_success = false;
  client_config = clear_config d.client_config;
  internal_buffer_len = 0;
}

abbrev pub save_client_config : TransactionPacket → DataDump → DataDump
save_client_config p d = record d { client_config = copy_config d.client_config p.header }

module _ {W : Type 0} (host : Host W) where
  unfoldable pub server_idle : M W (Unit {0})
  server_idle = do stop_state_transition_timer host; modify reset; set_module_status false

  -- The loop waits for a request and for nothing else.
  unfoldable pub server_request : ℕ → M W (Unit {0})
  server_request rounds = do
    (len, request) ←
        poll rounds (λ s. receive_transaction host s.1 MsgType.request) (λ s. s.0 == 0) (pure false)
          (0, empty_packet)
    if not (len == 0)
        then (do
          modify (save_client_config request)
          set_next_fsm_state host FsmState.response
          d ← get
          start_state_transition_timer host d.server_config.max_ack_timeout
          skip)
        else set_next_fsm_state host FsmState.terminate

  -- `if(consumerCB!=NULL && internalBuffer!=NULL)`: the data is read, and there must be some.
  unfoldable pub read_storage : M W Bool
  read_storage = do
    d ← get
    elim host.consumer_cb [
      | none ↦ pure false
      | some callback ↦ elim d.internal_buffer [
        | none ↦ pure false
        | some start ↦ (do
          n ←
              consume host callback (storage_room d d.client_config.max_blocks_per_transaction)
                false
          modify (λ d. record d { internal_buffer_len = n })
          pure (not (n == 0)))
      ]
    ]

  unfoldable pub server_response : ℕ → M W (Unit {0})
  server_response rounds = do
    d ← get
    let response = config_packet MsgType.response (negotiate d.client_config d.server_config)
    modify (save_client_config response)
    read ← read_storage
    sent ← if read then send_until host rounds response else pure false
    if sent
        then (do
          set_next_fsm_state host FsmState.initiate_block
          d ← get
          start_state_transition_timer host d.client_config.max_ack_timeout
          skip)
        else set_next_fsm_state host FsmState.terminate

  unfoldable pub server_initiate_block : ℕ → M W (Unit {0})
  server_initiate_block rounds = do
    (len, initiate) ← receive_until host rounds MsgType.initiate_block_transfer
    d ← get
    if not (len == 0) && d.client_config.transaction_id == initiate.header.transaction_id
        then (do
          set_next_fsm_state host FsmState.block
          d ← get
          start_state_transition_timer host d.client_config.max_ack_timeout
          modify (λ d. record d { internal_counter = 1 }))
        else set_next_fsm_state host FsmState.terminate

  -- `do{ stateRet=send(block,block.getPacketSize()); }while(stateRet==false && isExpired()==false)`
  unfoldable pub send_block_until : ℕ → BlockTxRxPacket → M W Bool
  send_block_until rounds block =
      poll rounds (λ _. send_block host block (u8 (Block.get_packet_size block))) not
        (timer_is_expired host) false

  -- The ACK counts if the storage takes the data back and the number is the transaction's.
  unfoldable pub settle_ack : TransactionPacket → M W (Unit {0})
  settle_ack ack = elim host.consumer_cb [
    | none ↦ skip
    | some callback ↦ (do
      d ← get
      if ack.header.transaction_id == d.client_config.transaction_id
          then (do
            n ← consume host callback d.internal_buffer_len true
            if n == d.internal_buffer_len
                then modify (λ d. record d { is_transfer_success = true })
                else skip)
          else skip)
  ]

  unfoldable pub await_ack : ℕ → M W (Unit {0})
  await_ack rounds = do
    (len, ack) ← receive_until host rounds MsgType.block_ack
    if not (len == 0) then settle_ack ack else skip
    set_next_fsm_state host FsmState.terminate

  unfoldable pub continue_blocks : M W (Unit {0})
  continue_blocks = do
    current ← get_current_fsm_state host
    set_next_fsm_state host current
    d ← get
    start_state_transition_timer host d.client_config.max_ack_timeout
    skip

  unfoldable pub server_block : ℕ → M W (Unit {0})
  server_block rounds = do
    d ← get
    block ← lift (next_block d)
    modify take_block
    sent ← send_block_until rounds block
    if sent
        then (elim (get_continue_bit block.header) [
          | ContinueBit.terminate_transfer ↦ await_ack rounds
          | ContinueBit.continue_transfer ↦ continue_blocks
        ])
        else set_next_fsm_state host FsmState.terminate

  unfoldable pub server_terminate : M W (Unit {0})
  server_terminate = do
    stop_state_transition_timer host
    notify host
    modify (λ d. record d { is_transfer_success = false })
    stop_state_transition_timer host
    modify reset
    set_next_fsm_state host FsmState.request
