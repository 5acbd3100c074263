-- ===== src/Client/States.antt =====
-- The cases of `DDClient::FSMLoop` (dataDump/DDClient.cpp), one function each. `rounds` bounds the
-- polls of each loop.
use data_dump_protocol.Base.{
  ℕ, ◌+◌, none, some, Bool, true, false, ltb, leb, ◌==◌, not, if◌then◌else◌,
}
use data_dump_protocol.Packet.Types.{MsgType, ContinueBit}
use data_dump_protocol.Packet.BlockHeader.{get_continue_bit}
use data_dump_protocol.Packet.Block.{BlockTxRxPacket, empty_block, copy_out}
use data_dump_protocol.DataDump.State.{Host, FsmState, size_sub}
use data_dump_protocol.DataDump.Monad.{M, ◌>>=◌, ◌>>◌, pure, get, modify, lift, skip, poll}
use data_dump_protocol.DataDump.Ops.{
  receive_block, start_state_transition_timer, stop_state_transition_timer, timer_is_expired,
  set_next_fsm_state, get_current_fsm_state, set_module_status,
}
use data_dump_protocol.DataDump.Shared.{
  copy_config, clear_config, config_packet, id_packet, send_until, receive_until, notify,
}

module _ {W : Type 0} (host : Host W) where
  unfoldable pub client_idle : M W (Unit {0})
  client_idle = set_module_status false

  unfoldable pub client_request : ℕ → M W (Unit {0})
  client_request rounds = do
    started ← start_state_transition_timer host 200
    d ← get
    sent ←
        if started
        then send_until host rounds (config_packet MsgType.request d.client_config)
        else pure false
    if sent
        then (do
          set_next_fsm_state host FsmState.response
          d ← get
          start_state_transition_timer host d.client_config.max_ack_timeout
          skip)
        else set_next_fsm_state host FsmState.terminate

  unfoldable pub client_response : ℕ → M W (Unit {0})
  client_response rounds = do
    (len, response) ← receive_until host rounds MsgType.response
    if ltb 0 len
        then (do
          modify (λ d. record d { server_config = copy_config d.server_config response.header })
          set_next_fsm_state host FsmState.initiate_block
          d ← get
          start_state_transition_timer host d.server_config.max_ack_timeout
          skip)
        else set_next_fsm_state host FsmState.terminate

  -- A server that answers with the number 0 is refused.
  unfoldable pub client_initiate_block : ℕ → M W (Unit {0})
  client_initiate_block rounds = do
    d ← get
    sent ←
        if not (d.server_config.transaction_id == 0)
        then send_until host rounds (config_packet MsgType.initiate_block_transfer d.server_config)
        else pure false
    if sent
        then (do
          set_next_fsm_state host FsmState.block
          d ← get
          start_state_transition_timer host d.server_config.max_ack_timeout
          skip)
        else set_next_fsm_state host FsmState.terminate

  -- The loop that waits for a block, and the log lines behind it, which poll the timer again.
  unfoldable pub await_block : ℕ → M W (ℕ × BlockTxRxPacket)
  await_block rounds = do
    r ←
        poll rounds (λ s. receive_block host s.1 MsgType.block_transfer) (λ s. s.0 == 0)
          (timer_is_expired host) (0, empty_block)
    if r.0 == 0
        then (do
          expired ← timer_is_expired host
          if expired then skip else (timer_is_expired host >> skip))
        else skip
    pure r

  -- The block's data goes behind what is stored already, if there is room for it.
  unfoldable pub store_block : ℕ → BlockTxRxPacket → M W Bool
  store_block len block = do
    d ← get
    let size = block.header.data_buffer_size
    if ltb 0 len
        then (elim d.internal_buffer [
          | none ↦ pure false
          | some start ↦ elim block.buffer [
            | none ↦ pure false
            | some received ↦
                if leb size d.internal_buffer_len
                then (do
                  mem ← lift (copy_out (some received) size d.internal_memory start)
                  modify (λ d. record d {
                    internal_memory = mem;
                    internal_buffer = some (start + size);
                    internal_buffer_len = size_sub d.internal_buffer_len size;
                  })
                  pure true)
                else pure false
          ]
        ])
        else pure false

  -- BLOCK_ACK behind the last block: its success is the client's success.
  unfoldable pub send_ack : ℕ → M W (Unit {0})
  send_ack rounds = do
    d ← get
    start_state_transition_timer host d.server_config.max_ack_timeout
    sent ← send_until host rounds (id_packet MsgType.block_ack d.server_config.transaction_id)
    if sent then modify (λ d. record d { is_transfer_success = true }) else skip
    set_next_fsm_state host FsmState.terminate

  unfoldable pub await_more : M W (Unit {0})
  await_more = do
    current ← get_current_fsm_state host
    set_next_fsm_state host current
    d ← get
    start_state_transition_timer host d.server_config.max_ack_timeout
    skip

  unfoldable pub send_acknot : ℕ → M W (Unit {0})
  send_acknot rounds = do
    d ← get
    start_state_transition_timer host d.server_config.max_ack_timeout
    send_until host rounds (id_packet MsgType.block_acknot d.server_config.transaction_id)
    set_next_fsm_state host FsmState.terminate

  unfoldable pub client_block : ℕ → M W (Unit {0})
  client_block rounds = do
    (len, block) ← await_block rounds
    stored ← store_block len block
    if stored
        then (elim (get_continue_bit block.header) [
          | ContinueBit.terminate_transfer ↦ send_ack rounds
          | ContinueBit.continue_transfer ↦ await_more
        ])
        else send_acknot rounds

  unfoldable pub client_terminate : M W (Unit {0})
  client_terminate = do
    stop_state_transition_timer host
    notify host
    modify (λ d. record d {
      is_transfer_success = false;
      server_config = clear_config d.server_config;
      internal_buffer = none;
      internal_buffer_len = 0;
    })
    set_next_fsm_state host FsmState.idle
