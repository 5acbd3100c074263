-- ===== src/Server/Moves.antt =====
-- The cases of `DDServer::FSMLoop` (dataDump/DDServer.cpp), followed call by call.
use data_dump_protocol.Base.{ℕ, ◌==◌, not, ◌&&◌, true, false}
use data_dump_protocol.Packet.Types.{MsgType, u8}
use data_dump_protocol.Packet.BlockHeader.{get_continue_bit}
use data_dump_protocol.Packet.Block
use data_dump_protocol.Packet.Block.{BlockTxRxPacket}
use data_dump_protocol.Packet.Transaction.{TransactionPacket, empty_packet}
use data_dump_protocol.DataDump.State.{DataDump, Host, FsmState}
use data_dump_protocol.DataDump.Monad.{M, ◌>>=◌, ◌>>◌}
use data_dump_protocol.DataDump.Ops.{set_next_fsm_state, get_current_fsm_state}
use data_dump_protocol.DataDump.Shared.{config_packet}
use data_dump_protocol.DataDump.Phase.{
  Takes, Keeps, bind-Takes, then-Takes, pure-Keeps, get-Keeps, skip-Keeps, modify-Takes, lift-Keeps,
  if-Takes, option-Takes, by_bit-Takes, poll-Keeps,
}
use data_dump_protocol.DataDump.Quiet.{
  send_block-Keeps, receive_transaction-Keeps, start-Keeps, stop-Keeps, expired-Keeps,
  send_until-Keeps, receive_until-Keeps, consume-Keeps, notify-Keeps,
}
use data_dump_protocol.Server.Terms.{negotiate}
use data_dump_protocol.Server.Blocks.{storage_room, next_block, take_block}
use data_dump_protocol.Server.States.{
  reset, save_client_config, server_idle, server_request, read_storage, server_response,
  server_initiate_block, send_block_until, settle_ack, await_ack, continue_blocks, server_block,
  server_terminate,
}
use data_dump_protocol.Server.Loop.{server_dispatch}
use data_dump_protocol.Server.Steady.{
  ServerEdge, ServerSteady, requested, answered, initiated, no_request, no_answer, not_initiated,
  last_block, ended,
}

-- What a `case` of the loop makes of an object: `A` holds before it and `B s` after the case `s`.
-- `to` and `again` say what asking for a state does.
module _ {W : Type 0} (host : Host W) (c : FsmState) (A : DataDump → Type 0)
    (B : FsmState → DataDump → Type 0) (steady : ServerSteady A)
    (rests : (d : DataDump) → A d → B FsmState.idle (record d { is_busy = false }))
    (counts : (d : DataDump)
      → B FsmState.initiate_block d
      → B FsmState.initiate_block (record d { internal_counter = 1 }))
    (to : (s t : FsmState) → ServerEdge c s t → Takes A (B s) (set_next_fsm_state host t))
    (again : (k : M W (Unit {0}))
      → Keeps (B FsmState.block) k
      → Takes A
          (B FsmState.block)
          (get_current_fsm_state host >>= λ c'. set_next_fsm_state host c' >> k)) where
  idle-Keeps : Takes A (B FsmState.idle) (server_idle host)
  unfolding server_idle
  idle-Keeps = then-Takes (stop-Keeps _ host) (
      then-Takes
        (modify-Takes reset (λ d q. steady.reads _ 0 (steady.saves _ _ (steady.marks d false q))))
        (modify-Takes (λ d. record d { is_busy = false }) rests))

  request-Keeps : (rounds : ℕ) → Takes A (B FsmState.request) (server_request host rounds)
  unfolding server_request
  request-Keeps rounds =
      bind-Takes
        (poll-Keeps rounds (λ s. s.0 == 0)
          (λ s. receive_transaction-Keeps _ host s.1 MsgType.request) (pure-Keeps {a = false})
          (0, empty_packet))
        λ r.
          if-Takes (not (r.0 == 0))
            (then-Takes (modify-Takes (save_client_config r.1) (λ d. steady.saves d _)) (
              then-Takes (to _ FsmState.response requested) (
                bind-Takes get-Keeps
                  λ d. then-Takes (start-Keeps _ host d.server_config.max_ack_timeout) skip-Keeps)))
            (to _ FsmState.terminate no_request)

  read_storage-Keeps : Keeps A (read_storage host)
  unfolding read_storage
  read_storage-Keeps = bind-Takes get-Keeps λ d.
      option-Takes host.consumer_cb (pure-Keeps {a = false}) λ callback e.
        option-Takes d.internal_buffer (pure-Keeps {a = false}) λ start e.
          bind-Takes
            (consume-Keeps _ host steady.writes callback
              (storage_room d d.client_config.max_blocks_per_transaction) false)
            λ m.
              then-Takes
                (modify-Takes (λ d. record d { internal_buffer_len = m }) (λ d. steady.reads d m))
                (pure-Keeps {a = not (m == 0)})

  response-Keeps : (rounds : ℕ) → Takes A (B FsmState.response) (server_response host rounds)
  unfolding server_response
  response-Keeps rounds = bind-Takes get-Keeps λ d.
      let response = config_packet MsgType.response (negotiate d.client_config d.server_config) in
      then-Takes (modify-Takes (save_client_config response) (λ d. steady.saves d _)) (
        bind-Takes (read_storage-Keeps) λ read.
          bind-Takes
            (if-Takes read (send_until-Keeps _ host rounds response) (pure-Keeps {a = false}))
            λ sent.
              if-Takes sent
                (then-Takes (to _ FsmState.initiate_block answered) (
                  bind-Takes get-Keeps λ d.
                    then-Takes (start-Keeps _ host d.client_config.max_ack_timeout) skip-Keeps))
                (to _ FsmState.terminate no_answer))

  initiate_block-Keeps :
      (rounds : ℕ) → Takes A (B FsmState.initiate_block) (server_initiate_block host rounds)
  unfolding server_initiate_block
  initiate_block-Keeps rounds =
      bind-Takes (receive_until-Keeps _ host rounds MsgType.initiate_block_transfer) λ r.
        bind-Takes get-Keeps λ d.
          if-Takes (not (r.0 == 0) && d.client_config.transaction_id == r.1.header.transaction_id)
            (then-Takes (to _ FsmState.block initiated) (
              bind-Takes get-Keeps λ d.
                then-Takes (start-Keeps _ host d.client_config.max_ack_timeout)
                  (modify-Takes (λ d. record d { internal_counter = 1 }) counts)))
            (to _ FsmState.terminate not_initiated)

  settle_ack-Keeps : (ack : TransactionPacket) → Keeps A (settle_ack host ack)
  unfolding settle_ack
  settle_ack-Keeps ack = option-Takes host.consumer_cb skip-Keeps λ callback e.
      bind-Takes get-Keeps λ d.
        if-Takes (ack.header.transaction_id == d.client_config.transaction_id)
          (bind-Takes (consume-Keeps _ host steady.writes callback d.internal_buffer_len true) λ m.
            if-Takes (m == d.internal_buffer_len)
              (modify-Takes (λ d. record d { is_transfer_success = true })
                (λ d. steady.marks d true))
              skip-Keeps)
          skip-Keeps

  await_ack-Keeps : (rounds : ℕ) → Takes A (B FsmState.block) (await_ack host rounds)
  unfolding await_ack
  await_ack-Keeps rounds = bind-Takes (receive_until-Keeps _ host rounds MsgType.block_ack) λ r.
      then-Takes (if-Takes (not (r.0 == 0)) (settle_ack-Keeps r.1) skip-Keeps)
        (to _ FsmState.terminate last_block)

  continue_blocks-Keeps : Takes A (B FsmState.block) (continue_blocks host)
  unfolding continue_blocks
  continue_blocks-Keeps = again _ (
      bind-Takes get-Keeps
        λ d. then-Takes (start-Keeps _ host d.client_config.max_ack_timeout) skip-Keeps)

  block-Keeps : (rounds : ℕ) → Takes A (B FsmState.block) (server_block host rounds)
  unfolding server_block send_block_until
  block-Keeps rounds = bind-Takes get-Keeps λ d. bind-Takes (lift-Keeps (next_block d)) λ block.
      then-Takes (modify-Takes take_block steady.cuts) (
        bind-Takes
          (poll-Keeps rounds not
            (λ _. send_block-Keeps _ host block (u8 (Block.get_packet_size block)))
            (expired-Keeps _ host) false)
          λ sent.
            if-Takes sent
              (by_bit-Takes (get_continue_bit block.header) (await_ack-Keeps rounds)
                continue_blocks-Keeps)
              (to _ FsmState.terminate last_block))

  terminate-Keeps : Takes A (B FsmState.terminate) (server_terminate host)
  unfolding server_terminate
  terminate-Keeps = then-Takes (stop-Keeps _ host) (
      then-Takes (notify-Keeps _ host) (
        then-Takes
          (modify-Takes (λ d. record d { is_transfer_success = false }) (λ d. steady.marks d false))
          (then-Takes (stop-Keeps _ host) (
            then-Takes
              (modify-Takes reset
                (λ d q. steady.reads _ 0 (steady.saves _ _ (steady.marks d false q))))
              (to _ FsmState.request ended)))))

  pub dispatch-Takes : (rounds : ℕ) (s : FsmState) → Takes A (B s) (server_dispatch host rounds s)
  unfolding server_dispatch
  dispatch-Takes rounds FsmState.idle = idle-Keeps
  dispatch-Takes rounds FsmState.request = request-Keeps rounds
  dispatch-Takes rounds FsmState.response = response-Keeps rounds
  dispatch-Takes rounds FsmState.initiate_block = initiate_block-Keeps rounds
  dispatch-Takes rounds FsmState.block = block-Keeps rounds
  dispatch-Takes rounds FsmState.terminate = terminate-Keeps
