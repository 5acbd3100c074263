-- ===== src/Server/Sparing.antt =====
-- The loop of `DDServer` (dataDump/DDServer.cpp) keeps what its calls keep of the surroundings.
use data_dump_protocol.Base.{ℕ, ◌==◌, not, ◌&&◌, true, false}
use data_dump_protocol.Packet.Types.{MsgType, u8}
use data_dump_protocol.Packet.BlockHeader.{get_continue_bit}
use data_dump_protocol.Packet.Block
use data_dump_protocol.Packet.Block.{BlockTxRxPacket}
use data_dump_protocol.Packet.Transaction.{TransactionPacket, empty_packet}
use data_dump_protocol.DataDump.State.{Host, FsmState}
use data_dump_protocol.DataDump.Shared.{config_packet}
use data_dump_protocol.DataDump.Worlds.{
  Guards, Spares, bind-Spares, then-Spares, pure-Spares, get-Spares, skip-Spares, modify-Spares,
  lift-Spares, if-Spares, option-Spares, by_bit-Spares, poll-Spares,
}
use data_dump_protocol.DataDump.Sparing.{
  send_block-Spares, receive_transaction-Spares, start-Spares, stop-Spares, expired-Spares,
  send_until-Spares, receive_until-Spares, consume-Spares, notify-Spares, set_next-Spares,
  get_current-Spares, enter-Spares,
}
use data_dump_protocol.Server.Terms.{negotiate}
use data_dump_protocol.Server.Blocks.{storage_room, next_block, take_block}
use data_dump_protocol.Server.States.{
  reset, save_client_config, server_idle, server_request, read_storage, server_response,
  server_initiate_block, send_block_until, settle_ack, await_ack, continue_blocks, server_block,
  server_terminate,
}
use data_dump_protocol.Server.Loop.{server_dispatch, server_loop}

module _ {W : Type 0} {host : Host W} {V : W → Type 0} (guards : Guards host V) where
  idle-Spares : Spares V (server_idle host)
  unfolding server_idle
  idle-Spares =
      then-Spares (stop-Spares guards)
        (then-Spares (modify-Spares reset) (modify-Spares (λ d. record d { is_busy = false })))

  request-Spares : (rounds : ℕ) → Spares V (server_request host rounds)
  unfolding server_request
  request-Spares rounds =
      bind-Spares
        (poll-Spares rounds (λ s. s.0 == 0)
          (λ s. receive_transaction-Spares guards s.1 MsgType.request) (pure-Spares {a = false})
          (0, empty_packet))
        λ r.
          if-Spares (not (r.0 == 0))
            (then-Spares (modify-Spares (save_client_config r.1)) (
              then-Spares (set_next-Spares guards FsmState.response) (
                bind-Spares get-Spares λ d.
                  then-Spares (start-Spares guards d.server_config.max_ack_timeout) skip-Spares)))
            (set_next-Spares guards FsmState.terminate)

  read_storage-Spares : Spares V (read_storage host)
  unfolding read_storage
  read_storage-Spares = bind-Spares get-Spares λ d.
      option-Spares host.consumer_cb (pure-Spares {a = false}) λ callback e.
        option-Spares d.internal_buffer (pure-Spares {a = false}) λ start at_index.
          bind-Spares
            (consume-Spares guards callback e
              (storage_room d d.client_config.max_blocks_per_transaction) false)
            λ m.
              then-Spares (modify-Spares (λ d. record d { internal_buffer_len = m }))
                (pure-Spares {a = not (m == 0)})

  response-Spares : (rounds : ℕ) → Spares V (server_response host rounds)
  unfolding server_response
  response-Spares rounds = bind-Spares get-Spares λ d.
      let response = config_packet MsgType.response (negotiate d.client_config d.server_config) in
      then-Spares (modify-Spares (save_client_config response)) (
        bind-Spares (read_storage-Spares) λ read.
          bind-Spares
            (if-Spares read (send_until-Spares guards rounds response) (pure-Spares {a = false}))
            λ sent.
              if-Spares sent
                (then-Spares (set_next-Spares guards FsmState.initiate_block) (
                  bind-Spares get-Spares λ d.
                    then-Spares (start-Spares guards d.client_config.max_ack_timeout) skip-Spares))
                (set_next-Spares guards FsmState.terminate))

  initiate_block-Spares : (rounds : ℕ) → Spares V (server_initiate_block host rounds)
  unfolding server_initiate_block
  initiate_block-Spares rounds =
      bind-Spares (receive_until-Spares guards rounds MsgType.initiate_block_transfer) λ r.
        bind-Spares get-Spares λ d.
          if-Spares (not (r.0 == 0) && d.client_config.transaction_id == r.1.header.transaction_id)
            (then-Spares (set_next-Spares guards FsmState.block) (
              bind-Spares get-Spares λ d.
                then-Spares (start-Spares guards d.client_config.max_ack_timeout)
                  (modify-Spares (λ d. record d { internal_counter = 1 }))))
            (set_next-Spares guards FsmState.terminate)

  settle_ack-Spares : (ack : TransactionPacket) → Spares V (settle_ack host ack)
  unfolding settle_ack
  settle_ack-Spares ack = option-Spares host.consumer_cb skip-Spares λ callback e.
      bind-Spares get-Spares λ d.
        if-Spares (ack.header.transaction_id == d.client_config.transaction_id)
          (bind-Spares (consume-Spares guards callback e d.internal_buffer_len true) λ m.
            if-Spares (m == d.internal_buffer_len)
              (modify-Spares (λ d. record d { is_transfer_success = true })) skip-Spares)
          skip-Spares

  await_ack-Spares : (rounds : ℕ) → Spares V (await_ack host rounds)
  unfolding await_ack
  await_ack-Spares rounds = bind-Spares (receive_until-Spares guards rounds MsgType.block_ack) λ r.
      then-Spares (if-Spares (not (r.0 == 0)) (settle_ack-Spares r.1) skip-Spares)
        (set_next-Spares guards FsmState.terminate)

  continue_blocks-Spares : Spares V (continue_blocks host)
  unfolding continue_blocks
  continue_blocks-Spares = bind-Spares (get_current-Spares guards) λ c.
      then-Spares (set_next-Spares guards c) (
        bind-Spares get-Spares
          λ d. then-Spares (start-Spares guards d.client_config.max_ack_timeout) skip-Spares)

  block-Spares : (rounds : ℕ) → Spares V (server_block host rounds)
  unfolding server_block send_block_until
  block-Spares rounds = bind-Spares get-Spares λ d.
      bind-Spares (lift-Spares (next_block d)) λ block. then-Spares (modify-Spares take_block) (
        bind-Spares
          (poll-Spares rounds not
            (λ _. send_block-Spares guards block (u8 (Block.get_packet_size block)))
            (expired-Spares guards) false)
          λ sent.
            if-Spares sent
              (by_bit-Spares (get_continue_bit block.header) (await_ack-Spares rounds)
                continue_blocks-Spares)
              (set_next-Spares guards FsmState.terminate))

  terminate-Spares : Spares V (server_terminate host)
  unfolding server_terminate
  terminate-Spares = then-Spares (stop-Spares guards) (
      then-Spares (notify-Spares guards) (
        then-Spares (modify-Spares (λ d. record d { is_transfer_success = false })) (
          then-Spares (stop-Spares guards)
            (then-Spares (modify-Spares reset) (set_next-Spares guards FsmState.request)))))

  pub dispatch-Spares : (rounds : ℕ) (s : FsmState) → Spares V (server_dispatch host rounds s)
  unfolding server_dispatch
  dispatch-Spares rounds FsmState.idle = idle-Spares
  dispatch-Spares rounds FsmState.request = request-Spares rounds
  dispatch-Spares rounds FsmState.response = response-Spares rounds
  dispatch-Spares rounds FsmState.initiate_block = initiate_block-Spares rounds
  dispatch-Spares rounds FsmState.block = block-Spares rounds
  dispatch-Spares rounds FsmState.terminate = terminate-Spares

  pub loop-Spares : (rounds : ℕ) → Spares V (server_loop host rounds)
  unfolding server_loop
  loop-Spares rounds = bind-Spares (enter-Spares guards) (dispatch-Spares rounds)
