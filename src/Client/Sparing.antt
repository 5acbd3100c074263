-- ===== src/Client/Sparing.antt =====
-- The loop of `DDClient` (dataDump/DDClient.cpp) keeps what its calls keep of the surroundings.
use data_dump_protocol.Base.{none, some, leb, ◌+◌, ℕ, ◌==◌, ltb, not, true, false}
use data_dump_protocol.Packet.Types.{MsgType}
use data_dump_protocol.Packet.BlockHeader.{get_continue_bit}
use data_dump_protocol.Packet.Block.{BlockTxRxPacket, empty_block, copy_out}
use data_dump_protocol.DataDump.State.{DataDump, Host, FsmState, size_sub}
use data_dump_protocol.DataDump.Monad.{◌>>=◌, ◌>>◌, get, skip}
use data_dump_protocol.DataDump.Ops.{start_state_transition_timer}
use data_dump_protocol.DataDump.Shared.{config_packet, id_packet, copy_config, clear_config}
use data_dump_protocol.DataDump.Worlds.{
  Guards, Spares, bind-Spares, then-Spares, pure-Spares, get-Spares, skip-Spares, modify-Spares,
  if-Spares, option-Spares, by_bit-Spares, poll-Spares, lift-Spares,
}
use data_dump_protocol.DataDump.Sparing.{
  receive_block-Spares, start-Spares, stop-Spares, expired-Spares, send_until-Spares,
  receive_until-Spares, notify-Spares, set_next-Spares, get_current-Spares, enter-Spares,
}
use data_dump_protocol.Client.States.{
  client_idle, client_request, client_response, client_initiate_block, await_block, store_block,
  send_ack, await_more, send_acknot, client_block, client_terminate,
}
use data_dump_protocol.Client.Loop.{client_dispatch, client_loop}

module _ {W : Type 0} {host : Host W} {V : W → Type 0} (guards : Guards host V) where
  idle-Spares : Spares V (client_idle host)
  unfolding client_idle
  idle-Spares = modify-Spares (λ d. record d { is_busy = false })

  -- The timer is started with one of the two timeouts that were agreed.
  timed-Spares :
      (timeout : DataDump → ℕ)
      → Spares V (get >>= λ d. start_state_transition_timer host (timeout d) >> skip)
  timed-Spares timeout =
      bind-Spares get-Spares λ d. then-Spares (start-Spares guards (timeout d)) skip-Spares

  request-Spares : (rounds : ℕ) → Spares V (client_request host rounds)
  unfolding client_request
  request-Spares rounds = bind-Spares (start-Spares guards 200) λ started.
      bind-Spares get-Spares λ d.
        bind-Spares
          (if-Spares started
            (send_until-Spares guards rounds (config_packet MsgType.request d.client_config))
            (pure-Spares {a = false}))
          λ sent.
            if-Spares sent
              (then-Spares (set_next-Spares guards FsmState.response)
                (timed-Spares (λ d. d.client_config.max_ack_timeout)))
              (set_next-Spares guards FsmState.terminate)

  response-Spares : (rounds : ℕ) → Spares V (client_response host rounds)
  unfolding client_response
  response-Spares rounds = bind-Spares (receive_until-Spares guards rounds MsgType.response) λ r.
      if-Spares (ltb 0 r.0)
        (then-Spares
          (modify-Spares (λ d. record d { server_config = copy_config d.server_config r.1.header }))
          (then-Spares (set_next-Spares guards FsmState.initiate_block)
            (timed-Spares (λ d. d.server_config.max_ack_timeout))))
        (set_next-Spares guards FsmState.terminate)

  initiate_block-Spares : (rounds : ℕ) → Spares V (client_initiate_block host rounds)
  unfolding client_initiate_block
  initiate_block-Spares rounds = bind-Spares get-Spares λ d.
      bind-Spares
        (if-Spares (not (d.server_config.transaction_id == 0))
          (send_until-Spares guards rounds
            (config_packet MsgType.initiate_block_transfer d.server_config))
          (pure-Spares {a = false}))
        λ sent.
          if-Spares sent
            (then-Spares (set_next-Spares guards FsmState.block)
              (timed-Spares (λ d. d.server_config.max_ack_timeout)))
            (set_next-Spares guards FsmState.terminate)

  await_block-Spares : (rounds : ℕ) → Spares V (await_block host rounds)
  unfolding await_block
  await_block-Spares rounds =
      bind-Spares
        (poll-Spares rounds (λ r. r.0 == 0)
          (λ r. receive_block-Spares guards r.1 MsgType.block_transfer) (expired-Spares guards)
          (0, empty_block))
        λ r.
          then-Spares
            (if-Spares (r.0 == 0)
              (bind-Spares (expired-Spares guards) λ expired.
                if-Spares expired skip-Spares (then-Spares (expired-Spares guards) skip-Spares))
              skip-Spares)
            (pure-Spares {a = r})

  store_block-Spares : (len : ℕ) (block : BlockTxRxPacket) → Spares V (store_block host len block)
  unfolding store_block
  store_block-Spares len block = bind-Spares get-Spares λ d.
      let size = block.header.data_buffer_size in
      if-Spares (ltb 0 len)
        (option-Spares d.internal_buffer (pure-Spares {a = false}) λ start e.
          option-Spares block.buffer (pure-Spares {a = false}) λ received e.
            if-Spares (leb size d.internal_buffer_len)
              (bind-Spares (lift-Spares (copy_out (some received) size d.internal_memory start))
                λ mem.
                  then-Spares
                    (modify-Spares (λ d. record d {
                      internal_memory = mem;
                      internal_buffer = some (start + size);
                      internal_buffer_len = size_sub d.internal_buffer_len size;
                    }))
                    (pure-Spares {a = true}))
              (pure-Spares {a = false}))
        (pure-Spares {a = false})

  send_ack-Spares : (rounds : ℕ) → Spares V (send_ack host rounds)
  unfolding send_ack
  send_ack-Spares rounds = bind-Spares get-Spares λ d.
      then-Spares (start-Spares guards d.server_config.max_ack_timeout) (
        bind-Spares
          (send_until-Spares guards rounds
            (id_packet MsgType.block_ack d.server_config.transaction_id))
          λ sent.
            then-Spares
              (if-Spares sent (modify-Spares (λ d. record d { is_transfer_success = true }))
                skip-Spares)
              (set_next-Spares guards FsmState.terminate))

  await_more-Spares : Spares V (await_more host)
  unfolding await_more
  await_more-Spares = bind-Spares (get_current-Spares guards) λ c.
      then-Spares (set_next-Spares guards c) (timed-Spares (λ d. d.server_config.max_ack_timeout))

  send_acknot-Spares : (rounds : ℕ) → Spares V (send_acknot host rounds)
  unfolding send_acknot
  send_acknot-Spares rounds = bind-Spares get-Spares λ d.
      then-Spares (start-Spares guards d.server_config.max_ack_timeout) (
        then-Spares
          (send_until-Spares guards rounds
            (id_packet MsgType.block_acknot d.server_config.transaction_id))
          (set_next-Spares guards FsmState.terminate))

  block-Spares : (rounds : ℕ) → Spares V (client_block host rounds)
  unfolding client_block
  block-Spares rounds = bind-Spares (await_block-Spares rounds) λ r.
      bind-Spares (store_block-Spares r.0 r.1) λ stored.
        if-Spares stored
          (by_bit-Spares (get_continue_bit r.1.header) (send_ack-Spares rounds) await_more-Spares)
          (send_acknot-Spares rounds)

  terminate-Spares : Spares V (client_terminate host)
  unfolding client_terminate
  terminate-Spares = then-Spares (stop-Spares guards) (
      then-Spares (notify-Spares guards) (
        then-Spares
          (modify-Spares (λ d. record d {
            is_transfer_success = false;
            server_config = clear_config d.server_config;
            internal_buffer = none;
            internal_buffer_len = 0;
          }))
          (set_next-Spares guards FsmState.idle)))

  pub dispatch-Spares : (rounds : ℕ) (s : FsmState) → Spares V (client_dispatch host rounds s)
  unfolding client_dispatch
  dispatch-Spares rounds FsmState.idle = idle-Spares
  dispatch-Spares rounds FsmState.request = request-Spares rounds
  dispatch-Spares rounds FsmState.response = response-Spares rounds
  dispatch-Spares rounds FsmState.initiate_block = initiate_block-Spares rounds
  dispatch-Spares rounds FsmState.block = block-Spares rounds
  dispatch-Spares rounds FsmState.terminate = terminate-Spares

  pub loop-Spares : (rounds : ℕ) → Spares V (client_loop host rounds)
  unfolding client_loop
  loop-Spares rounds = bind-Spares (enter-Spares guards) (dispatch-Spares rounds)
