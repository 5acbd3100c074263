-- ===== src/Client/Moves.antt =====
-- The cases of `DDClient::FSMLoop` (dataDump/DDClient.cpp), followed call by call.
use data_dump_protocol.Base.{sym, subst, none, some, leb, ◌+◌, ◌≡◌, ℕ, ◌==◌, ltb, not, true, false}
use data_dump_protocol.Packet.Types.{MsgType}
use data_dump_protocol.Packet.BlockHeader.{get_continue_bit}
use data_dump_protocol.Packet.Block.{BlockTxRxPacket, empty_block, copy_out}
use data_dump_protocol.DataDump.State.{DataDump, Host, FsmState, size_sub}
use data_dump_protocol.DataDump.Monad.{M, pure, ◌>>=◌, ◌>>◌, get, skip}
use data_dump_protocol.DataDump.Ops.{
  set_next_fsm_state, get_current_fsm_state, start_state_transition_timer,
}
use data_dump_protocol.DataDump.Shared.{config_packet, id_packet, copy_config, clear_config}
use data_dump_protocol.DataDump.Phase.{
  Takes, Keeps, known-Takes, lifted-Takes, tested-Takes, bind-Takes, then-Takes, pure-Keeps,
  get-Keeps, skip-Keeps, modify-Takes, if-Takes, option-Takes, by_bit-Takes, poll-Keeps,
}
use data_dump_protocol.DataDump.Quiet.{
  receive_block-Keeps, start-Keeps, stop-Keeps, expired-Keeps, send_until-Keeps,
  receive_until-Keeps, notify-Keeps,
}
use data_dump_protocol.Client.States.{
  client_idle, client_request, client_response, client_initiate_block, await_block, store_block,
  send_ack, await_more, send_acknot, client_block, client_terminate,
}
use data_dump_protocol.Client.Loop.{client_dispatch}
use data_dump_protocol.Client.Steady.{
  ClientEdge, ClientSteady, requested, answered, initiated, not_requested, no_answer, not_initiated,
  last_block, ended,
}

-- What a `case` of the loop makes of an object: `A` holds before it and `B s` after the case `s`.
-- `to` and `again` say what asking for a state does.
module _ {W : Type 0} (host : Host W) (c : FsmState) (A : DataDump → Type 0)
    (B : FsmState → DataDump → Type 0) (steady : ClientSteady A)
    (rests : (d : DataDump) → A d → B FsmState.idle (record d { is_busy = false }))
    (to : (s t : FsmState) → ClientEdge c s t → Takes A (B s) (set_next_fsm_state host t))
    (again : (k : M W (Unit {0}))
      → Keeps (B FsmState.block) k
      → Takes A
          (B FsmState.block)
          (get_current_fsm_state host >>= λ c'. set_next_fsm_state host c' >> k)) where
  idle-Keeps : Takes A (B FsmState.idle) (client_idle host)
  unfolding client_idle
  idle-Keeps = modify-Takes (λ d. record d { is_busy = false }) rests

  -- The timer is started with one of the two timeouts that were agreed.
  timed-Keeps :
      (s : FsmState) (timeout : DataDump → ℕ)
      → Keeps (B s) (get >>= λ d. start_state_transition_timer host (timeout d) >> skip)
  timed-Keeps s timeout =
      bind-Takes get-Keeps λ d. then-Takes (start-Keeps _ host (timeout d)) skip-Keeps

  request-Keeps : (rounds : ℕ) → Takes A (B FsmState.request) (client_request host rounds)
  unfolding client_request
  request-Keeps rounds = bind-Takes (start-Keeps _ host 200) λ started. bind-Takes get-Keeps λ d.
      bind-Takes
        (if-Takes started
          (send_until-Keeps _ host rounds (config_packet MsgType.request d.client_config))
          (pure-Keeps {a = false}))
        λ sent.
          if-Takes sent
            (then-Takes (to _ FsmState.response requested)
              (timed-Keeps FsmState.request (λ d. d.client_config.max_ack_timeout)))
            (to _ FsmState.terminate not_requested)

  response-Keeps : (rounds : ℕ) → Takes A (B FsmState.response) (client_response host rounds)
  unfolding client_response
  response-Keeps rounds = bind-Takes (receive_until-Keeps _ host rounds MsgType.response) λ r.
      if-Takes (ltb 0 r.0)
        (then-Takes
          (modify-Takes (λ d. record d { server_config = copy_config d.server_config r.1.header })
            (λ d. steady.saves d _))
          (then-Takes (to _ FsmState.initiate_block answered)
            (timed-Keeps FsmState.response (λ d. d.server_config.max_ack_timeout))))
        (to _ FsmState.terminate no_answer)

  initiate_block-Keeps :
      (rounds : ℕ) → Takes A (B FsmState.initiate_block) (client_initiate_block host rounds)
  unfolding client_initiate_block
  initiate_block-Keeps rounds = bind-Takes get-Keeps λ d.
      bind-Takes
        (if-Takes (not (d.server_config.transaction_id == 0))
          (send_until-Keeps _ host rounds
            (config_packet MsgType.initiate_block_transfer d.server_config))
          (pure-Keeps {a = false}))
        λ sent.
          if-Takes sent
            (then-Takes (to _ FsmState.block initiated)
              (timed-Keeps FsmState.initiate_block (λ d. d.server_config.max_ack_timeout)))
            (to _ FsmState.terminate not_initiated)

  await_block-Keeps : (rounds : ℕ) → Keeps A (await_block host rounds)
  unfolding await_block
  await_block-Keeps rounds =
      bind-Takes
        (poll-Keeps rounds (λ r. r.0 == 0)
          (λ r. receive_block-Keeps _ host r.1 MsgType.block_transfer) (expired-Keeps _ host)
          (0, empty_block))
        λ r.
          then-Takes
            (if-Takes (r.0 == 0)
              (bind-Takes (expired-Keeps _ host) λ expired.
                if-Takes expired skip-Keeps (then-Takes (expired-Keeps _ host) skip-Keeps))
              skip-Keeps)
            (pure-Keeps {a = r})

  store_block-Keeps : (len : ℕ) (block : BlockTxRxPacket) → Keeps A (store_block host len block)
  unfolding store_block
  store_block-Keeps len block = known-Takes λ d a.
      if-Takes (ltb 0 len)
        (option-Takes d.internal_buffer (kept d a) λ start at_index.
          option-Takes block.buffer (kept d a) λ received e.
            tested-Takes (leb block.header.data_buffer_size d.internal_buffer_len)
              (λ room.
                lifted-Takes
                  (copy_out (some received) block.header.data_buffer_size d.internal_memory start)
                  λ mem copied.
                    then-Takes
                      (modify-Takes
                        (λ d. record d {
                          internal_memory = mem;
                          internal_buffer = some (start + block.header.data_buffer_size);
                          internal_buffer_len =
                              size_sub d.internal_buffer_len block.header.data_buffer_size;
                        })
                        (λ d' e.
                          subst
                            (λ d. A (record d {
                              internal_memory = mem;
                              internal_buffer = some (start + block.header.data_buffer_size);
                              internal_buffer_len =
                                  size_sub d.internal_buffer_len block.header.data_buffer_size;
                            }))
                            (sym e)
                            (steady.stores d start block.header.data_buffer_size received mem
                              at_index room copied a)))
                      (pure-Keeps {a = true}))
              (λ full. kept d a))
        (kept d a)
    where
      kept : (d : DataDump) → A d → Takes {W = W} (λ d'. d' ≡ d) A (pure false)
      kept d a = record { takes = λ d' w e. subst A (sym e) a }

  send_ack-Keeps : (rounds : ℕ) → Takes A (B FsmState.block) (send_ack host rounds)
  unfolding send_ack
  send_ack-Keeps rounds = bind-Takes get-Keeps λ d.
      then-Takes (start-Keeps _ host d.server_config.max_ack_timeout) (
        bind-Takes
          (send_until-Keeps _ host rounds
            (id_packet MsgType.block_ack d.server_config.transaction_id))
          λ sent.
            then-Takes
              (if-Takes sent
                (modify-Takes (λ d. record d { is_transfer_success = true })
                  (λ d. steady.marks d true))
                skip-Keeps)
              (to _ FsmState.terminate last_block))

  await_more-Keeps : Takes A (B FsmState.block) (await_more host)
  unfolding await_more
  await_more-Keeps = again _ (timed-Keeps FsmState.block (λ d. d.server_config.max_ack_timeout))

  send_acknot-Keeps : (rounds : ℕ) → Takes A (B FsmState.block) (send_acknot host rounds)
  unfolding send_acknot
  send_acknot-Keeps rounds = bind-Takes get-Keeps λ d.
      then-Takes (start-Keeps _ host d.server_config.max_ack_timeout) (
        then-Takes
          (send_until-Keeps _ host rounds
            (id_packet MsgType.block_acknot d.server_config.transaction_id))
          (to _ FsmState.terminate last_block))

  block-Keeps : (rounds : ℕ) → Takes A (B FsmState.block) (client_block host rounds)
  unfolding client_block
  block-Keeps rounds = bind-Takes (await_block-Keeps rounds) λ r.
      bind-Takes (store_block-Keeps r.0 r.1) λ stored.
        if-Takes stored
          (by_bit-Takes (get_continue_bit r.1.header) (send_ack-Keeps rounds) await_more-Keeps)
          (send_acknot-Keeps rounds)

  terminate-Keeps : Takes A (B FsmState.terminate) (client_terminate host)
  unfolding client_terminate
  terminate-Keeps = then-Takes (stop-Keeps _ host) (
      then-Takes (notify-Keeps _ host) (
        then-Takes
          (modify-Takes
            (λ d. record d {
              is_transfer_success = false;
              server_config = clear_config d.server_config;
              internal_buffer = none;
              internal_buffer_len = 0;
            })
            (λ d q. steady.clears _ (steady.saves _ _ (steady.marks d false q))))
          (to _ FsmState.idle ended)))

  pub dispatch-Takes : (rounds : ℕ) (s : FsmState) → Takes A (B s) (client_dispatch host rounds s)
  unfolding client_dispatch
  dispatch-Takes rounds FsmState.idle = idle-Keeps
  dispatch-Takes rounds FsmState.request = request-Keeps rounds
  dispatch-Takes rounds FsmState.response = response-Keeps rounds
  dispatch-Takes rounds FsmState.initiate_block = initiate_block-Keeps rounds
  dispatch-Takes rounds FsmState.block = block-Keeps rounds
  dispatch-Takes rounds FsmState.terminate = terminate-Keeps
