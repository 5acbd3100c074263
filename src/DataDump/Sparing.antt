-- ===== src/DataDump/Sparing.antt =====
-- The methods of dataDump/DDBase.cpp, and the steps that both machines share, keep what their calls
-- keep of the surroundings.
use data_dump_protocol.Base.{
  ℕ, some, Bool, true, false, if◌then◌else◌, List, ◌==◌, not, of_option, take, replicate, ltb, leb,
  length, ◌*◌, ◌≡◌,
}
use data_dump_protocol.Packet.Types.{MsgType, u8}
use data_dump_protocol.Packet.Memory.{store_bytes}
use data_dump_protocol.Packet.Transaction
use data_dump_protocol.Packet.Transaction.{TransactionPacket, empty_packet, get_packet_size}
use data_dump_protocol.Packet.Block
use data_dump_protocol.Packet.Block.{BlockTxRxPacket}
use data_dump_protocol.DataDump.State.{Host, FsmState, Mutex}
use data_dump_protocol.DataDump.Monad.{outside}
use data_dump_protocol.DataDump.Accept.{accept_transaction, accept_block}
use data_dump_protocol.DataDump.Ops.{
  call_send, call_recv, send_transaction, send_block, receive_bytes, receive_transaction,
  receive_block, start_state_transition_timer, stop_state_transition_timer, timer_is_expired,
  set_next_fsm_state, set_current_fsm_state, get_current_fsm_state, get_next_fsm_state,
}
use data_dump_protocol.DataDump.Shared.{
  send_until, receive_until, consume, notify, enter_state, state_code,
}
use data_dump_protocol.DataDump.Worlds.{
  Guards, Spares, bind-Spares, then-Spares, pure-Spares, get-Spares, skip-Spares, modify-Spares,
  outside-Spares, lift-Spares, if-Spares, option-Spares, poll-Spares,
}

module _ {W : Type 0} {host : Host W} {V : W → Type 0} (guards : Guards host V) where
  call_send-Spares : (bytes : List ℕ) → Spares V (call_send host bytes)
  call_send-Spares bytes =
      option-Spares host.send_cb pure-Spares
        (λ f e. outside-Spares (f bytes) (guards.sends f e bytes))

  call_recv-Spares : (max_length : ℕ) → Spares V (call_recv host max_length)
  call_recv-Spares max_length =
      option-Spares host.recv_cb pure-Spares
        (λ f e. outside-Spares (f max_length) (guards.receives f e max_length))

  pub send_transaction-Spares :
      (packet : TransactionPacket) (len : ℕ) → Spares V (send_transaction host packet len)
  unfolding send_transaction
  send_transaction-Spares packet len = bind-Spares get-Spares λ d.
      if-Spares (ltb d.max_packet_size len) pure-Spares (
        bind-Spares
          (lift-Spares (Transaction.serialize packet (replicate d.max_packet_size 0) (some 0) len))
          λ r. bind-Spares (call_send-Spares (take len r.2)) λ ret. pure-Spares)

  pub send_block-Spares :
      (packet : BlockTxRxPacket) (len : ℕ) → Spares V (send_block host packet len)
  unfolding send_block
  send_block-Spares packet len = bind-Spares get-Spares λ d.
      if-Spares (ltb d.max_packet_size len) pure-Spares (
        bind-Spares
          (lift-Spares
            (Block.serialize packet (replicate d.max_packet_size 0) (some 0) d.max_packet_size))
          λ r.
            if-Spares (leb (u8 r.0) d.max_packet_size) (call_send-Spares (take (u8 r.0) r.2))
              pure-Spares)

  receive_bytes-Spares : Spares V (receive_bytes host)
  unfolding receive_bytes
  receive_bytes-Spares = bind-Spares get-Spares λ d.
      bind-Spares (call_recv-Spares d.max_packet_size) λ bytes.
        bind-Spares (lift-Spares (store_bytes (replicate d.max_packet_size 0) 0 bytes))
          λ buffer. pure-Spares

  pub receive_transaction-Spares :
      (packet : TransactionPacket) (msg_type : MsgType)
      → Spares V (receive_transaction host packet msg_type)
  unfolding receive_transaction
  receive_transaction-Spares packet msg_type =
      bind-Spares receive_bytes-Spares λ r. lift-Spares (accept_transaction packet msg_type r.0 r.1)

  pub receive_block-Spares :
      (packet : BlockTxRxPacket) (msg_type : MsgType)
      → Spares V (receive_block host packet msg_type)
  unfolding receive_block
  receive_block-Spares packet msg_type =
      bind-Spares receive_bytes-Spares λ r. lift-Spares (accept_block packet msg_type r.0 r.1)

  pub start-Spares : (timeout : ℕ) → Spares V (start_state_transition_timer host timeout)
  unfolding start_state_transition_timer
  start-Spares timeout =
      outside-Spares (host.timer_start (timeout * 100)) (guards.starts (timeout * 100))

  pub stop-Spares : Spares V (stop_state_transition_timer host)
  unfolding stop_state_transition_timer
  stop-Spares = outside-Spares host.timer_stop guards.stops

  pub expired-Spares : Spares V (timer_is_expired host)
  unfolding timer_is_expired
  expired-Spares = outside-Spares host.timer_is_expired guards.expires

  locked-Spares : (m : Mutex) → Spares V (outside (host.try_lock m))
  locked-Spares m = outside-Spares (host.try_lock m) (guards.locks m)

  pub set_next-Spares : (s : FsmState) → Spares V (set_next_fsm_state host s)
  unfolding set_next_fsm_state
  set_next-Spares s =
      bind-Spares (locked-Spares Mutex.nxt_mutex)
        λ locked. if-Spares locked (modify-Spares (λ d. record d { next_state = s })) skip-Spares

  set_current-Spares : (s : FsmState) → Spares V (set_current_fsm_state host s)
  unfolding set_current_fsm_state
  set_current-Spares s =
      bind-Spares (locked-Spares Mutex.cur_mutex)
        λ locked. if-Spares locked (modify-Spares (λ d. record d { current_state = s })) skip-Spares

  pub get_current-Spares : Spares V (get_current_fsm_state host)
  unfolding get_current_fsm_state
  get_current-Spares = bind-Spares (locked-Spares Mutex.cur_mutex) λ locked.
      bind-Spares get-Spares
        λ d. pure-Spares {a = if locked then d.current_state else FsmState.terminate}

  get_next-Spares : Spares V (get_next_fsm_state host)
  unfolding get_next_fsm_state
  get_next-Spares = bind-Spares (locked-Spares Mutex.nxt_mutex) λ locked.
      bind-Spares get-Spares
        λ d. pure-Spares {a = if locked then d.next_state else FsmState.terminate}

  pub send_until-Spares :
      (rounds : ℕ) (packet : TransactionPacket) → Spares V (send_until host rounds packet)
  unfolding send_until
  send_until-Spares rounds packet =
      bind-Spares
        (poll-Spares rounds (λ s. not s.0)
          (λ s. send_transaction-Spares s.1 (u8 (get_packet_size s.1))) expired-Spares
          (false, packet))
        λ r. pure-Spares

  pub receive_until-Spares :
      (rounds : ℕ) (msg_type : MsgType) → Spares V (receive_until host rounds msg_type)
  unfolding receive_until
  receive_until-Spares rounds msg_type =
      poll-Spares rounds (λ s. s.0 == 0) (λ s. receive_transaction-Spares s.1 msg_type)
        expired-Spares (0, empty_packet)

  pub consume-Spares :
      (callback : ℕ → Bool → W → List ℕ × W)
      → host.consumer_cb ≡ some callback
      → (max_size : ℕ) (erase : Bool) → Spares V (consume host callback max_size erase)
  unfolding consume
  consume-Spares callback given max_size erase =
      bind-Spares
        (outside-Spares (callback max_size erase) (guards.consumes callback given max_size erase))
        λ bytes. bind-Spares get-Spares λ d.
          bind-Spares (lift-Spares (of_option d.internal_buffer)) λ start.
            bind-Spares (lift-Spares (store_bytes d.internal_memory start bytes)) λ mem.
              then-Spares (modify-Spares (λ d. record d { internal_memory = mem }))
                (pure-Spares {a = length bytes})

  pub notify-Spares : Spares V (notify host)
  unfolding notify
  notify-Spares = bind-Spares get-Spares λ d. option-Spares host.notify_cb skip-Spares λ f e.
      outside-Spares (λ w. (tt, f d.is_transfer_success w))
        (guards.notifies f e d.is_transfer_success)

  pub enter-Spares : Spares V (enter_state host)
  unfolding enter_state
  enter-Spares = bind-Spares get_next-Spares λ next. bind-Spares get_current-Spares λ current.
      then-Spares
        (if-Spares (state_code next == state_code current) skip-Spares
          (bind-Spares get_next-Spares set_current-Spares))
        (bind-Spares get_current-Spares λ entered.
          then-Spares
            (if-Spares (state_code entered == 0) skip-Spares
              (modify-Spares (λ d. record d { is_busy = true })))
            get_current-Spares)
