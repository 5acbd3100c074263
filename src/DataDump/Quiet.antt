-- ===== src/DataDump/Quiet.antt =====
-- The calls of dataDump/DDBase.cpp that leave the object alone, or but for the array's content.
use data_dump_protocol.Base.{
  ℕ, ◌*◌, ◌==◌, ltb, leb, not, some, Bool, false, List, of_option, length, take, replicate, ok, ◌≡◌,
  sym, subst,
}
use data_dump_protocol.Packet.Types.{MsgType, u8}
use data_dump_protocol.Packet.Memory.{store_bytes}
use data_dump_protocol.Packet.Transaction
use data_dump_protocol.Packet.Transaction.{TransactionPacket, empty_packet, get_packet_size}
use data_dump_protocol.Packet.Block
use data_dump_protocol.Packet.Block.{BlockTxRxPacket}
use data_dump_protocol.DataDump.State.{DataDump, Host}
use data_dump_protocol.DataDump.Accept.{accept_transaction, accept_block}
use data_dump_protocol.DataDump.Ops.{
  call_send, call_recv, send_transaction, send_block, receive_bytes, receive_transaction,
  receive_block, start_state_transition_timer, stop_state_transition_timer, timer_is_expired,
}
use data_dump_protocol.DataDump.Shared.{send_until, receive_until, consume, notify}
use data_dump_protocol.DataDump.Phase.{
  Keeps, bind-Takes, then-Takes, pure-Keeps, get-Keeps, skip-Keeps, known-Takes, lifted-Takes,
  outside-Keeps, modify-Takes, lift-Keeps, if-Takes, option-Takes, poll-Keeps,
}

module _ {W : Type 0} where
  module _ (P : DataDump → Type 0) (host : Host W) where
    call_send-Keeps : (bytes : List ℕ) → Keeps P (call_send host bytes)
    call_send-Keeps bytes = option-Takes host.send_cb pure-Keeps (λ f e. outside-Keeps (f bytes))

    call_recv-Keeps : (max_length : ℕ) → Keeps P (call_recv host max_length)
    call_recv-Keeps max_length =
        option-Takes host.recv_cb pure-Keeps (λ f e. outside-Keeps (f max_length))

    pub send_transaction-Keeps :
        (packet : TransactionPacket) (len : ℕ) → Keeps P (send_transaction host packet len)
    unfolding send_transaction
    send_transaction-Keeps packet len = bind-Takes get-Keeps λ d.
        if-Takes (ltb d.max_packet_size len) pure-Keeps (
          bind-Takes
            (lift-Keeps (Transaction.serialize packet (replicate d.max_packet_size 0) (some 0) len))
            λ r. bind-Takes (call_send-Keeps (take len r.2)) λ ret. pure-Keeps)

    pub send_block-Keeps :
        (packet : BlockTxRxPacket) (len : ℕ) → Keeps P (send_block host packet len)
    unfolding send_block
    send_block-Keeps packet len = bind-Takes get-Keeps λ d.
        if-Takes (ltb d.max_packet_size len) pure-Keeps (
          bind-Takes
            (lift-Keeps
              (Block.serialize packet (replicate d.max_packet_size 0) (some 0) d.max_packet_size))
            λ r.
              if-Takes (leb (u8 r.0) d.max_packet_size) (call_send-Keeps (take (u8 r.0) r.2))
                pure-Keeps)

    receive_bytes-Keeps : Keeps P (receive_bytes host)
    unfolding receive_bytes
    receive_bytes-Keeps = bind-Takes get-Keeps λ d.
        bind-Takes (call_recv-Keeps d.max_packet_size) λ bytes.
          bind-Takes (lift-Keeps (store_bytes (replicate d.max_packet_size 0) 0 bytes))
            λ buffer. pure-Keeps

    pub receive_transaction-Keeps :
        (packet : TransactionPacket) (msg_type : MsgType)
        → Keeps P (receive_transaction host packet msg_type)
    unfolding receive_transaction
    receive_transaction-Keeps packet msg_type =
        bind-Takes receive_bytes-Keeps λ r. lift-Keeps (accept_transaction packet msg_type r.0 r.1)

    pub receive_block-Keeps :
        (packet : BlockTxRxPacket) (msg_type : MsgType)
        → Keeps P (receive_block host packet msg_type)
    unfolding receive_block
    receive_block-Keeps packet msg_type =
        bind-Takes receive_bytes-Keeps λ r. lift-Keeps (accept_block packet msg_type r.0 r.1)

    pub start-Keeps : (timeout : ℕ) → Keeps P (start_state_transition_timer host timeout)
    unfolding start_state_transition_timer
    start-Keeps timeout = outside-Keeps (host.timer_start (timeout * 100))

    pub stop-Keeps : Keeps P (stop_state_transition_timer host)
    unfolding stop_state_transition_timer
    stop-Keeps = outside-Keeps host.timer_stop

    pub expired-Keeps : Keeps P (timer_is_expired host)
    unfolding timer_is_expired
    expired-Keeps = outside-Keeps host.timer_is_expired

    pub send_until-Keeps :
        (rounds : ℕ) (packet : TransactionPacket) → Keeps P (send_until host rounds packet)
    unfolding send_until
    send_until-Keeps rounds packet =
        bind-Takes
          (poll-Keeps rounds (λ s. not s.0)
            (λ s. send_transaction-Keeps s.1 (u8 (get_packet_size s.1))) expired-Keeps
            (false, packet))
          λ r. pure-Keeps

    pub receive_until-Keeps :
        (rounds : ℕ) (msg_type : MsgType) → Keeps P (receive_until host rounds msg_type)
    unfolding receive_until
    receive_until-Keeps rounds msg_type =
        poll-Keeps rounds (λ s. s.0 == 0) (λ s. receive_transaction-Keeps s.1 msg_type)
          expired-Keeps (0, empty_packet)

    -- The storage's bytes overwrite a part of the array.
    pub consume-Keeps :
        ((d : DataDump) (start : ℕ) (bytes mem : List ℕ)
          → store_bytes d.internal_memory start bytes ≡ ok mem
          → P d
          → P (record d { internal_memory = mem }))
        → (callback : ℕ → Bool → W → List ℕ × W) (max_size : ℕ) (erase : Bool)
        → Keeps P (consume host callback max_size erase)
    unfolding consume
    consume-Keeps writes callback max_size erase =
        bind-Takes (outside-Keeps (callback max_size erase)) λ bytes. known-Takes λ d p.
          lifted-Takes (of_option d.internal_buffer) λ start at_index.
            lifted-Takes (store_bytes d.internal_memory start bytes) λ mem stored.
              then-Takes
                (modify-Takes (λ d. record d { internal_memory = mem })
                  λ d' e.
                    subst (λ d. P (record d { internal_memory = mem })) (sym e)
                      (writes d start bytes mem stored p))
                (pure-Keeps {a = length bytes})

    pub notify-Keeps : Keeps P (notify host)
    unfolding notify
    notify-Keeps = bind-Takes get-Keeps λ d.
        option-Takes host.notify_cb skip-Keeps
          λ f e. outside-Keeps (λ w. (tt, f d.is_transfer_success w))
