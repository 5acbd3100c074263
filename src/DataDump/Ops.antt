-- ===== src/DataDump/Ops.antt =====
-- The methods of `DataDump` (dataDump/DDBase.cpp) that server and client call. No callback throws, so
-- the handlers of `catch` are not reached.
use data_dump_protocol.Base.{
  ℕ, ◌*◌, List, none, some, Bool, false, ltb, leb, if◌then◌else◌, take, length, replicate,
}
use data_dump_protocol.Packet.Types.{MsgType, u8}
use data_dump_protocol.Packet.Memory.{Memory, store_bytes}
use data_dump_protocol.Packet.Transaction
use data_dump_protocol.Packet.Transaction.{TransactionPacket}
use data_dump_protocol.Packet.Block
use data_dump_protocol.Packet.Block.{BlockTxRxPacket}
use data_dump_protocol.DataDump.State.{DataDump, Host, FsmState, Mutex}
use data_dump_protocol.DataDump.Accept.{accept_transaction, accept_block}
use data_dump_protocol.DataDump.Monad.{M, ◌>>=◌, pure, get, modify, outside, lift, skip}

module _ {W : Type 0} (host : Host W) where
  -- A callback that is NULL answers `false`, or 0 bytes.
  abbrev pub call_send : List ℕ → M W Bool
  call_send bytes = elim host.send_cb [ none ↦ pure false | some f ↦ outside (f bytes) ]

  abbrev pub call_recv : ℕ → M W (List ℕ)
  call_recv max_length = elim host.recv_cb [ none ↦ pure List.[] | some f ↦ outside (f max_length) ]

  -- `send` of a `TransactionPacket`, with the packet after it. The result of `serialize` is ignored.
  unfoldable pub send_transaction : TransactionPacket → ℕ → M W (Bool × TransactionPacket)
  send_transaction packet len = do
    d ← get
    if ltb d.max_packet_size len then pure (false, packet) else do
      (_, packet, buffer) ←
          lift (Transaction.serialize packet (replicate d.max_packet_size 0) (some 0) len)
      ret ← call_send (take len buffer)
      pure (ret, packet)

  -- `send` of a `blockTxRxPacket`: what is sent is as long as `serialize` says, cut to a byte.
  unfoldable pub send_block : BlockTxRxPacket → ℕ → M W Bool
  send_block packet len = do
    d ← get
    if ltb d.max_packet_size len then pure false else do
      (written, _, buffer) ←
          lift (Block.serialize packet (replicate d.max_packet_size 0) (some 0) d.max_packet_size)
      if leb (u8 written) d.max_packet_size
          then call_send (take (u8 written) buffer)
          else pure false

  -- The bytes of the receive callback in a zeroed buffer, with their count.
  unfoldable pub receive_bytes : M W (ℕ × Memory)
  receive_bytes = do
    d ← get
    bytes ← call_recv d.max_packet_size
    buffer ← lift (store_bytes (replicate d.max_packet_size 0) 0 bytes)
    pure (length bytes, buffer)

  -- `receive` of a `TransactionPacket`: the count, or 0, and the packet after it.
  unfoldable pub receive_transaction : TransactionPacket → MsgType → M W (ℕ × TransactionPacket)
  unfolding receive_bytes
  receive_transaction packet msg_type = do
    (len, buffer) ← receive_bytes
    lift (accept_transaction packet msg_type len buffer)

  -- `receive` of a `blockTxRxPacket`.
  unfoldable pub receive_block : BlockTxRxPacket → MsgType → M W (ℕ × BlockTxRxPacket)
  unfolding receive_bytes
  receive_block packet msg_type = do
    (len, buffer) ← receive_bytes
    lift (accept_block packet msg_type len buffer)

  unfoldable pub start_state_transition_timer : ℕ → M W Bool
  start_state_transition_timer timeout = outside (host.timer_start (timeout * 100))

  unfoldable pub stop_state_transition_timer : M W Bool
  stop_state_transition_timer = outside host.timer_stop

  unfoldable pub timer_is_expired : M W Bool
  timer_is_expired = outside host.timer_is_expired

  -- A state is written only if its mutex is had within a millisecond.
  unfoldable pub set_current_fsm_state : FsmState → M W (Unit {0})
  set_current_fsm_state state = do
    locked ← outside (host.try_lock Mutex.cur_mutex)
    if locked then modify (λ d. record d { current_state = state }) else skip

  unfoldable pub set_next_fsm_state : FsmState → M W (Unit {0})
  set_next_fsm_state state = do
    locked ← outside (host.try_lock Mutex.nxt_mutex)
    if locked then modify (λ d. record d { next_state = state }) else skip

  -- A state that cannot be read is reported as TERMINATE.
  unfoldable pub get_current_fsm_state : M W FsmState
  get_current_fsm_state = do
    locked ← outside (host.try_lock Mutex.cur_mutex)
    d ← get
    pure (if locked then d.current_state else FsmState.terminate)

  unfoldable pub get_next_fsm_state : M W FsmState
  get_next_fsm_state = do
    locked ← outside (host.try_lock Mutex.nxt_mutex)
    d ← get
    pure (if locked then d.next_state else FsmState.terminate)

abbrev pub is_module_busy : DataDump → Bool
is_module_busy d = d.is_busy

abbrev pub set_module_status : {W : Type 0} → Bool → M W (Unit {0})
set_module_status status = modify (λ d. record d { is_busy = status })
