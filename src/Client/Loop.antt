-- ===== src/Client/Loop.antt =====
-- `DDClient::FSMLoop` and `startNewTransfer` (dataDump/DDClient.cpp).
use data_dump_protocol.Base.{ℕ, Option, none, some, Bool, true, false, leb, ◌||◌, if◌then◌else◌}
use data_dump_protocol.Packet.Memory.{Memory}
use data_dump_protocol.DataDump.State.{DataDump, Host, FsmState, Mode, make_data_dump}
use data_dump_protocol.DataDump.Monad.{M, ◌>>=◌, ◌>>◌, pure, get, modify}
use data_dump_protocol.DataDump.Ops.{set_next_fsm_state, is_module_busy}
use data_dump_protocol.DataDump.Shared.{enter_state}
use data_dump_protocol.Client.States.{
  client_idle, client_request, client_response, client_initiate_block, client_block,
  client_terminate,
}

-- The constructor adds nothing to the base's.
unfoldable pub make_client : ℕ → ℕ → ℕ → ℕ → DataDump
unfolding make_data_dump
make_client = make_data_dump Mode.client

module _ {W : Type 0} (host : Host W) where
  -- The `switch`.
  unfoldable pub client_dispatch : ℕ → FsmState → M W (Unit {0})
  client_dispatch rounds FsmState.idle = client_idle host
  client_dispatch rounds FsmState.request = client_request host rounds
  client_dispatch rounds FsmState.response = client_response host rounds
  client_dispatch rounds FsmState.initiate_block = client_initiate_block host rounds
  client_dispatch rounds FsmState.block = client_block host rounds
  client_dispatch rounds FsmState.terminate = client_terminate host

  -- One call of `FSMLoop`.
  unfoldable pub client_loop : ℕ → M W (Unit {0})
  client_loop rounds = enter_state host >>= client_dispatch rounds

  -- The array that the application lends, or NULL, and the size that it states.
  unfoldable pub start_new_transfer : Option Memory → ℕ → M W Bool
  start_new_transfer none size = pure false
  start_new_transfer (some buffer) size = do
    d ← get
    if leb size 0 || is_module_busy d then pure false else (do
      modify (λ d. record d {
        internal_buffer = some 0;
        internal_memory = buffer;
        internal_buffer_len = size;
      })
      set_next_fsm_state host FsmState.request
      pure true)
