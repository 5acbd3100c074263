-- ===== src/Server/Loop.antt =====
-- `DDServer::FSMLoop`, `startServer` and `stopServer` (dataDump/DDServer.cpp).
use data_dump_protocol.Base.{ℕ, Bool, true, false, ◌==◌, not, if◌then◌else◌}
use data_dump_protocol.DataDump.State.{Host, FsmState}
use data_dump_protocol.DataDump.Monad.{M, ◌>>=◌, ◌>>◌, pure, get, poll}
use data_dump_protocol.DataDump.Ops.{set_next_fsm_state, get_current_fsm_state, is_module_busy}
use data_dump_protocol.DataDump.Shared.{state_code, enter_state}
use data_dump_protocol.Server.States.{
  server_idle, server_request, server_response, server_initiate_block, server_block,
  server_terminate,
}

module _ {W : Type 0} (host : Host W) where
  -- The `switch`.
  unfoldable pub server_dispatch : ℕ → FsmState → M W (Unit {0})
  server_dispatch rounds FsmState.idle = server_idle host
  server_dispatch rounds FsmState.request = server_request host rounds
  server_dispatch rounds FsmState.response = server_response host rounds
  server_dispatch rounds FsmState.initiate_block = server_initiate_block host rounds
  server_dispatch rounds FsmState.block = server_block host rounds
  server_dispatch rounds FsmState.terminate = server_terminate host

  -- One call of `FSMLoop`.
  unfoldable pub server_loop : ℕ → M W (Unit {0})
  server_loop rounds = enter_state host >>= server_dispatch rounds

  unfoldable pub start_server : M W Bool
  start_server = do
    d ← get
    if is_module_busy d then pure false else (set_next_fsm_state host FsmState.request >> pure true)

  -- It waits for the state REQUEST, asks for IDLE, and returns false all the same.
  unfoldable pub stop_server : ℕ → M W Bool
  stop_server rounds = do
    poll rounds (λ _. get_current_fsm_state host) (λ s. not (state_code s == 1)) (pure false)
        FsmState.idle
    set_next_fsm_state host FsmState.idle
    pure false
