-- ===== src/Examples/Loops.antt =====
-- The theorems on repeated calls of the two loops, at the sample objects.
use data_dump_protocol.Base.{ℕ, ◌≤◌, ◌≡◌, refl, some, false, arith, length}
use data_dump_protocol.DataDump.State.{DataDump, FsmState}
use data_dump_protocol.DataDump.Monad.{◌>>◌}
use data_dump_protocol.DataDump.Phase.{Leaves}
use data_dump_protocol.Protocol.{ServerMove, ClientMove, Route}
use data_dump_protocol.Server.Refines.{server_taskloop, server_taskloop-Route}
use data_dump_protocol.Server.Pointer.{server_taskloop-Ahead}
use data_dump_protocol.Client.Loop.{start_new_transfer}
use data_dump_protocol.Client.Refines.{client_taskloop, client_taskloop-Route}
use data_dump_protocol.Client.Room.{Confined, start_new_transfer-Confined}
use data_dump_protocol.Handshake.{taskloops_handshake}
use data_dump_protocol.Examples.Samples.{server, client, keep, line, idle_line, zeros}

server_taskloop-Route_example :
    Leaves
      (λ d'. Route ServerMove 2 FsmState.block d'.next_state)
      (server_taskloop (line keep) 9 2 server idle_line)
server_taskloop-Route_example =
    server_taskloop-Route (line keep) 9 2 server idle_line (λ mutex w. refl)

client_taskloop-Route_example :
    Leaves
      (λ d'. Route ClientMove 2 FsmState.block d'.next_state)
      (client_taskloop (line keep) 9 2 client idle_line)
client_taskloop-Route_example =
    client_taskloop-Route (line keep) 9 2 client idle_line (λ mutex w. refl)

abbrev requesting : DataDump
requesting = record client { current_state = FsmState.idle; next_state = FsmState.request }

taskloops_handshake_example :
    Leaves
      (λ d'. d'.next_state ≡ FsmState.block → 3 ≤ 3)
      (client_taskloop (line keep) 9 3 requesting idle_line)
    × Leaves
        (λ d'. d'.next_state ≡ FsmState.block → 3 ≤ 3)
        (server_taskloop (line keep) 9 3 requesting idle_line)
taskloops_handshake_example =
    taskloops_handshake (line keep) 9 3 requesting idle_line (λ mutex w. refl) refl

abbrev resting : DataDump
resting = record client {
  is_busy = false;
  current_state = FsmState.idle;
  next_state = FsmState.idle;
}

start_new_transfer-Confined_example : Leaves (Confined zeros 0 11) (
    (start_new_transfer (line keep) (some zeros) 11 >> client_taskloop (line keep) 9 4) resting
      idle_line)
start_new_transfer-Confined_example =
    start_new_transfer-Confined (line keep) 9 4 resting idle_line zeros 11 refl (omega arith)
      (omega arith)

server_taskloop-Ahead_example :
    Leaves
      (λ d'.
        (length d'.internal_memory ≡ length server.internal_memory)
        × ((start' : ℕ) × (d'.internal_buffer ≡ some start') × (0 ≤ start')))
      (server_taskloop (line keep) 9 2 server idle_line)
server_taskloop-Ahead_example = server_taskloop-Ahead (line keep) 9 2 server idle_line 0 refl
