-- ===== src/Examples/Program.antt =====
-- The theorems on the program of dataDump/DDTest.cpp, at concrete values.
use data_dump_protocol.Base.{
  ℕ, pending, fault, ◌≡◌, refl, arith, List, [], ◌∷◌, ◌++◌, replicate, ok, take, drop, ◌>>=◌, ◌*◌,
  some,
}
use data_dump_protocol.Client.Loop.{make_client}
use data_dump_protocol.Agreement.{handshake_agrees}
use data_dump_protocol.Agreement.Calls.{opening_calls}
use data_dump_protocol.Agreement.Terms.{Opened}
use data_dump_protocol.Delivery.{block_calls, blocks_delivered}
use data_dump_protocol.Delivery.Pair.{Underway}
use data_dump_protocol.Progress.{transfer_calls, transfer_progresses}
use data_dump_protocol.Client.Storage.{overwritten}
use data_dump_protocol.DataDump.Line.{in_state}
use data_dump_protocol.DataDump.State.{DataDump, FsmState}
use data_dump_protocol.Server.Blocks.{make_server}
use data_dump_protocol.Server.Terms.{negotiate}
use data_dump_protocol.Harness.Lines.{client_line, server_line, server-Stores}
use data_dump_protocol.Harness.World.{
  server_storage_read, World, make_world, client_host, server_host,
}
use data_dump_protocol.Harness.Main.{
  Turn, take_turns, dd_test_setup, counted_storage, test_server, test_client,
}
use data_dump_protocol.Harness.Whole.{
  Returns, Delivered, whole_run, repeated, transfer_turns, third_start, whole_transfers,
  third_transfer_overruns,
}
use data_dump_protocol.Harness.Orders.{server_first}
use data_dump_protocol.Harness.Schedules.{Upholds, ProgramSound, take_turns-IsSound}
use data_dump_protocol.Packet.Types.{MsgType}
use data_dump_protocol.DataDump.Shared.{config_packet, send_until}
use data_dump_protocol.Client.Loop.{client_loop}
use data_dump_protocol.Server.Loop.{server_loop}
use data_dump_protocol.Server.States.{await_ack, server_response}
use data_dump_protocol.Harness.Waiting.{
  client_waits_for_ever, server_waits_for_ever, send_until_lem,
}
use data_dump_protocol.Server.Pointer.{server_response_overrun}
use data_dump_protocol.Harness.Loopback.{loop_back, loop_back_lem}

-- The server sends 17 blocks before the client takes the first of them, and seven are not taken when it
-- sends the last one.
abbrev late_client : List Turn
late_client = replicate 17 Turn.server ++ Turn.main ∷ replicate 10 Turn.client

whole_transfers_example :
    Returns (Delivered 2 counted_storage) (whole_run counted_storage 2 (repeated 2 transfer_turns))
whole_transfers_example = whole_transfers 2 counted_storage 0 (omega arith) (omega arith) refl

third_transfer_overruns_example : whole_run counted_storage 2 third_start ≡ fault
third_transfer_overruns_example = third_transfer_overruns counted_storage 0 refl

-- The server waits for a request before the main thread starts the first transfer.
take_turns-IsSound_example : Upholds (ProgramSound counted_storage) (
    dd_test_setup counted_storage
    >>= take_turns 8 (server_first ++ repeated 17 (Turn.server ∷ Turn.client ∷ [])))
take_turns-IsSound_example =
    take_turns-IsSound counted_storage 8
      (server_first ++ repeated 17 (Turn.server ∷ Turn.client ∷ []))

client_waits_for_ever_example :
    (client_loop client_host 9 (in_state FsmState.response test_client) (make_world []) ≡ pending)
    × (client_loop client_host 9 (in_state FsmState.block test_client) (make_world []) ≡ pending)
unfolding make_client
client_waits_for_ever_example = client_waits_for_ever 9 test_client (make_world []) refl refl

server_waits_for_ever_example :
    (server_loop server_host 9 (in_state FsmState.initiate_block test_server) (make_world [])
      ≡ pending)
    × (await_ack server_host 9 test_server (make_world []) ≡ pending)
unfolding make_server
server_waits_for_ever_example = server_waits_for_ever 9 test_server (make_world []) refl refl

-- Twenty messages fill the queue.
abbrev full_world : World
full_world = record (make_world []) { server_in_channel = replicate 20 (1 ∷ []) }

send_until_lem_example :
    send_until client_host 9
      (config_packet MsgType.request test_client.client_config)
      test_client
      full_world
    ≡ pending
unfolding make_client
send_until_lem_example =
    send_until_lem test_client (config_packet MsgType.request test_client.client_config) refl
      (omega arith) 8 full_world refl

-- The server after two transfers, with the request for a third one.
abbrev worn_server : DataDump
worn_server = record test_server {
  client_config = test_client.client_config;
  internal_buffer = some 512;
}

server_response_overrun_example :
    server_response server_host 4 worn_server (make_world counted_storage) ≡ fault
unfolding make_server make_client negotiate server_host server_storage_read
server_response_overrun_example =
    server_response_overrun server_host 4 worn_server (make_world counted_storage) 512
      server_storage_read refl refl (omega arith)

loop_back_lem_example :
    loop_back 2 0 (replicate 50 7) (replicate 45 0) (make_world [])
    ≡ ok (take (2 * 20) (replicate 50 7) ++ drop (2 * 20) (replicate 45 0), make_world [])
loop_back_lem_example =
    loop_back_lem 2 (replicate 50 7) (replicate 45 0) (make_world []) (omega arith) (omega arith)
      refl

abbrev small_storage : List ℕ
small_storage = 7 ∷ 8 ∷ 9 ∷ []

handshake_agrees_example :
    (c' : DataDump) × (s' : DataDump) × (w' : World) × (opening_calls client_host server_host 1 (
      in_state FsmState.request test_client,
      in_state FsmState.request test_server,
      make_world small_storage,
    )
      ≡ ok (c', s', w'))
    × Opened test_client test_server 0 small_storage c' s'
    × (w'.server_in_channel ≡ [])
    × (w'.server_out_channel ≡ [])
    × (w'.server_storage ≡ small_storage)
unfolding negotiate make_server make_client
handshake_agrees_example =
    handshake_agrees (client_line small_storage) (server_line small_storage) test_client test_server
      0 small_storage
      (server-Stores small_storage test_server 0 525 refl (omega arith) (omega arith)) (omega arith)
      (omega arith)
      record {
        id_fits = omega arith;
        blocks_fit = omega arith;
        packetlen_fits = omega arith;
        timeout_fits = omega arith;
      }
      record {
        id_fits = omega arith;
        blocks_fit = omega arith;
        packetlen_fits = omega arith;
        timeout_fits = omega arith;
      }
      (λ e. omega (arith, e)) 0 (make_world small_storage) refl refl refl

-- A client that has been lent its array.
abbrev listening_client : DataDump
listening_client = record test_client { internal_buffer = some 0; internal_buffer_len = 256 }

-- Twenty bytes: a block of fifteen and another one.
abbrev two_blocks : List ℕ
two_blocks = replicate 20 7

transfer_progresses_example :
    (c' : DataDump) × (s' : DataDump) × (w' : World) × (transfer_calls client_host server_host 1 1 (
      in_state FsmState.request listening_client,
      in_state FsmState.request test_server,
      make_world two_blocks,
    )
      ≡ ok (in_state FsmState.block c', in_state FsmState.block s', w'))
    × (c'.internal_memory ≡ overwritten (replicate 256 0) 0 (take 15 two_blocks))
    × Underway c' s' 15 5 2 33 15 241
unfolding make_server make_client negotiate
transfer_progresses_example =
    transfer_progresses (client_line two_blocks) (server_line two_blocks) listening_client
      test_server 0 two_blocks
      (server-Stores two_blocks test_server 0 525 refl (omega arith) (omega arith)) (omega arith)
      (omega arith)
      record {
        id_fits = omega arith;
        blocks_fit = omega arith;
        packetlen_fits = omega arith;
        timeout_fits = omega arith;
      }
      record {
        id_fits = omega arith;
        blocks_fit = omega arith;
        packetlen_fits = omega arith;
        timeout_fits = omega arith;
      }
      (λ e. omega (arith, e)) 0 0 256 1 33
      record { at_index = refl; len = refl; inside = omega arith; small = omega arith }
      (omega arith) (omega arith) (omega arith) (omega arith) refl (omega arith) (omega arith)
      (make_world two_blocks) refl refl refl

-- The client that has been told the terms.
abbrev receiving_client : DataDump
receiving_client = record listening_client { server_config = test_client.client_config }

-- The server with the two blocks in its buffer.
abbrev loaded_server : DataDump
loaded_server = record test_server {
  client_config = test_client.client_config;
  internal_memory = overwritten test_server.internal_memory 0 two_blocks;
  internal_buffer_len = 20;
}

blocks_delivered_example :
    (c' : DataDump) × (s' : DataDump) × (w' : World) × (block_calls client_host server_host 1 1 (
      in_state FsmState.block receiving_client,
      in_state FsmState.block loaded_server,
      make_world two_blocks,
    )
      ≡ ok (in_state FsmState.block c', in_state FsmState.block s', w'))
    × Underway c' s' 15 5 2 33 15 241
    × (c'.internal_memory ≡ overwritten (replicate 256 0) 0 (take 15 two_blocks))
    × (w'.server_out_channel ≡ [])
    × (w'.server_in_channel ≡ [])
    × (w'.server_storage ≡ two_blocks)
unfolding make_server make_client
blocks_delivered_example =
    blocks_delivered (client_line two_blocks) (server_line two_blocks) 0 1 receiving_client
      loaded_server 0 20 1 33 0 256
      record {
        ready = record {
          at_index = refl;
          len = refl;
          inside = omega arith;
          some_data = omega arith;
          small = omega arith;
          packet_fits = omega arith;
          has_room = omega arith;
        };
        enough = record {
          counter = refl;
          counts_on = refl;
          blocks_fit = omega arith;
          holds = omega arith;
        };
        has_room = record {
          at_index = refl;
          len = refl;
          inside = omega arith;
          small = omega arith;
        };
        holds = omega arith;
        wide = omega arith;
      }
      (omega arith) (make_world two_blocks) refl refl refl
