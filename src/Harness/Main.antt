-- ===== src/Harness/Main.antt =====
-- `DDTest` of dataDump/DDTest.cpp: the globals, the main thread's loop, and the threads of the two
-- machines, which take turns in any order.
use data_dump_protocol.Base.{
  ◌>>=◌, ℕ, ◌+◌, ◌%◌, zero, suc, List, [], ◌∷◌, some, Bool, true, false, ltb, if◌then◌else◌,
  replicate, Outcome, ok, fault, pending,
}
use data_dump_protocol.DataDump.State.{DataDump, Host}
use data_dump_protocol.Server.Blocks.{make_server}
use data_dump_protocol.Server.Loop.{server_loop, start_server}
use data_dump_protocol.Client.Loop.{make_client, start_new_transfer}
use data_dump_protocol.Harness.World.{
  World, Peer, make_world, transfer_size, server_host, client_host, paired_host, client_turn,
  server_send, server_receive, server_storage_read, server_notify,
}

-- The program: `test_server`, `test_client` with the world between them, and `TransactionCount`. The
-- array of the client is `clientStorage` from the start.
pub record Program : Type 0 where
  pub server : DataDump
  pub peer : Peer
  pub transaction_count : ℕ

abbrev pub test_server : DataDump
unfolding make_server
test_server = make_server 0x0000 35 20 5

abbrev pub test_client : DataDump
unfolding make_client
test_client = record (make_client 0x1234 35 20 5) { internal_memory = replicate transfer_size 0 }

-- The values of `f` from 0 to `n - 1`.
abbrev pub tabulate : ℕ → (ℕ → ℕ) → List ℕ
tabulate zero f = []
tabulate (suc n) f = f 0 ∷ tabulate n (λ i. f (suc i))

-- What `DDTest` fills `serverStorage` with.
abbrev pub counted_storage : List ℕ
counted_storage = tabulate transfer_size (λ i. i % 256)

abbrev pub after_start : Program → Outcome (Bool × DataDump × World) → Outcome Program
after_start p (ok r) = ok (record p { server = r.1; peer = record p.peer { world = r.2 } })
after_start p fault = fault
after_start p pending = pending

-- Up to the main loop: the storage has its content and the server is started.
unfoldable pub dd_test_setup : List ℕ → Outcome Program
unfolding start_server server_host test_server test_client
dd_test_setup storage =
    let p : Program = record {
      server = test_server;
      peer = record { client = test_client; world = make_world storage; failed = false };
      transaction_count = 0;
    } in
    after_start p (start_server server_host p.server p.peer.world)

-- A transfer that could be started is counted, and the next one has to wait.
abbrev pub after_transfer : Program → Outcome (Bool × DataDump × World) → Outcome Program
after_transfer p (ok r) =
    if r.0
    then ok (record p {
      peer = record p.peer { client = r.1; world = record r.2 { start_next_transfer = false } };
      transaction_count = p.transaction_count + 1;
    })
    else ok (record p { peer = record p.peer { client = r.1; world = r.2 } })
after_transfer p fault = fault
after_transfer p pending = pending

-- One round of the main thread's `do … while(TransactionCount<10)`.
unfoldable pub main_round : Program → Outcome Program
unfolding start_new_transfer client_host
main_round p =
    if p.peer.world.start_next_transfer
    then after_transfer p (
        start_new_transfer client_host (some p.peer.client.internal_memory) transfer_size
          p.peer.client p.peer.world)
    else ok p

-- The loop's test; the first round is made in any case, when nothing has been counted yet.
unfoldable pub main_turn : Program → Outcome Program
unfolding main_round
main_turn p = if ltb p.transaction_count 10 then main_round p else ok p

abbrev pub after_server : Program → Outcome (Unit {0} × DataDump × Peer) → Outcome Program
after_server p (ok r) = ok (record p { server = r.1; peer = r.2 })
after_server p fault = fault
after_server p pending = pending

-- One round of `serverTaskloop`.
unfoldable pub server_turn : ℕ → Program → Outcome Program
server_turn rounds p = after_server p (server_loop paired_host rounds p.server p.peer)

-- The other threads, while the server is inside a call.
pub data Other : Type 0 where
  main client : Other

-- A round of `DDTest` whose call goes wrong ends the run.
abbrev pub after_main : Program → Outcome Program → Program
after_main p (ok q) = q
after_main p fault = record p { peer = record p.peer { failed = true } }
after_main p pending = record p { peer = record p.peer { failed = true } }

unfoldable pub other_turns : List Other → Program → Program
unfolding main_turn
other_turns [] p = p
other_turns (Other.main ∷ ts) p = other_turns ts (after_main p (main_turn p))
other_turns (Other.client ∷ ts) p = other_turns ts (record p { peer = client_turn p.peer })

-- What the server's thread finds outside its object when both other threads run: the program, and the
-- turns that they take before each of the server's next looks for a message.
pub record Beside : Type 0 where
  pub program : Program
  pub later : List (List Other)

abbrev pub next_look : Beside → List (List Other) → Beside
next_look b [] = b
next_look b (ts ∷ later) = record { program = other_turns ts b.program; later = later }

abbrev pub in_program : {A : Type 0} → (World → A × World) → Beside → A × Beside
in_program f b =
    let r = f b.program.peer.world in
    (r.0, record b { program = record b.program { peer = record b.program.peer { world = r.1 } } })

unfoldable pub beside_host : Host Beside
unfolding server_host
beside_host = record {
  send_cb = some (λ bytes. in_program (server_send bytes));
  recv_cb = some (λ max_length b. in_program (server_receive max_length) (next_look b b.later));
  consumer_cb = some (λ max_size erase. in_program (server_storage_read max_size erase));
  notify_cb = some (λ status b. (in_program (λ w. (tt, server_notify status w)) b).1);
  timer_start = λ interval. in_program (server_host.timer_start interval);
  timer_stop = in_program server_host.timer_stop;
  timer_is_expired = in_program server_host.timer_is_expired;
  try_lock = λ mutex b. (true, b);
}

abbrev pub after_beside : Outcome (Unit {0} × DataDump × Beside) → Outcome Program
after_beside (ok r) = ok (record r.2.program { server = r.1 })
after_beside fault = fault
after_beside pending = pending

-- A thread's turn: a round of `DDTest`, of `serverTaskloop` or of `clientTaskloop`. During a round of
-- `serverTaskloop` the client takes a turn before each look for a message, or the others take the turns
-- that are listed.
pub data Turn : Type 0 where
  main server client : Turn
  server_beside : List (List Other) → Turn

unfoldable pub take_turn : ℕ → Turn → Program → Outcome Program
unfolding main_turn server_turn
take_turn rounds Turn.main p = main_turn p
take_turn rounds Turn.server p = server_turn rounds p
take_turn rounds Turn.client p = ok (record p { peer = client_turn p.peer })
take_turn rounds (Turn.server_beside later) p =
    after_beside (server_loop beside_host rounds p.server record { program = p; later = later })

unfoldable pub take_turns : ℕ → List Turn → Program → Outcome Program
take_turns rounds [] p = ok p
take_turns rounds (t ∷ ts) p = take_turn rounds t p >>= take_turns rounds ts
