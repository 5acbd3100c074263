-- ===== src/Harness/Runs.antt =====
-- Whole transfers of dataDump/DDTest.cpp, run.
use data_dump_protocol.Base.{
  ℕ, List, [], ◌∷◌, Option, some, none, Bool, true, false, ok, Outcome, fault, pending, replicate,
  ◌≡◌, refl,
}
use data_dump_protocol.DataDump.State.{DataDump, FsmState}
use data_dump_protocol.Server.Blocks.{make_server}
use data_dump_protocol.Client.Loop.{make_client}
use data_dump_protocol.Harness.Execute.{execute}
use data_dump_protocol.Harness.World.{Peer, make_world, server_loops}

-- Seven bytes in blocks of at most 4.
abbrev storage : List ℕ
storage = 11 ∷ 22 ∷ 33 ∷ 44 ∷ 55 ∷ 66 ∷ 77 ∷ []

abbrev server_at_start : DataDump
server_at_start = record (make_server 0 35 12 5) { next_state = FsmState.request }

abbrev peer_at_start : Peer
peer_at_start = record {
  client = record (make_client 0x1234 35 12 5) {
    next_state = FsmState.request;
    internal_buffer = some 0;
    internal_memory = replicate 10 0;
    internal_buffer_len = 10;
  };
  world = make_world storage;
  failed = false;
}

summary : Outcome (DataDump × Peer) → Option (FsmState × List Bool × List ℕ × Bool)
summary (ok r) =
    some (r.0.next_state, r.1.world.server_notes, r.1.client.internal_memory, r.1.failed)
summary fault = none
summary pending = none

-- From the request to the notification: the client's array holds the storage, and the server reports
-- success once.
whole_transfer :
    summary (server_loops 8 5 server_at_start peer_at_start)
    ≡ some (FsmState.request, true ∷ [], 11 ∷ 22 ∷ 33 ∷ 44 ∷ 55 ∷ 66 ∷ 77 ∷ 0 ∷ 0 ∷ 0 ∷ [], false)
unfolding summary server_loops execute
whole_transfer = refl
