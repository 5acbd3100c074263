-- ===== src/Handshake.antt =====
-- How long both machines (dataDump/DDServer.cpp, dataDump/DDClient.cpp) take from the request to
-- the blocks.
use data_dump_protocol.Base.{ℕ, suc, ◌+◌, ◌≤◌, ◌≡◌, ap, arith}
use data_dump_protocol.Protocol.{ServerMove, ClientMove, Route, here, onward}
use data_dump_protocol.DataDump.State.{DataDump, Host, FsmState}
use data_dump_protocol.DataDump.Phase.{Leaves, Leaves-map}
use data_dump_protocol.DataDump.Entering.{Uncontended}
use data_dump_protocol.Server.Refines.{server_taskloop, server_taskloop-Route}
use data_dump_protocol.Client.Refines.{client_taskloop, client_taskloop-Route}

-- How far a state is from the request.
depth : FsmState → ℕ
depth FsmState.idle = 0
depth FsmState.request = 0
depth FsmState.response = 1
depth FsmState.initiate_block = 2
depth FsmState.block = 3
depth FsmState.terminate = 0

server_depth : {s t : FsmState} → ServerMove s t → depth t ≤ suc (depth s)
unfolding depth
server_depth ServerMove.rests = omega arith
server_depth ServerMove.requested = omega arith
server_depth ServerMove.answered = omega arith
server_depth ServerMove.initiated = omega arith
server_depth ServerMove.continued = omega arith
server_depth ServerMove.no_request = omega arith
server_depth ServerMove.no_answer = omega arith
server_depth ServerMove.not_initiated = omega arith
server_depth ServerMove.last_block = omega arith
server_depth ServerMove.ended = omega arith

client_depth : {s t : FsmState} → ClientMove s t → depth t ≤ suc (depth s)
unfolding depth
client_depth ClientMove.rests = omega arith
client_depth ClientMove.requested = omega arith
client_depth ClientMove.answered = omega arith
client_depth ClientMove.initiated = omega arith
client_depth ClientMove.continued = omega arith
client_depth ClientMove.not_requested = omega arith
client_depth ClientMove.no_answer = omega arith
client_depth ClientMove.not_initiated = omega arith
client_depth ClientMove.last_block = omega arith
client_depth ClientMove.ended = omega arith

module _ (Move : FsmState → FsmState → Type 0)
    (deeper : (s t : FsmState) → Move s t → depth t ≤ suc (depth s)) where
  Route-depth : {n : ℕ} {s t : FsmState} → Route Move n s t → depth t ≤ depth s + n
  Route-depth here = omega arith
  Route-depth (onward {s = s} {t = t} m p) = omega (arith, deeper s t m, Route-depth p)

  three_moves :
      {n : ℕ} {s t : FsmState}
      → s ≡ FsmState.request
      → Route Move n s t
      → t ≡ FsmState.block
      → 3 ≤ n
  unfolding depth
  three_moves {n = n} {s = s} {t = t} e p b = omega (arith, Route-depth p, ap depth e, ap depth b)

-- While no other thread holds a mutex, a client that is to send a request asks for the first block
-- after three calls of the loop at the earliest, and likewise a server: the request, the response and
-- the start of the transfer come first.
pub taskloops_handshake :
    {W : Type 0} (host : Host W) (rounds n : ℕ) (d : DataDump) (w : W)
    → Uncontended host
    → d.next_state ≡ FsmState.request
    → Leaves (λ d'. d'.next_state ≡ FsmState.block → 3 ≤ n) (client_taskloop host rounds n d w)
      × Leaves (λ d'. d'.next_state ≡ FsmState.block → 3 ≤ n) (server_taskloop host rounds n d w)
taskloops_handshake host rounds n d w free e = (
  Leaves-map (client_taskloop host rounds n d w)
      (λ d' p b. three_moves ClientMove (λ s t. client_depth) e p b)
      (client_taskloop-Route host rounds n d w free),
  Leaves-map (server_taskloop host rounds n d w)
      (λ d' p b. three_moves ServerMove (λ s t. server_depth) e p b)
      (server_taskloop-Route host rounds n d w free),
)
