-- ===== src/Server/Steady.antt =====
-- The states that may follow each other in `DDServer::FSMLoop` (dataDump/DDServer.cpp), and what an
-- invariant of its object must bear.
use data_dump_protocol.Base.{List, Bool, ok, ◌≡◌, ℕ}
use data_dump_protocol.Packet.Header.{TranscationHeader}
use data_dump_protocol.Packet.Memory.{store_bytes}
use data_dump_protocol.DataDump.State.{DataDump, FsmState}
use data_dump_protocol.DataDump.Switching.{Phase, On}
use data_dump_protocol.Server.Blocks.{take_block}

-- `ServerEdge c s t`: acting in the state `s` while the current state is `c`, the machine may ask
-- for `t`.
pub data ServerEdge (c : FsmState) : FsmState → FsmState → Type 0 where
  requested : ServerEdge c FsmState.request FsmState.response
  answered : ServerEdge c FsmState.response FsmState.initiate_block
  initiated : ServerEdge c FsmState.initiate_block FsmState.block
  continued : ServerEdge c FsmState.block c
  no_request : ServerEdge c FsmState.request FsmState.terminate
  no_answer : ServerEdge c FsmState.response FsmState.terminate
  not_initiated : ServerEdge c FsmState.initiate_block FsmState.terminate
  last_block : ServerEdge c FsmState.block FsmState.terminate
  ended : ServerEdge c FsmState.terminate FsmState.request

-- What the steps of the server's loop that leave the states alone may do to an object that
-- satisfies `A`.
pub record ServerSteady (A : DataDump → Type 0) : Type 0 where
  pub saves : (d : DataDump) (h : TranscationHeader) → A d → A (record d { client_config = h })
  pub reads : (d : DataDump) (n : ℕ) → A d → A (record d { internal_buffer_len = n })
  pub writes :
      (d : DataDump) (start : ℕ) (bytes mem : List ℕ)
      → store_bytes d.internal_memory start bytes ≡ ok mem
      → A d
      → A (record d { internal_memory = mem })
  pub cuts : (d : DataDump) → A d → A (take_block d)
  pub marks : (d : DataDump) (b : Bool) → A d → A (record d { is_transfer_success = b })

pub On-ServerSteady : (Q : Phase) → ServerSteady (On Q)
On-ServerSteady Q = record {
  saves = λ d h q. q;
  reads = λ d n q. q;
  writes = λ d start bytes mem e q. q;
  cuts = λ d q. q;
  marks = λ d b q. q;
}
