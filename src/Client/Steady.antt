-- ===== src/Client/Steady.antt =====
-- The states that may follow each other in `DDClient::FSMLoop` (dataDump/DDClient.cpp), and what an
-- invariant of its object must bear.
use data_dump_protocol.Base.{List, Bool, ok, none, some, leb, ◌+◌, ◌≡◌, ℕ, true}
use data_dump_protocol.Packet.Block.{copy_out}
use data_dump_protocol.Packet.Header.{TranscationHeader}
use data_dump_protocol.DataDump.State.{DataDump, FsmState, size_sub}
use data_dump_protocol.DataDump.Switching.{Phase, On}

-- `ClientEdge c s t`: acting in the state `s` while the current state is `c`, the machine may ask
-- for `t`.
pub data ClientEdge (c : FsmState) : FsmState → FsmState → Type 0 where
  requested : ClientEdge c FsmState.request FsmState.response
  answered : ClientEdge c FsmState.response FsmState.initiate_block
  initiated : ClientEdge c FsmState.initiate_block FsmState.block
  continued : ClientEdge c FsmState.block c
  not_requested : ClientEdge c FsmState.request FsmState.terminate
  no_answer : ClientEdge c FsmState.response FsmState.terminate
  not_initiated : ClientEdge c FsmState.initiate_block FsmState.terminate
  last_block : ClientEdge c FsmState.block FsmState.terminate
  ended : ClientEdge c FsmState.terminate FsmState.idle

-- What the steps of the client's loop that leave the states alone may do to an object that
-- satisfies `A`.
pub record ClientSteady (A : DataDump → Type 0) : Type 0 where
  pub saves : (d : DataDump) (h : TranscationHeader) → A d → A (record d { server_config = h })
  pub stores :
      (d : DataDump) (start size : ℕ) (received mem : List ℕ)
      → d.internal_buffer ≡ some start
      → leb size d.internal_buffer_len ≡ true
      → copy_out (some received) size d.internal_memory start ≡ ok mem
      → A d
      → A (record d {
        internal_memory = mem;
        internal_buffer = some (start + size);
        internal_buffer_len = size_sub d.internal_buffer_len size;
      })
  pub marks : (d : DataDump) (b : Bool) → A d → A (record d { is_transfer_success = b })
  pub clears :
      (d : DataDump) → A d → A (record d { internal_buffer = none; internal_buffer_len = 0 })

pub On-ClientSteady : (Q : Phase) → ClientSteady (On Q)
On-ClientSteady Q = record {
  saves = λ d h q. q;
  stores = λ d start size received mem at_index room copied q. q;
  marks = λ d b q. q;
  clears = λ d q. q;
}
