-- ===== src/Protocol.antt =====
-- The two protocols of dataDump/DDServer.cpp and dataDump/DDClient.cpp as graphs: the states alone,
-- without packets, data or timers.
use data_dump_protocol.Base.{ℕ, suc}
use data_dump_protocol.DataDump.State.{FsmState}

-- One call of `DDServer::FSMLoop`. A server that rests stays at rest until it is started; after a
-- transfer it waits for the next request.
pub data ServerMove : FsmState → FsmState → Type 0 where
  rests : ServerMove FsmState.idle FsmState.idle
  requested : ServerMove FsmState.request FsmState.response
  answered : ServerMove FsmState.response FsmState.initiate_block
  initiated : ServerMove FsmState.initiate_block FsmState.block
  continued : ServerMove FsmState.block FsmState.block
  no_request : ServerMove FsmState.request FsmState.terminate
  no_answer : ServerMove FsmState.response FsmState.terminate
  not_initiated : ServerMove FsmState.initiate_block FsmState.terminate
  last_block : ServerMove FsmState.block FsmState.terminate
  ended : ServerMove FsmState.terminate FsmState.request

-- One call of `DDClient::FSMLoop`. After a transfer the client rests.
pub data ClientMove : FsmState → FsmState → Type 0 where
  rests : ClientMove FsmState.idle FsmState.idle
  requested : ClientMove FsmState.request FsmState.response
  answered : ClientMove FsmState.response FsmState.initiate_block
  initiated : ClientMove FsmState.initiate_block FsmState.block
  continued : ClientMove FsmState.block FsmState.block
  not_requested : ClientMove FsmState.request FsmState.terminate
  no_answer : ClientMove FsmState.response FsmState.terminate
  not_initiated : ClientMove FsmState.initiate_block FsmState.terminate
  last_block : ClientMove FsmState.block FsmState.terminate
  ended : ClientMove FsmState.terminate FsmState.idle

-- `n` moves, one after the other, from the state `s`.
pub data Route (Move : FsmState → FsmState → Type 0) : ℕ → FsmState → FsmState → Type 0 where
  here : {s : FsmState} → Route Move 0 s s
  onward : {n : ℕ} {s t u : FsmState} → Move s t → Route Move n t u → Route Move (suc n) s u
