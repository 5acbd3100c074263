-- ===== src/Server/Pointer.antt =====
-- Where `internalBuffer` of dataDump/DDServer.cpp points: it moves on with each block and is never
-- set back.
use data_dump_protocol.Base.{
  ℕ, zero, suc, ◌+◌, ◌≤◌, ◌<◌, ◌≡◌, refl, ap, ◌∙◌, List, some, false, ok, fault, length, Bool,
  arith, take, drop, ◌++◌, length-append, length-take, length-drop,
}
use data_dump_protocol.Packet.Types.{MsgType}
use data_dump_protocol.Packet.Memory.{Memory, Pointer, store_bytes}
use data_dump_protocol.DataDump.State.{DataDump, Host, FsmState}
use data_dump_protocol.DataDump.Shared.{config_packet}
use data_dump_protocol.DataDump.Phase.{
  Leaves, Leaves-map, Keeps, bind-Takes, then-Takes, skip-Keeps,
}
use data_dump_protocol.DataDump.Switching.{set_next-Keeps, again-Keeps, enter-Keeps}
use data_dump_protocol.Server.Terms.{negotiate}
use data_dump_protocol.Server.Blocks.{block_size, advance, storage_room}
use data_dump_protocol.Server.States.{save_client_config, read_storage, server_response}
use data_dump_protocol.Server.Loop.{server_loop}
use data_dump_protocol.Server.Moves.{dispatch-Takes}
use data_dump_protocol.Server.Steady.{ServerSteady}
use data_dump_protocol.Server.Refines.{server_taskloop}
use data_dump_protocol.Server.Settle.{consume_overrun}
use data_dump_protocol.Client.Room.{store_bytes_ok}

-- An array of `size` bytes with the pointer at the index `lo` or behind it.
record Ahead (size lo : ℕ) (array : Memory) (pointer : Pointer) : Type 0 where
  pub whole : length array ≡ size
  pub start : ℕ
  pub at_index : pointer ≡ some start
  pub passed : lo ≤ start

module _ (size lo : ℕ) where
  abbrev Passed : DataDump → Type 0
  Passed d = Ahead size lo d.internal_memory d.internal_buffer

  written-Passed :
      (d : DataDump) (start : ℕ) (bytes mem : List ℕ)
      → store_bytes d.internal_memory start bytes ≡ ok mem
      → Passed d
      → Passed (record d { internal_memory = mem })
  written-Passed d start bytes mem e k =
      let (inside, written) = store_bytes_ok d.internal_memory start bytes mem e in
      record {
        whole =
            ap length written
            ∙ omega (
              arith,
              inside,
              length-append (take start d.internal_memory)
                  (bytes ++ drop (start + length bytes) d.internal_memory),
              length-append bytes (drop (start + length bytes) d.internal_memory),
              length-take start d.internal_memory,
              length-drop (start + length bytes) d.internal_memory,
              k.whole,
            );
        start = k.start;
        at_index = k.at_index;
        passed = k.passed;
      }

  Passed-ServerSteady : ServerSteady Passed
  Passed-ServerSteady = record {
    saves = λ d h k. k;
    reads = λ d n k. k;
    writes = written-Passed;
    cuts = λ d k. record {
      whole = k.whole;
      start = k.start + block_size d;
      at_index = ap (λ p. advance p (block_size d)) k.at_index;
      passed = omega (arith, k.passed);
    };
    marks = λ d b k. k;
  }

  module _ {W : Type 0} (host : Host W) (rounds : ℕ) where
    loops-Passed : (n : ℕ) → Keeps Passed (server_taskloop host rounds n)
    unfolding server_taskloop server_loop
    loops-Passed zero = skip-Keeps
    loops-Passed (suc n) =
        then-Takes
          (bind-Takes (enter-Keeps _ host (λ s d k. k) (λ d k. k)) λ s.
            dispatch-Takes host FsmState.idle Passed (λ s. Passed) Passed-ServerSteady (λ d k. k)
              (λ d k. k) (λ s t e. set_next-Keeps _ host t (λ d k. k))
              (λ k. again-Keeps _ host k (λ s d k. k)) rounds s)
          (loops-Passed n)

-- A server's pointer never moves back, whatever callbacks, timer and mutexes do: after any number
-- of calls of the loop that return it is still an index, no smaller than before, into an array of
-- the same length. No transfer puts it back to the start of the array.
pub server_taskloop-Ahead :
    {W : Type 0} (host : Host W) (rounds n : ℕ) (d : DataDump) (w : W) (start : ℕ)
    → d.internal_buffer ≡ some start
    → Leaves
        (λ d'.
          (length d'.internal_memory ≡ length d.internal_memory)
          × ((start' : ℕ) × (d'.internal_buffer ≡ some start') × (start ≤ start')))
        (server_taskloop host rounds n d w)
server_taskloop-Ahead host rounds n d w start e =
    Leaves-map (server_taskloop host rounds n d w)
      (λ d' k. (k.whole, (k.start, k.at_index, k.passed)))
      ((loops-Passed (length d.internal_memory) start host rounds n).takes d w
        record { whole = refl; start = start; at_index = e; passed = omega arith })

-- A server in the state RESPONSE whose pointer has moved so far that the rest of the array does not hold
-- what the storage hands over, asked for as many bytes as the negotiated blocks carry, writes past the end
-- of the array.
pub server_response_overrun :
    {W : Type 0} (host : Host W) (rounds : ℕ) (d : DataDump) (w : W) (start : ℕ)
    (callback : ℕ → Bool → W → List ℕ × W)
    → host.consumer_cb ≡ some callback
    → d.internal_buffer ≡ some start
    → length d.internal_memory
      < start
        + length
            (callback
              (storage_room d
                (negotiate d.client_config d.server_config).max_blocks_per_transaction)
              false
              w).0
    → server_response host rounds d w ≡ fault
unfolding server_response read_storage
server_response_overrun host rounds d w start callback given at_index long =
    let terms = config_packet MsgType.response (negotiate d.client_config d.server_config) in
    let d' = record (save_client_config terms d) { internal_buffer = some start } in
    rw
      (
        given,
        at_index,
        consume_overrun host callback d' w start
            (storage_room d' d'.client_config.max_blocks_per_transaction) false refl long,
      )
      refl
