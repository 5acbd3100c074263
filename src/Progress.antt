-- ===== src/Progress.antt =====
-- A transfer between dataDump/DDClient.cpp and dataDump/DDServer.cpp from the request to its last
-- block but one.
use data_dump_protocol.Base.{
  ℕ, suc, ◌+◌, ◌-◌, ◌*◌, ◌≤◌, ◌<◌, ◌≡◌, ◌≢◌, sym, ap, ◌∙◌, arith, List, [], ◌++◌, Outcome, ok,
  ◌>>=◌, length, take, drop, length-append, length-take, length-drop, drop-append, take-append-take,
  take-all, subst,
}
use data_dump_protocol.Packet.Block
use data_dump_protocol.Packet.Transaction.{header_size}
use data_dump_protocol.DataDump.State.{DataDump, Host, FsmState}
use data_dump_protocol.DataDump.Line.{Line, in_state}
use data_dump_protocol.Client.Storage.{HasRoom, overwritten}
use data_dump_protocol.Server.Terms.{negotiate}
use data_dump_protocol.Server.Blocks.{storage_room}
use data_dump_protocol.Server.OneBlock.{room}
use data_dump_protocol.Server.Opening.{Stores}
use data_dump_protocol.Agreement.{handshake_agrees}
use data_dump_protocol.Agreement.Calls.{Both, opening_calls, next_ok}
use data_dump_protocol.Agreement.Terms.{AreTerms, Opened, negotiate-AreTerms}
use data_dump_protocol.Delivery.{block_calls, blocks_delivered}
use data_dump_protocol.Delivery.Pair.{Underway}

-- The calls that open a transfer, and those that carry its first `k` blocks.
abbrev pub transfer_calls : {W : Type 0} → Host W → Host W → ℕ → ℕ → Both W → Outcome (Both W)
transfer_calls client server rounds k p =
    opening_calls client server rounds p >>= block_calls client server rounds k

-- What stands in an array from the index on where it was written.
read_back :
    (mem bytes : List ℕ) (start k : ℕ)
    → start ≤ length mem
    → k ≤ length bytes
    → take k (drop start (overwritten mem start bytes)) ≡ take k bytes
read_back mem bytes start k inside few =
    ap (take k) (
      drop-append start (take start mem) (bytes ++ drop (start + length bytes) mem)
        (omega (arith, length-take start mem, inside)))
    ∙ ap (λ xs. take k (xs ++ drop (start + length bytes) mem))
        (sym (take-all (length bytes) bytes (omega arith)))
    ∙ take-append-take k (length bytes) bytes (drop (start + length bytes) mem) few (omega arith)

in_block :
    {W : Type 0} (c s : DataDump) (w : W)
    → c.next_state ≡ FsmState.block
    → s.next_state ≡ FsmState.block
    → ◌≡◌ {A = Both W} (c, s, w) (in_state FsmState.block c, in_state FsmState.block s, w)
in_block c s w e f = λ j. (record c { next_state = e j }, record s { next_state = f j }, w)

module _ {W : Type 0} {client server : Host W} {to_server to_client : W → List (List ℕ)}
    {kept : W → Type 0} (client_line : Line client to_server to_client kept)
    (server_line : Line server to_client to_server kept) (c s : DataDump) (start : ℕ)
    (bytes : List ℕ)
    (stores : Stores server to_client to_server kept s start
      (storage_room s (negotiate c.client_config s.server_config).max_blocks_per_transaction)
      bytes)
    (client_fits : header_size ≤ c.max_packet_size) (server_fits : header_size ≤ s.max_packet_size)
    (client_terms : AreTerms c.client_config) (server_terms : AreTerms s.server_config)
    (numbered : c.client_config.transaction_id ≢ 0) (rounds : ℕ) (target free k left : ℕ)
    (has_room : HasRoom c target free) (holds : length bytes ≤ free)
    (wide : s.max_packet_size ≤ c.max_packet_size) (carries : Block.header_size < s.max_packet_size)
    (small : s.max_packet_size < 256)
    (blocks : suc (k + left)
      ≡ (negotiate c.client_config s.server_config).max_blocks_per_transaction)
    (enough : length bytes ≤ suc (k + left) * room s) where
  Opened-Underway :
      (c' s' : DataDump)
      → Opened c s start bytes c' s'
      → Underway c' s' start (length bytes) 1 (k + left) target free
  Opened-Underway c' s' o = record {
    ready = record {
      at_index = o.at_index;
      len = o.len;
      inside = omega (
        arith,
        ap length o.filled,
        length-append (take start s.internal_memory)
            (bytes ++ drop (start + length bytes) s.internal_memory),
        length-append bytes (drop (start + length bytes) s.internal_memory),
        length-take start s.internal_memory,
        length-drop (start + length bytes) s.internal_memory,
        stores.room,
      );
      some_data = stores.some_bytes;
      small = omega (arith, holds, has_room.small);
      packet_fits = omega (arith, o.server_packets, small);
      has_room = omega (arith, o.server_packets, carries);
    };
    enough = record {
      counter = o.counter;
      counts_on = omega (arith, blocks, o.server_agrees.same_blocks);
      blocks_fit = omega (
        arith,
        o.server_agrees.same_blocks,
        (negotiate-AreTerms c.client_config s.server_config client_terms server_terms).blocks_fit,
      );
      holds =
          subst (λ most. length bytes ≤ suc (k + left) * (most - Block.header_size))
            (sym o.server_packets) enough;
    };
    has_room = record {
      at_index = o.client_buffer ∙ has_room.at_index;
      len = o.client_len ∙ has_room.len;
      inside = omega (arith, ap length o.client_memory, has_room.inside);
      small = has_room.small;
    };
    holds = holds;
    wide = omega (arith, o.client_packets, o.server_packets, wide);
  }

  Opened-data :
      (c' s' : DataDump)
      → Opened c s start bytes c' s'
      → k * room s < length bytes
      → overwritten c'.internal_memory target (take (k * room s') (drop start s'.internal_memory))
        ≡ overwritten c.internal_memory target (take (k * room s) bytes)
  Opened-data c' s' o more =
      ap (λ mem. overwritten mem target (take (k * room s') (drop start s'.internal_memory)))
        o.client_memory
      ∙ ap
          (λ most.
            overwritten c.internal_memory target
              (take (k * (most - Block.header_size)) (drop start s'.internal_memory)))
          o.server_packets
      ∙ ap (λ mem. overwritten c.internal_memory target (take (k * room s) (drop start mem)))
          o.filled
      ∙ ap (overwritten c.internal_memory target) (
          read_back s.internal_memory bytes start (k * room s) (omega (arith, stores.room))
            (omega (arith, more)))

  -- Over a line that carries one message at a time, from the request on: the settings fit a header,
  -- the number is not 0, the storage's data fits the server's array, the room in the client's and
  -- the agreed blocks, and the server's packets have less than 256 bytes, hold more than a header
  -- and are no longer than the client's. If more than `k` full blocks of data are there, then the
  -- calls of the two loops that open the transfer and carry `k` blocks return; the client's array
  -- holds the first `k` full blocks of the storage's data from its pointer on and is otherwise as
  -- it was, and the rest is under way.
  pub transfer_progresses :
      k * room s < length bytes
      → (w : W) → to_server w ≡ []
      → to_client w ≡ []
      → kept w
      → (c' : DataDump) × (s' : DataDump) × (w' : W) × (transfer_calls client server
            (suc rounds)
            k
            (in_state FsmState.request c, in_state FsmState.request s, w)
          ≡ ok (in_state FsmState.block c', in_state FsmState.block s', w'))
        × (c'.internal_memory ≡ overwritten c.internal_memory target (take (k * room s) bytes))
        × Underway c' s'
            (start + k * room s)
            (length bytes - k * room s)
            (1 + k)
            left
            (target + k * room s)
            (free - k * room s)
  transfer_progresses more w e f h =
      let (c1, s1, w1, run1, o, e1, f1, h1) =
        handshake_agrees client_line server_line c s start bytes stores client_fits server_fits
          client_terms server_terms numbered rounds w e f h in
      let (c2, s2, w2, run2, u2, stored, e2, f2, h2) =
        blocks_delivered client_line server_line rounds k c1 s1 start (length bytes) 1 left target
          free (Opened-Underway c1 s1 o)
          (subst (λ most. k * (most - Block.header_size) < length bytes) (sym o.server_packets)
            more)
          w1 f1 e1 h1 in
      (
        c2,
        s2,
        w2,
        next_ok _ _ (run1 ∙ ap ok (in_block c1 s1 w1 o.client_blocks o.server_blocks)) run2,
        stored ∙ Opened-data c1 s1 o more,
        subst
            (λ most.
              Underway c2 s2 (start + k * (most - Block.header_size))
                (length bytes - k * (most - Block.header_size)) (1 + k) left
                (target + k * (most - Block.header_size)) (free - k * (most - Block.header_size)))
            o.server_packets u2,
      )
