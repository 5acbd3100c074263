-- ===== src/Delivery/Pair.antt =====
-- A block on its way from dataDump/DDServer.cpp to dataDump/DDClient.cpp: a call of the one loop
-- and then of the other.
use data_dump_protocol.Base.{
  ℕ, suc, ◌+◌, ◌-◌, ◌≤◌, ◌<◌, ◌≡◌, ap, ◌∙◌, arith, List, [], ◌∷◌, some, Bool, ok, ◌>>=◌, length,
  take, drop, subst, le→ltb, gt→leb, if◌then◌else◌, length-take, length-drop,
}
use data_dump_protocol.Packet.Types.{ContinueBit}
use data_dump_protocol.Packet.BlockHeader.{get_continue_bit}
use data_dump_protocol.Packet.Block.{BlockTxRxPacket, get_packet_size}
use data_dump_protocol.DataDump.State.{DataDump, Host, FsmState}
use data_dump_protocol.DataDump.Does.{Does}
use data_dump_protocol.DataDump.Entering.{entered}
use data_dump_protocol.DataDump.Line.{Line, At, in_state}
use data_dump_protocol.Client.Loop.{client_loop, client_dispatch}
use data_dump_protocol.Client.Delivery as ClientDelivery
use data_dump_protocol.Client.Storage.{HasRoom, with_stored, with_stored-HasRoom}
use data_dump_protocol.Server.Loop.{server_loop, server_dispatch}
use data_dump_protocol.Server.Blocks.{take_block}
use data_dump_protocol.Server.Delivery as ServerDelivery
use data_dump_protocol.Server.Delivery.{message}
use data_dump_protocol.Server.OneBlock.{
  next_size, payload, room, IsReady, IsEnough, IsSent, block_at, block_at-bit, block_at-IsSent,
  take_block-IsReady, take_block-IsEnough,
}
use data_dump_protocol.Agreement.Calls.{
  of_client, of_server, client_call, server_call, client_loop-Does, server_loop-Does, next_ok,
}

-- The server has `n` bytes left from the index `i` on, `left` blocks after the next one, whose
-- frame is `frame`, are enough for them, and the client has room for them from `start` on and takes
-- such packets.
pub record Underway (c s : DataDump) (i n frame left start free : ℕ) : Type 0 where
  pub ready : IsReady s i n
  pub enough : IsEnough s n frame left
  pub has_room : HasRoom c start free
  pub holds : n ≤ free
  pub wide : s.max_packet_size ≤ c.max_packet_size

abbrev pub blocking : DataDump → DataDump
blocking d = entered (in_state FsmState.block d)

blocking-Underway :
    (c s : DataDump) (i n frame left start free : ℕ)
    → Underway c s i n frame left start free
    → Underway (blocking c) (blocking s) i n frame left start free
blocking-Underway c s i n frame left start free u = record {
  ready = record {
    at_index = u.ready.at_index;
    len = u.ready.len;
    inside = u.ready.inside;
    some_data = u.ready.some_data;
    small = u.ready.small;
    packet_fits = u.ready.packet_fits;
    has_room = u.ready.has_room;
  };
  enough = record {
    counter = u.enough.counter;
    counts_on = u.enough.counts_on;
    blocks_fit = u.enough.blocks_fit;
    holds = u.enough.holds;
  };
  has_room = record {
    at_index = u.has_room.at_index;
    len = u.has_room.len;
    inside = u.has_room.inside;
    small = u.has_room.small;
  };
  holds = u.holds;
  wide = u.wide;
}

module _ (c s : DataDump) (i n frame left start free : ℕ)
    (u : Underway c s i n frame (suc left) start free) (more : room s < n) where
  -- The bytes of the next block.
  abbrev pub next_bytes : List ℕ
  next_bytes = take (room s) (drop i s.internal_memory)

  pub next_bytes-length : length next_bytes ≡ room s
  next_bytes-length = omega (
    arith,
    length-take (room s) (drop i s.internal_memory),
    length-drop i s.internal_memory,
    u.ready.inside,
    more,
  )

  next_block : BlockTxRxPacket
  next_block = block_at (blocking s) i n

  next_block-IsSent : IsSent (room s) frame next_block
  unfolding next_block
  next_block-IsSent =
      let v = blocking-Underway c s i n frame (suc left) start free u in
      block_at-IsSent (blocking s) i n frame (suc left) v.ready v.enough

  abbrev pub after_send : DataDump
  after_send = take_block (blocking s)

  abbrev pub after_store : DataDump
  after_store = with_stored (blocking c) start next_bytes

  pub next-Underway :
      Underway after_store after_send
        (i + room s)
        (n - room s)
        (suc frame)
        left
        (start + room s)
        (free - room s)
  next-Underway =
      let v = blocking-Underway c s i n frame (suc left) start free u in
      let stored =
        with_stored-HasRoom (blocking c) start free next_bytes v.has_room
          (omega (arith, next_bytes-length, u.holds, more)) in
      record {
        ready = take_block-IsReady (blocking s) i n v.ready more;
        enough = take_block-IsEnough (blocking s) n frame left v.enough more;
        has_room = record {
          at_index = stored.at_index ∙ ap (λ k. some (start + k)) next_bytes-length;
          len = omega (arith, stored.len, next_bytes-length);
          inside = omega (arith, stored.inside, next_bytes-length);
          small = omega (arith, stored.small, next_bytes-length);
        };
        holds = omega (arith, u.holds);
        wide = u.wide;
      }

  next_block-bytes : payload next_block.buffer ≡ next_bytes
  unfolding next_block
  next_block-bytes = ap (λ k. take k (drop i s.internal_memory)) full
    where
      full : next_size s n ≡ room s
      full = rw (le→ltb n (room s) (omega (arith, more)))

  next_block-bit : get_continue_bit next_block.header ≡ ContinueBit.continue_transfer
  unfolding next_block
  next_block-bit =
      let v = blocking-Underway c s i n frame (suc left) start free u in
      block_at-bit (blocking s) i n frame (suc left) v.ready v.enough
      ∙ ap
          (λ (t : Bool).
            if t then ContinueBit.terminate_transfer else ContinueBit.continue_transfer)
          (gt→leb n (room s) more)

  module _ {W : Type 0} {client server : Host W} {to_server to_client : W → List (List ℕ)}
      {kept : W → Type 0} (client_line : Line client to_server to_client kept)
      (server_line : Line server to_client to_server kept) (rounds : ℕ) where
    sends-Does :
        Does
          (server_loop server (suc rounds))
          (At server_line [] [])
          (in_state FsmState.block s)
          tt
          (in_state FsmState.block after_send)
          (At server_line (message next_block ∷ []) [])
    unfolding server_dispatch next_block
    sends-Does =
        let v = blocking-Underway c s i n frame (suc left) start free u in
        server_loop-Does server_line [] [] _ [] (suc rounds) FsmState.block s
          (in_state FsmState.block (take_block (blocking s)))
          (ServerDelivery.block-Does server_line [] rounds (blocking s) i n frame left v.ready
            v.enough more)

    stores-Does :
        Does
          (client_loop client (suc rounds))
          (At client_line [] (message next_block ∷ []))
          (in_state FsmState.block c)
          tt
          (in_state FsmState.block after_store)
          (At client_line [] [])
    unfolding client_dispatch
    stores-Does =
        let v = blocking-Underway c s i n frame (suc left) start free u in
        let sent = next_block-IsSent in
        client_loop-Does client_line [] _ [] [] (suc rounds) FsmState.block c
          (in_state FsmState.block (with_stored (blocking c) start next_bytes))
          (subst
            (λ bytes.
              Does (client_dispatch client (suc rounds) FsmState.block)
                (At client_line [] (message next_block ∷ [])) (blocking c) tt
                (in_state FsmState.block (with_stored (blocking c) start bytes))
                (At client_line [] []))
            next_block-bytes
            (ClientDelivery.block-Does client_line [] rounds next_block (payload next_block.buffer)
              sent.well_formed sent.kind sent.unchecked (blocking c) start free
              (unfold get_packet_size in
                omega (arith, sent.fits, sent.well_formed.sized, u.wide, u.ready.has_room))
              v.has_room
              (omega (arith, next_bytes-length, ap length next_block-bytes, u.holds, more))
              next_block-bit))

    pub pair_lem :
        (w : W)
        → At server_line [] [] w
        → (w' : W) × (server_call client server
                (suc rounds)
                (in_state FsmState.block c, in_state FsmState.block s, w)
              >>= client_call client server (suc rounds)
            ≡ ok (in_state FsmState.block after_store, in_state FsmState.block after_send, w'))
          × At server_line [] [] w'
    pair_lem w v =
        let (w1, e1, v1) = sends-Does.does w v in
        let (w2, e2, v2) = stores-Does.does w1 (v1.1, v1.0, v1.2) in
        (
          w2,
          next_ok _ _ (ap (of_server (in_state FsmState.block c)) e1)
              (ap (of_client (in_state FsmState.block after_send)) e2),
          (v2.1, v2.0, v2.2),
        )
