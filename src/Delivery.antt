-- ===== src/Delivery.antt =====
-- The blocks of a transfer between dataDump/DDClient.cpp and dataDump/DDServer.cpp, up to the last
-- one: the two loops are called in turn.
pub mod Pair
use data_dump_protocol.Base.{
  ℕ, zero, suc, ◌+◌, ◌-◌, ◌*◌, ◌≤◌, ◌<◌, ◌≡◌, refl, sym, ap, ◌∙◌, arith, List, [], ◌∷◌, ◌++◌, some,
  Bool, true, false, Outcome, ok, ◌>>=◌, length, take, drop, take-take-drop, take-append-drop,
  subst, le→ltb, gt→leb, if◌then◌else◌, length-take, length-drop, drop-drop, transport,
}
use data_dump_protocol.Packet.Types.{ContinueBit, MsgType}
use data_dump_protocol.Packet.BlockHeader.{get_continue_bit}
use data_dump_protocol.Packet.Block.{BlockTxRxPacket, get_packet_size}
use data_dump_protocol.DataDump.State.{DataDump, Host, FsmState}
use data_dump_protocol.DataDump.Does.{Does}
use data_dump_protocol.DataDump.Entering.{entered}
use data_dump_protocol.DataDump.Line.{Line, At, in_state}
use data_dump_protocol.Client.Loop.{client_loop, client_dispatch}
use data_dump_protocol.Client.Delivery as ClientDelivery
use data_dump_protocol.Client.Storage.{HasRoom, overwritten, with_stored, with_stored-HasRoom}
use data_dump_protocol.Server.Loop.{server_loop, server_dispatch}
use data_dump_protocol.Server.Blocks.{take_block}
use data_dump_protocol.Server.Delivery as ServerDelivery
use data_dump_protocol.Server.Delivery.{message}
use data_dump_protocol.Server.OneBlock.{
  next_size, payload, room, IsReady, IsEnough, IsSent, block_at, block_at-bit, block_at-IsSent,
  take_block-IsReady, take_block-IsEnough,
}
use data_dump_protocol.Transfer.{overwritten-overwritten}
use data_dump_protocol.Agreement.Calls.{
  Both, of_client, of_server, client_call, server_call, client_loop-Does, server_loop-Does, next_ok,
}
use data_dump_protocol.Delivery.Pair.{
  Underway, next-Underway, next_bytes, next_bytes-length, after_send, after_store, pair_lem,
}

-- The server sends a block and the client takes it, so many times.
unfoldable pub block_calls : {W : Type 0} → Host W → Host W → ℕ → ℕ → Both W → Outcome (Both W)
block_calls client server rounds zero p = ok p
block_calls client server rounds (suc k) p =
    (server_call client server rounds p >>= client_call client server rounds)
    >>= block_calls client server rounds k

advanced :
    (c s : DataDump) (i n frame left start free i' n' frame' left' start' free' : ℕ)
    → i ≡ i'
    → n ≡ n'
    → frame ≡ frame'
    → left ≡ left'
    → start ≡ start'
    → free ≡ free'
    → Underway c s i n frame left start free
    → Underway c s i' n' frame' left' start' free'
advanced c s i n frame left start free i' n' frame' left' start' free' a b e l f g =
    transport (λ j. Underway c s (a j) (b j) (e j) (l j) (f j) (g j))

module _ {W : Type 0} {client server : Host W} {to_server to_client : W → List (List ℕ)}
    {kept : W → Type 0} (client_line : Line client to_server to_client kept)
    (server_line : Line server to_client to_server kept) (rounds : ℕ) where
  -- While a transfer is under way over a line that carries one message at a time, `k` times a call
  -- of the server's loop and one of the client's loop, both in the state BLOCK, return as long as
  -- more than `k` full blocks are left: the client has stored the next `k` full blocks of the
  -- server's data in order behind what it had, nothing is left on the line, and the rest of the
  -- transfer is under way, `k` blocks further on.
  pub blocks_delivered :
      (k : ℕ) (c s : DataDump) (i n frame left start free : ℕ)
      → Underway c s i n frame (k + left) start free
      → k * room s < n
      → (w : W) → to_client w ≡ []
      → to_server w ≡ []
      → kept w
      → (c' : DataDump) × (s' : DataDump) × (w' : W) × (block_calls client server
            (suc rounds)
            k
            (in_state FsmState.block c, in_state FsmState.block s, w)
          ≡ ok (in_state FsmState.block c', in_state FsmState.block s', w'))
        × Underway c' s'
            (i + k * room s)
            (n - k * room s)
            (frame + k)
            left
            (start + k * room s)
            (free - k * room s)
        × (c'.internal_memory
            ≡ overwritten c.internal_memory start (take (k * room s) (drop i s.internal_memory)))
        × (to_client w' ≡ [])
        × (to_server w' ≡ [])
        × kept w'
  unfolding block_calls
  blocks_delivered zero c s i n frame left start free u more w e f k = (
    c,
    s,
    w,
    refl,
    advanced c s i n frame (0 + left) start free (i + 0 * room s) (n - 0 * room s) (frame + 0) left
        (start + 0 * room s) (free - 0 * room s) (omega arith) (omega arith) (omega arith)
        (omega arith) (omega arith) (omega arith) u,
    nothing,
    e,
    f,
    k,
  )
    where
      none_yet : 0 * room s ≡ 0
      none_yet = omega arith

      at_start : start + 0 ≡ start
      at_start = omega arith

      nothing :
          c.internal_memory
          ≡ overwritten c.internal_memory start (take (0 * room s) (drop i s.internal_memory))
      nothing = sym (
          ap (λ k. overwritten c.internal_memory start (take k (drop i s.internal_memory))) none_yet
          ∙ ap (λ k. take start c.internal_memory ++ drop k c.internal_memory) at_start
          ∙ take-append-drop start c.internal_memory)
  blocks_delivered (suc k) c s i n frame left start free u more w e f h =
      let (w1, e1, v1) =
        pair_lem c s i n frame (k + left) start free u1 further client_line server_line rounds w
          (e, f, h) in
      let (c', s', w', run, u', stored, e', f', h') =
        blocks_delivered k (after_store c s i n frame (k + left) start free u1 further)
          (after_send c s i n frame (k + left) start free u1 further) (i + room s) (n - room s)
          (suc frame) left (start + room s) (free - room s)
          (next-Underway c s i n frame (k + left) start free u1 further) (omega (arith, more)) w1
          v1.0 v1.1 v1.2 in
      (
        c',
        s',
        w',
        next_ok _ _ e1 run,
        advanced c' s' (i + room s + k * room s) (n - room s - k * room s) (suc frame + k) left
            (start + room s + k * room s) (free - room s - k * room s) (i + suc k * room s)
            (n - suc k * room s) (frame + suc k) left (start + suc k * room s)
            (free - suc k * room s) (omega arith) (omega arith) (omega arith) refl (omega arith)
            (omega arith) u',
        stored ∙ joined,
        e',
        f',
        h',
      )
    where
      further : room s < n
      further = omega (arith, more)

      u1 : Underway c s i n frame (suc (k + left)) start free
      u1 =
          advanced c s i n frame (suc k + left) start free i n frame (suc (k + left)) start free
            refl refl refl (omega arith) refl refl u

      bytes : List ℕ
      bytes = next_bytes c s i n frame (k + left) start free u1 further

      size : length bytes ≡ room s
      size = next_bytes-length c s i n frame (k + left) start free u1 further

      more_bytes : List ℕ
      more_bytes = take (k * room s) (drop (i + room s) s.internal_memory)

      all_bytes : bytes ++ more_bytes ≡ take (suc k * room s) (drop i s.internal_memory)
      all_bytes =
          ap (λ xs. bytes ++ take (k * room s) xs)
            (sym (drop-drop i (room s) (i + room s) s.internal_memory refl))
          ∙ take-take-drop (room s) (k * room s) (suc k * room s) (drop i s.internal_memory)
              (omega arith)

      joined :
          overwritten (overwritten c.internal_memory start bytes) (start + room s) more_bytes
          ≡ overwritten c.internal_memory start (take (suc k * room s) (drop i s.internal_memory))
      joined =
          ap (λ j. overwritten (overwritten c.internal_memory start bytes) (start + j) more_bytes)
            (sym size)
          ∙ overwritten-overwritten c.internal_memory start bytes more_bytes
              (omega (arith, size, u.has_room.inside, u.holds, further))
          ∙ ap (overwritten c.internal_memory start) all_bytes
