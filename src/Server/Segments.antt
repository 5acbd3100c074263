-- ===== src/Server/Segments.antt =====
-- The blocks that dataDump/DDServer.cpp sends in one transaction, put together again.
use data_dump_protocol.Base.{
  ℕ, zero, suc, ◌+◌, ◌-◌, ◌≤◌, ◌<◌, ◌≡◌, refl, sym, ap, ◌∙◌, List, [], ◌∷◌, ◌++◌, length, take,
  drop, drop-drop, take-take-drop, Outcome, ok, pending, ◌>>=◌, arith, leb, le→ltb, le→leb, gt→leb,
  if◌then◌else◌, Bool, append-nil,
}
use native.Mathlib.Decide.{dec_le}
use data_dump_protocol.Packet.Types.{ContinueBit}
use data_dump_protocol.Packet.BlockHeader.{get_continue_bit}
use data_dump_protocol.Packet.Block.{BlockTxRxPacket}
use data_dump_protocol.DataDump.State.{DataDump}
use data_dump_protocol.Server.Blocks.{take_block, next_block}
use data_dump_protocol.Server.OneBlock.{
  room, next_size, payload, IsReady, IsEnough, IsSent, block_at, block_at-bit, block_at-IsSent,
  next_block_lem, take_block-IsReady, take_block-IsEnough, next_size_last,
}

-- The blocks from here to the last, as the state BLOCK sends them when every send succeeds: it builds
-- one, and goes on until one has the continue bit cleared.
abbrev follow :
    ContinueBit → BlockTxRxPacket → Outcome (List BlockTxRxPacket) → Outcome (List BlockTxRxPacket)
follow ContinueBit.terminate_transfer b rest = ok (b ∷ [])
follow ContinueBit.continue_transfer b rest = rest >>= λ bs. ok (b ∷ bs)

unfoldable pub segments : ℕ → DataDump → Outcome (List BlockTxRxPacket)
segments zero d = pending
segments (suc limit) d =
    next_block d >>= λ b. follow (get_continue_bit b.header) b (segments limit (take_block d))

-- The data of blocks one after the other.
abbrev pub payloads : List BlockTxRxPacket → List ℕ
payloads [] = []
payloads (b ∷ bs) = payload b.buffer ++ payloads bs

-- The blocks are numbered from `c` on.
abbrev pub Framed : ℕ → ℕ → List BlockTxRxPacket → Type 0
Framed most c [] = Unit {0}
Framed most c (b ∷ bs) = IsSent most c b × Framed most (suc c) bs

segments_step :
    (d : DataDump) (i n c left : ℕ)
    → IsReady d i n
    → IsEnough d n c left
    → segments (suc left) d
      ≡ follow
          (if leb n (room d) then ContinueBit.terminate_transfer else ContinueBit.continue_transfer)
          (block_at d i n)
          (segments left (take_block d))
unfolding segments
segments_step d i n c left r e =
    ap (λ m. m >>= λ b. follow (get_continue_bit b.header) b (segments left (take_block d)))
      (next_block_lem d i n r)
    ∙ ap (λ t. follow t (block_at d i n) (segments left (take_block d)))
        (block_at-bit d i n c left r e)

-- What the blocks from here on amount to.
abbrev pub Carried : ℕ → ℕ → ℕ → ℕ → DataDump → Type 0
Carried left c n i d =
    (bs : List BlockTxRxPacket) × (segments (suc left) d ≡ ok bs)
    × (payloads bs ≡ take n (drop i d.internal_memory))
    × (length bs ≤ suc left)
    × Framed (room d) c bs

segments_end :
    (left c n i : ℕ) (d : DataDump)
    → IsReady d i n
    → IsEnough d n c left
    → n ≤ room d
    → Carried left c n i d
segments_end left c n i d r e fits = (
  block_at d i n ∷ [],
  segments_step d i n c left r e
      ∙ ap
          (λ (t : Bool).
            follow (if t then ContinueBit.terminate_transfer else ContinueBit.continue_transfer)
              (block_at d i n) (segments left (take_block d)))
          (le→leb n (room d) fits),
  append-nil _ ∙ ap (λ (k : ℕ). take k (drop i d.internal_memory)) (next_size_last d n fits),
  omega arith,
  (block_at-IsSent d i n c left r e, tt),
)

segments_go :
    (left c n i : ℕ) (d : DataDump)
    → IsReady d i n
    → IsEnough d n c (suc left)
    → room d < n
    → Carried left (suc c) (n - room d) (i + room d) (take_block d)
    → Carried (suc left) c n i d
segments_go left c n i d r e more (bs, runs, carried, few, framed) = (
  block_at d i n ∷ bs,
  segments_step d i n c (suc left) r e
      ∙ ap
          (λ (t : Bool).
            follow (if t then ContinueBit.terminate_transfer else ContinueBit.continue_transfer)
              (block_at d i n) (segments (suc left) (take_block d)))
          (gt→leb n (room d) more)
      ∙ ap (follow ContinueBit.continue_transfer (block_at d i n)) runs,
  ap (λ (k : ℕ). take k (drop i d.internal_memory) ++ payloads bs) full
      ∙ ap (λ (t : List ℕ). take (room d) (drop i d.internal_memory) ++ t)
          (carried
            ∙ ap (take (n - room d))
                (sym (drop-drop i (room d) (i + room d) d.internal_memory refl)))
      ∙ take-take-drop (room d) (n - room d) n (drop i d.internal_memory) (omega arith),
  omega arith,
  (block_at-IsSent d i n c (suc left) r e, framed),
)
  where
    full : next_size d n ≡ room d
    full = rw (le→ltb n (room d) (omega arith))

-- With `n` bytes ready at index `i`, and with the frames from `c` up to the agreed number enough for
-- them, sending one block after the other comes to a block with the continue bit cleared. The blocks
-- are at most as many as the frames, carry the data whole and in order, are numbered from `c` on,
-- are well formed, and hold no more than fits a packet.
pub segments_lem :
    (left c n i : ℕ) (d : DataDump) → IsReady d i n → IsEnough d n c left → Carried left c n i d
segments_lem zero c n i d r e = segments_end zero c n i d r e (omega (arith, e.holds))
segments_lem (suc left) c n i d r e = elim (dec_le n (room d)) [
  | yes fits ↦ segments_end (suc left) c n i d r e fits
  | no more ↦
      let longer : room d < n = omega arith in
      segments_go left c n i d r e longer (
        segments_lem left (suc c) (n - room d) (i + room d) (take_block d)
          (take_block-IsReady d i n r longer) (take_block-IsEnough d n c left e longer))
]
