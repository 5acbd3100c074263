-- ===== src/Server/Delivery.antt =====
-- The state BLOCK of dataDump/DDServer.cpp over a line to a client, for every block but the last.
use data_dump_protocol.Base.{
  ℕ, suc, false, ◌<◌, ◌≡◌, sym, ap, ◌∙◌, List, [], ◌∷◌, length, true, Bool, not, arith, ok, gt→leb,
  subst, if◌then◌else◌, refl,
}
use data_dump_protocol.Packet.Types.{u8, ContinueBit}
use data_dump_protocol.Packet.BlockHeader.{get_continue_bit}
use data_dump_protocol.Packet.Block
use data_dump_protocol.Packet.Block.{BlockTxRxPacket}
use data_dump_protocol.DataDump.State.{DataDump, Host, FsmState}
use data_dump_protocol.DataDump.Monad.{M, ◌>>=◌, ◌>>◌, lift, modify}
use data_dump_protocol.DataDump.Carry.{wire, wire-length, send_block_lem}
use data_dump_protocol.DataDump.Does.{Does, bind-Does, modify-Does, get-Does, poll-Does}
use data_dump_protocol.DataDump.Entering.{current-Does}
use data_dump_protocol.DataDump.Line.{Line, At, locks-free, locks-At, in_state, asks-Does}
use data_dump_protocol.DataDump.Ops.{send_block, timer_is_expired, set_next_fsm_state}
use data_dump_protocol.Server.Blocks.{take_block, next_block}
use data_dump_protocol.Server.OneBlock.{
  room, payload, IsReady, IsEnough, IsSent, block_at, block_at-bit, block_at-IsSent, next_block_lem,
}
use data_dump_protocol.Server.States.{server_block, send_block_until, continue_blocks, await_ack}

-- The bytes of a block on its way.
abbrev pub message : BlockTxRxPacket → List ℕ
message b = wire b (payload b.buffer)

module _ {W : Type 0} {host : Host W} {out inn : W → List (List ℕ)} {kept : W → Type 0}
    (line : Line host out inn kept) (inbox : List (List ℕ)) (rounds : ℕ) where
  send_block_until-Does :
      (d : DataDump) (b : BlockTxRxPacket) (c : ℕ)
      → IsSent (room d) c b
      → Block.header_size < d.max_packet_size
      → d.max_packet_size < 256
      → Does
          (send_block_until host (suc rounds) b)
          (At line [] inbox)
          d
          true
          d
          (At line (message b ∷ []) inbox)
  unfolding send_block_until
  send_block_until-Does d b c sent has_room small =
      poll-Does (λ _. send_block host b (u8 (Block.get_packet_size b))) (timer_is_expired host)
        rounds not false refl
        record {
          does = λ w (e, f, k).
              let (yes', o, i, j) = line.queued (message b) w e some_bytes k in
              (
                (line.send (message b) w).1,
                send_block_lem host line.send b (payload b.buffer) (u8 (Block.get_packet_size b)) d
                      w line.sends sent.well_formed (unfold Block.get_packet_size in omega arith)
                      (unfold Block.get_packet_size in
                        omega (arith, sent.fits, sent.well_formed.sized))
                      small
                    ∙ ap (λ t. ok (t, d, (line.send (message b) w).1)) yes',
                (o, i ∙ f, j),
              );
        }
    where
      some_size : 0 < Block.get_packet_size b
      some_size = unfold Block.get_packet_size in omega arith

      some_bytes : 0 < length (message b)
      some_bytes = omega (arith, wire-length b (payload b.buffer) sent.well_formed, some_size)

  continue_blocks-Does :
      (d : DataDump) (a b : List (List ℕ))
      → Does (continue_blocks host) (At line a b) d tt (in_state d.current_state d) (At line a b)
  unfolding continue_blocks
  continue_blocks-Does d a b =
      bind-Does _ (current-Does host (locks-free line) (locks-At line a b) d)
        (asks-Does line a b d.current_state (λ d. d.client_config.max_ack_timeout) d)

  pub block-Does :
      (d : DataDump) (i n c left : ℕ)
      → IsReady d i n
      → IsEnough d n c (suc left)
      → room d < n
      → Does
          (server_block host (suc rounds))
          (At line [] inbox)
          d
          tt
          (in_state d.current_state (take_block d))
          (At line (message (block_at d i n) ∷ []) inbox)
  unfolding server_block
  block-Does d i n c left ready enough more =
      bind-Does (λ d. lift (next_block d) >>= λ b. modify take_block >> sends b) get-Does
        (bind-Does (λ b. modify take_block >> sends b) block-is
          (bind-Does (λ _. sends (block_at d i n)) (modify-Does take_block)
            (bind-Does (follows (block_at d i n))
              (send_block_until-Does (take_block d) (block_at d i n) c
                (block_at-IsSent d i n c (suc left) ready enough) ready.has_room ready.packet_fits)
              (subst
                (λ t.
                  Does (by_bit t) (At line (message (block_at d i n) ∷ []) inbox) (take_block d) tt
                    (in_state d.current_state (take_block d))
                    (At line (message (block_at d i n) ∷ []) inbox))
                (sym bit) (continue_blocks-Does (take_block d) _ inbox)))))
    where
      by_bit : ContinueBit → M W (Unit {0})
      by_bit ContinueBit.terminate_transfer = await_ack host (suc rounds)
      by_bit ContinueBit.continue_transfer = continue_blocks host

      follows : BlockTxRxPacket → Bool → M W (Unit {0})
      follows b t =
          if t
          then by_bit (get_continue_bit b.header)
          else set_next_fsm_state host FsmState.terminate

      sends : BlockTxRxPacket → M W (Unit {0})
      sends b = send_block_until host (suc rounds) b >>= follows b

      block-is :
          Does (lift (next_block d)) (At line [] inbox) d (block_at d i n) d (At line [] inbox)
      block-is = record { does = λ w v. (w, ap (λ o. lift o d w) (next_block_lem d i n ready), v) }

      bit : get_continue_bit (block_at d i n).header ≡ ContinueBit.continue_transfer
      bit =
          block_at-bit d i n c (suc left) ready enough
          ∙ ap
              (λ (t : Bool).
                if t then ContinueBit.terminate_transfer else ContinueBit.continue_transfer)
              (gt→leb n (room d) more)
