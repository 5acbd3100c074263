-- ===== src/Server/Sending.antt =====
-- The state BLOCK of dataDump/DDServer.cpp when the transport takes what it is given.
use data_dump_protocol.Base.{
  ℕ, suc, ◌*◌, ◌<◌, ◌≡◌, ap, ◌∙◌, List, some, true, Bool, not, Outcome, ok, fault, pending, arith,
  if◌then◌else◌, gt→leb,
}
use data_dump_protocol.Packet.Types.{u8, ContinueBit}
use data_dump_protocol.Packet.BlockHeader.{get_continue_bit}
use data_dump_protocol.Packet.Block
use data_dump_protocol.Packet.Block.{BlockTxRxPacket}
use data_dump_protocol.DataDump.State.{DataDump, Host, FsmState, Mutex}
use data_dump_protocol.DataDump.Monad.{M, ◌>>=◌, ◌>>◌, pure, get, skip, lift, modify, poll}
use data_dump_protocol.DataDump.Phase.{bind-ok}
use data_dump_protocol.DataDump.Ops.{
  timer_is_expired, send_block, get_current_fsm_state, set_next_fsm_state,
  start_state_transition_timer,
}
use data_dump_protocol.DataDump.Carry.{wire, send_block_lem}
use data_dump_protocol.Server.Blocks.{take_block}
use data_dump_protocol.Server.OneBlock.{
  room, payload, IsReady, IsEnough, IsSent, block_at, block_at-bit, block_at-IsSent, next_block_lem,
}
use data_dump_protocol.Server.States.{server_block, send_block_until, continue_blocks, await_ack}

module _ {W : Type 0} (host : Host W) (f : List ℕ → W → Bool × W) (callback : host.send_cb ≡ some f)
    (accepts : (bytes : List ℕ) (w : W) → (f bytes w).0 ≡ true) where
  -- A packet that is taken at once is sent once.
  sent_at_once :
      (b : BlockTxRxPacket) (rounds : ℕ) (d : DataDump) (w : W) (c : ℕ)
      → IsSent (room d) c b
      → Block.header_size < d.max_packet_size
      → d.max_packet_size < 256
      → send_block_until host (suc rounds) b d w ≡ ok (true, d, (f (wire b (payload b.buffer)) w).1)
  unfolding send_block_until poll
  sent_at_once b rounds d w c sent has_room small =
      ap
        (λ o. elim o [
          | ok r ↦
              (if not r.0
                  then (timer_is_expired host >>= λ stopped.
                      if stopped
                      then pure r.0
                      else poll rounds (λ _. send_block host b (u8 (Block.get_packet_size b))) not
                          (timer_is_expired host) r.0)
                  else pure r.0)
                r.1 r.2
          | fault ↦ fault
          | pending ↦ pending
        ])
        (send_block_lem host f b (payload b.buffer) (u8 (Block.get_packet_size b)) d w callback
            sent.well_formed (unfold Block.get_packet_size in omega arith)
            (unfold Block.get_packet_size in omega (arith, sent.fits, sent.well_formed.sized)) small
          ∙ ap (λ (t : Bool). ok (t, d, (f (wire b (payload b.buffer)) w).1))
              (accepts (wire b (payload b.buffer)) w))

  module _ (free : (m : Mutex) (w : W) → (host.try_lock m w).0 ≡ true) where
    goes_on :
        (d : DataDump) (w : W)
        → (w' : W) × (continue_blocks host d w
            ≡ ok (tt, record d { next_state = d.current_state }, w'))
    unfolding continue_blocks get_current_fsm_state set_next_fsm_state start_state_transition_timer
    goes_on d w = (
      (host.timer_start (d.client_config.max_ack_timeout * 100) w2).1,
      ap
            (λ (t : Bool).
              asks (if t then d.current_state else FsmState.terminate)
                (host.try_lock Mutex.nxt_mutex w1).0 d w2)
            (free Mutex.cur_mutex w)
          ∙ ap (λ (t : Bool). asks d.current_state t d w2) (free Mutex.nxt_mutex w1),
    )
      where
        w1 : W
        w1 = (host.try_lock Mutex.cur_mutex w).1

        w2 : W
        w2 = (host.try_lock Mutex.nxt_mutex w1).1

        asks : FsmState → Bool → M W (Unit {0})
        asks s t =
            (if t then modify (λ d. record d { next_state = s }) else skip)
            >> (get >>= λ d.
                start_state_transition_timer host d.client_config.max_ack_timeout >> skip)

    -- With more data ready than a block holds, frames left for it, a transport that takes every
    -- message and mutexes that are free, a step of the state BLOCK returns: the buffer and the frame
    -- counter have moved on by the block, the machine asks for the state that it is in, and nothing
    -- else of the object has changed.
    pub server_block_continues :
        (rounds : ℕ) (d : DataDump) (w : W) (i n c left : ℕ)
        → IsReady d i n
        → IsEnough d n c (suc left)
        → room d < n
        → (w' : W) × (server_block host (suc rounds) d w
            ≡ ok (tt, record (take_block d) { next_state = d.current_state }, w'))
    unfolding server_block
    server_block_continues rounds d w i n c left ready enough more =
        let (w', e) = goes_on (take_block d) sent_world in
        (
          w',
          ap (λ (o : Outcome BlockTxRxPacket). (lift o >>= sends) d w) (next_block_lem d i n ready)
              ∙ bind-ok (send_block_until host (suc rounds) b) follows (take_block d) (take_block d)
                  w sent_world true
                  (sent_at_once b rounds (take_block d) w c sent ready.has_room ready.packet_fits)
              ∙ ap (λ (t : ContinueBit). (by_bit t) (take_block d) sent_world) bit
              ∙ e,
        )
      where
        b : BlockTxRxPacket
        b = block_at d i n

        sent : IsSent (room d) c b
        sent = block_at-IsSent d i n c (suc left) ready enough

        sent_world : W
        sent_world = (f (wire b (payload b.buffer)) w).1

        bit : get_continue_bit b.header ≡ ContinueBit.continue_transfer
        bit =
            block_at-bit d i n c (suc left) ready enough
            ∙ ap
                (λ (t : Bool).
                  if t then ContinueBit.terminate_transfer else ContinueBit.continue_transfer)
                (gt→leb n (room d) more)

        by_bit : ContinueBit → M W (Unit {0})
        by_bit ContinueBit.terminate_transfer = await_ack host (suc rounds)
        by_bit ContinueBit.continue_transfer = continue_blocks host

        follows : Bool → M W (Unit {0})
        follows t =
            if t
            then by_bit (get_continue_bit b.header)
            else set_next_fsm_state host FsmState.terminate

        sends : BlockTxRxPacket → M W (Unit {0})
        sends block =
            modify take_block
            >> (send_block_until host (suc rounds) block >>= λ t.
                if t
                then (elim (get_continue_bit block.header) [
                  | ContinueBit.terminate_transfer ↦ await_ack host (suc rounds)
                  | ContinueBit.continue_transfer ↦ continue_blocks host
                ])
                else set_next_fsm_state host FsmState.terminate)
