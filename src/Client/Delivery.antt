-- ===== src/Client/Delivery.antt =====
-- The state BLOCK of dataDump/DDClient.cpp over a line to a server, for every block but the last.
use data_dump_protocol.Base.{
  ℕ, suc, ◌<◌, ◌≤◌, ◌≡◌, sym, ◌∙◌, List, [], ◌∷◌, length, true, Bool, arith, subst, if◌then◌else◌,
  ne→==_false, ◌==◌,
}
use data_dump_protocol.Packet.Types.{MsgType, ContinueBit}
use data_dump_protocol.Packet.BlockHeader.{get_continue_bit}
use data_dump_protocol.Packet.Block.{BlockTxRxPacket, empty_block, get_packet_size}
use data_dump_protocol.Packet.WireBlock.{IsBlock}
use data_dump_protocol.DataDump.State.{DataDump, Host}
use data_dump_protocol.DataDump.Monad.{M, ◌>>=◌, ◌>>◌, skip, pure}
use data_dump_protocol.DataDump.Carry.{wire, wire-length, receive_block_lem}
use data_dump_protocol.DataDump.Does.{Does, bind-Does, passed-Does, skip-Does, pure-Does, poll-Does}
use data_dump_protocol.DataDump.Entering.{current-Does}
use data_dump_protocol.DataDump.Line.{Line, At, locks-free, locks-At, in_state, asks-Does}
use data_dump_protocol.DataDump.Ops.{receive_block, timer_is_expired}
use data_dump_protocol.Client.States.{
  client_block, await_block, store_block, send_ack, await_more, send_acknot,
}
use data_dump_protocol.Client.Storage.{HasRoom, with_stored, store_block_lem}

module _ {W : Type 0} {host : Host W} {out inn : W → List (List ℕ)} {kept : W → Type 0}
    (line : Line host out inn kept) (outbox : List (List ℕ)) (rounds : ℕ) (b : BlockTxRxPacket)
    (bytes : List ℕ) (well_formed : IsBlock b bytes)
    (kind : b.header.msg_type ≡ MsgType.block_transfer) (nocrc : b.header.crc ≡ 0) where
  some_bytes : 0 < get_packet_size b
  unfolding get_packet_size
  some_bytes = omega arith

  await_block-Does :
      (d : DataDump)
      → get_packet_size b ≤ d.max_packet_size
      → Does
          (await_block host (suc rounds))
          (At line outbox (wire b bytes ∷ []))
          d
          (get_packet_size b, b)
          d
          (At line outbox [])
  unfolding await_block
  await_block-Does d fits =
      bind-Does _
        (poll-Does (λ s. receive_block host s.1 MsgType.block_transfer) (timer_is_expired host)
          rounds (λ s. s.0 == 0) (0, empty_block)
          (ne→==_false (get_packet_size b) 0 (λ e. omega (arith, e, some_bytes)))
          record {
            does = λ w (e, f, k).
                let (came, o, i, j) =
                  line.handed d.max_packet_size w (wire b bytes) f
                    (omega (arith, wire-length b bytes well_formed, some_bytes))
                    (omega (arith, wire-length b bytes well_formed, fits)) k in
                (
                  (line.receive d.max_packet_size w).1,
                  receive_block_lem host line.receive empty_block b bytes MsgType.block_transfer d w
                      line.receives came well_formed kind (λ e. cc e) nocrc fits,
                  (o ∙ e, i, j),
                );
          })
        (bind-Does (λ _. pure (get_packet_size b, b))
          (passed-Does
            (timer_is_expired host >>= λ expired.
              if expired then skip else (timer_is_expired host >> skip))
            (get_packet_size b == 0)
            (ne→==_false (get_packet_size b) 0 (λ e. omega (arith, e, some_bytes))) skip-Does)
          pure-Does)

  await_more-Does :
      (d : DataDump)
      → Does
          (await_more host)
          (At line outbox [])
          d
          tt
          (in_state d.current_state d)
          (At line outbox [])
  unfolding await_more
  await_more-Does d =
      bind-Does _ (current-Does host (locks-free line) (locks-At line outbox []) d)
        (asks-Does line outbox [] d.current_state (λ d. d.server_config.max_ack_timeout) d)

  pub block-Does :
      (d : DataDump) (start room : ℕ)
      → get_packet_size b ≤ d.max_packet_size
      → HasRoom d start room
      → length bytes ≤ room
      → get_continue_bit b.header ≡ ContinueBit.continue_transfer
      → Does
          (client_block host (suc rounds))
          (At line outbox (wire b bytes ∷ []))
          d
          tt
          (in_state d.current_state (with_stored d start bytes))
          (At line outbox [])
  unfolding client_block
  block-Does d start room fits free enough bit =
      bind-Does (λ r. store_block host r.0 r.1 >>= follows r.1) (await_block-Does d fits)
        (bind-Does (follows b) stores (
          subst
            (λ t.
              Does (by_bit t) (At line outbox []) (with_stored d start bytes) tt
                (in_state d.current_state (with_stored d start bytes)) (At line outbox []))
            (sym bit) (await_more-Does (with_stored d start bytes))))
    where
      by_bit : ContinueBit → M W (Unit {0})
      by_bit ContinueBit.terminate_transfer = send_ack host (suc rounds)
      by_bit ContinueBit.continue_transfer = await_more host

      follows : BlockTxRxPacket → Bool → M W (Unit {0})
      follows b t = if t then by_bit (get_continue_bit b.header) else send_acknot host (suc rounds)

      stores :
          Does
            (store_block host (get_packet_size b) b)
            (At line outbox [])
            d
            true
            (with_stored d start bytes)
            (At line outbox [])
      stores = record {
        does = λ w v. (
          w,
          store_block_lem host d w start room (get_packet_size b) b bytes free some_bytes
              well_formed.held well_formed.sized enough,
          v,
        );
      }
