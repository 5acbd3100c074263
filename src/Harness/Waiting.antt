-- ===== src/Harness/Waiting.antt =====
-- Where the machines of dataDump/DDTest.cpp wait for ever: their timers are the `btimer`s of the program,
-- which nothing makes expire.
use data_dump_protocol.Base.{
  ℕ, suc, ◌<◌, ◌≤◌, ◌≡◌, refl, sym, ap, ◌∙◌, true, false, not, ltb, if◌then◌else◌, List, [], ◌∷◌,
  ◌++◌, length, ok, pending, arith, ◌==◌, ne→==_false, lt→ltb, le→ltb,
}
use native.Mathlib.Decide.{dec_le}
use data_dump_protocol.BTimer.{is_expired}
use data_dump_protocol.Packet.Types.{MsgType, u8}
use data_dump_protocol.Packet.Transaction.{TransactionPacket, header_size, get_packet_size}
use data_dump_protocol.Packet.Block.{empty_block}
use data_dump_protocol.Packet.WireTransaction.{header_bytes}
use data_dump_protocol.DataDump.State.{DataDump, FsmState}
use data_dump_protocol.DataDump.Does.{Does, bind-Does, poll-Does, pure-Does}
use data_dump_protocol.DataDump.Entering.{entered, enter-Does}
use data_dump_protocol.DataDump.Line.{in_state}
use data_dump_protocol.DataDump.Hangs.{
  Hangs, Silent, bind-Hangs, then-Hangs, poll-Hangs, expired-Does, block-Does, receive_until-Hangs,
}
use data_dump_protocol.DataDump.Ops.{send_transaction, receive_block, timer_is_expired}
use data_dump_protocol.DataDump.Polling.{send_transaction_lem}
use data_dump_protocol.DataDump.Shared.{send_until}
use data_dump_protocol.Client.States.{client_response, client_block, await_block}
use data_dump_protocol.Client.Loop.{client_loop, client_dispatch}
use data_dump_protocol.Server.States.{server_initiate_block, await_ack}
use data_dump_protocol.Server.Loop.{server_loop, server_dispatch}
use data_dump_protocol.Harness.Channel.{Channel, channel_limit, channel_send, channel_receive}
use data_dump_protocol.Harness.World.{
  World, client_host, server_host, client_send, client_receive, server_receive,
}

-- No message waits for the client, and its timer is not marked as expired.
abbrev pub ClientIdle : World → Type 0
ClientIdle w = (w.server_out_channel ≡ []) × (w.client_timer.timer_expiry ≡ false)

abbrev pub ServerIdle : World → Type 0
ServerIdle w = (w.server_in_channel ≡ []) × (w.server_timer.timer_expiry ≡ false)

empty-receive : (n : ℕ) → channel_receive n [] ≡ ([], [])
unfolding channel_receive
empty-receive n = ground arith

client-Silent : Silent client_host ClientIdle
unfolding client_host client_receive is_expired
client-Silent = record {
  receive = client_receive;
  receives = refl;
  nothing = λ n w v.
      let got = ap (channel_receive n) v.0 ∙ empty-receive n in
      (ap (λ r. r.0) got, (ap (λ r. r.1) got, v.1));
  unexpired = λ w v. (v.1, (v.0, refl));
  free = λ m w. refl;
  kept = λ m w v. v;
}

server-Silent : Silent server_host ServerIdle
unfolding server_host server_receive is_expired
server-Silent = record {
  receive = server_receive;
  receives = refl;
  nothing = λ n w v.
      let got = ap (channel_receive n) v.0 ∙ empty-receive n in
      (ap (λ r. r.0) got, (ap (λ r. r.1) got, v.1));
  unexpired = λ w v. (v.1, (v.0, refl));
  free = λ m w. refl;
  kept = λ m w v. v;
}

client_loop-Hangs :
    (rounds : ℕ) (s : FsmState) (d : DataDump)
    → Hangs (client_dispatch client_host rounds s) ClientIdle (entered (in_state s d))
    → Hangs (client_loop client_host rounds) ClientIdle (in_state s d)
unfolding client_loop
client_loop-Hangs rounds s d h =
    then-Hangs (client_dispatch client_host rounds)
      (enter-Does client_host client-Silent.free client-Silent.kept (in_state s d)) h

server_loop-Hangs :
    (rounds : ℕ) (s : FsmState) (d : DataDump)
    → Hangs (server_dispatch server_host rounds s) ServerIdle (entered (in_state s d))
    → Hangs (server_loop server_host rounds) ServerIdle (in_state s d)
unfolding server_loop
server_loop-Hangs rounds s d h =
    then-Hangs (server_dispatch server_host rounds)
      (enter-Does server_host server-Silent.free server-Silent.kept (in_state s d)) h

response-Hangs :
    (rounds : ℕ) (d : DataDump) → Hangs (client_response client_host rounds) ClientIdle d
unfolding client_response
response-Hangs rounds d = bind-Hangs _ (receive_until-Hangs client-Silent d rounds MsgType.response)

block-Hangs : (rounds : ℕ) (d : DataDump) → Hangs (client_block client_host rounds) ClientIdle d
unfolding client_block await_block
block-Hangs rounds d = bind-Hangs _ (
    bind-Hangs _ (
      poll-Hangs (λ s. Unit {0}) (λ s. receive_block client_host s.1 MsgType.block_transfer)
        (timer_is_expired client_host) (λ s. s.0 == 0)
        (λ s i. ((0, s.1), tt, refl, block-Does client-Silent d s.1 MsgType.block_transfer))
        (expired-Does client-Silent d) rounds (0, empty_block) tt))

initiate-Hangs :
    (rounds : ℕ) (d : DataDump) → Hangs (server_initiate_block server_host rounds) ServerIdle d
unfolding server_initiate_block
initiate-Hangs rounds d =
    bind-Hangs _ (receive_until-Hangs server-Silent d rounds MsgType.initiate_block_transfer)

ack-Hangs : (rounds : ℕ) (d : DataDump) → Hangs (await_ack server_host rounds) ServerIdle d
unfolding await_ack
ack-Hangs rounds d = bind-Hangs _ (receive_until-Hangs server-Silent d rounds MsgType.block_ack)

-- A client of the program in the state RESPONSE or BLOCK, with no message for it and its timer not marked,
-- stays in that call of its loop: neither returns in any number of rounds, whatever the deadline of the
-- timer.
pub client_waits_for_ever :
    (rounds : ℕ) (d : DataDump) (w : World)
    → w.server_out_channel ≡ []
    → w.client_timer.timer_expiry ≡ false
    → (client_loop client_host rounds (in_state FsmState.response d) w ≡ pending)
      × (client_loop client_host rounds (in_state FsmState.block d) w ≡ pending)
unfolding client_dispatch
client_waits_for_ever rounds d w e f = (
  (client_loop-Hangs rounds FsmState.response d (response-Hangs rounds _)).hangs w (e, f),
  (client_loop-Hangs rounds FsmState.block d (block-Hangs rounds _)).hangs w (e, f),
)

-- A server of the program that waits for the start of the blocks, or for the acknowledgement of the last
-- one, with no message for it and its timer not marked, stays in that wait: it does not return in any
-- number of rounds, whatever the deadline of the timer.
pub server_waits_for_ever :
    (rounds : ℕ) (d : DataDump) (w : World)
    → w.server_in_channel ≡ []
    → w.server_timer.timer_expiry ≡ false
    → (server_loop server_host rounds (in_state FsmState.initiate_block d) w ≡ pending)
      × (await_ack server_host rounds d w ≡ pending)
unfolding server_dispatch
server_waits_for_ever rounds d w e f = (
  (server_loop-Hangs rounds FsmState.initiate_block d (initiate-Hangs rounds _)).hangs w (e, f),
  (ack-Hangs rounds d).hangs w (e, f),
)

-- The queue is full, and the timer of its sender not marked.
abbrev Full : World → Type 0
Full w = (channel_limit ≤ length w.server_in_channel) × (w.client_timer.timer_expiry ≡ false)

full-send :
    (message : List ℕ) (channel : Channel)
    → channel_limit ≤ length channel
    → channel_send message channel ≡ (false, channel)
unfolding channel_send
full-send message channel full = ground arith

room-send :
    (message : List ℕ) (channel : Channel)
    → 0 < length message
    → length channel < channel_limit
    → channel_send message channel ≡ (true, channel ++ message ∷ [])
unfolding channel_send
room-send message channel some_bytes room =
    rw
      (
        ne→==_false (length message) 0 (λ e. omega (arith, e, some_bytes)),
        lt→ltb (length channel) channel_limit room,
      )
      refl

module _ (d : DataDump) (p : TransactionPacket) (nodata : p.header.data_buffer_size ≡ 0)
    (fits : header_size ≤ d.max_packet_size) where
  tries :
      (q : TransactionPacket) (w : World)
      → q ≡ p
      → send_transaction client_host q (u8 (get_packet_size q)) d w
        ≡ ok (
          ((client_send (header_bytes 0 p.header) w).0, p),
          d,
          (client_send (header_bytes 0 p.header) w).1,
        )
  unfolding client_host
  tries q w e =
      ap (λ q. send_transaction client_host q (u8 (get_packet_size q)) d w) e
      ∙ ap (λ (len : ℕ). send_transaction client_host p len d w) size
      ∙ send_transaction_lem client_host client_send p d w refl nodata fits
    where
      size : u8 (get_packet_size p) ≡ header_size
      size = unfold get_packet_size in omega arith

  Full-Hangs : (rounds : ℕ) → Hangs (send_until client_host rounds p) Full d
  unfolding send_until client_host client_send timer_is_expired is_expired
  Full-Hangs rounds = bind-Hangs _ (
      poll-Hangs (λ s. s.1 ≡ p) (λ s. send_transaction client_host s.1 (u8 (get_packet_size s.1)))
        (timer_is_expired client_host) (λ s. not s.0)
        (λ s i. (
          (false, p),
          refl,
          refl,
          record {
            does = λ w v.
                let refused = full-send (header_bytes 0 p.header) w.server_in_channel v.0 in
                (
                  (client_send (header_bytes 0 p.header) w).1,
                  tries s.1 w i
                      ∙ ap (λ r. ok ((r.0, p), d, record w { server_in_channel = r.1 })) refused
                      ∙ ap (λ c. ok ((false, p), d, record w { server_in_channel = c }))
                          (sym (ap (λ r. r.1) refused)),
                  (omega (arith, ap (λ r. length r.1) refused, v.0), v.1),
                );
          },
        ))
        record {
          does = λ w v. (
            (client_host.timer_is_expired w).1,
            ap (λ t. ok (t, d, (client_host.timer_is_expired w).1)) v.1,
            (v.0, refl),
          );
        }
        rounds (false, p) refl)

  abbrev sent : World → World
  sent w = record w { server_in_channel = w.server_in_channel ++ header_bytes 0 p.header ∷ [] }

  room-Does :
      (rounds : ℕ) (w : World)
      → length w.server_in_channel < channel_limit
      → Does (send_until client_host (suc rounds) p) (λ v. v ≡ w) d true d (λ v. v ≡ sent w)
  unfolding send_until client_send
  room-Does rounds w room =
      bind-Does _
        (poll-Does (λ s. send_transaction client_host s.1 (u8 (get_packet_size s.1)))
          (timer_is_expired client_host) rounds (λ s. not s.0) (false, p) refl
          record {
            does = λ v e.
                let taken =
                  ap (λ (x : World). channel_send (header_bytes 0 p.header) x.server_in_channel) e
                  ∙ room-send (header_bytes 0 p.header) w.server_in_channel (omega arith) room in
                (
                  (client_send (header_bytes 0 p.header) v).1,
                  tries p v refl
                      ∙ ap (λ t. ok ((t, p), d, (client_send (header_bytes 0 p.header) v).1))
                          (ap (λ r. r.0) taken),
                  (λ i. record (e i) { server_in_channel = (taken i).1 }),
                );
          })
        pure-Does

  -- A message without data that fits the packets of the object: the loop that the program's client sends
  -- it with returns at once, the message behind the others, if the queue has room. If it is full and the
  -- timer is not marked, the loop does not return in any number of rounds.
  pub send_until_lem :
      (rounds : ℕ) (w : World)
      → w.client_timer.timer_expiry ≡ false
      → send_until client_host (suc rounds) p d w ≡ (
          if ltb (length w.server_in_channel) channel_limit
          then ok (
            true,
            d,
            record w { server_in_channel = w.server_in_channel ++ header_bytes 0 p.header ∷ [] },
          )
          else pending)
  send_until_lem rounds w f = elim (dec_le channel_limit (length w.server_in_channel)) [
    | yes full ↦
        (Full-Hangs (suc rounds)).hangs w (full, f)
        ∙ ap (λ b. if b then ok (true, d, sent w) else pending)
            (sym (le→ltb (length w.server_in_channel) channel_limit full))
    | no room ↦
        let (w1, e, v) = (room-Does rounds w (omega (arith, room))).does w refl in
        e
        ∙ ap (λ w1. ok (true, d, w1)) v
        ∙ ap (λ b. if b then ok (true, d, sent w) else pending)
            (sym (lt→ltb (length w.server_in_channel) channel_limit (omega (arith, room))))
  ]
