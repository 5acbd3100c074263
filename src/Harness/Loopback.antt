-- ===== src/Harness/Loopback.antt =====
-- `DDTXRXTest` of dataDump/DDTest.cpp: a buffer sent to the server's queue and received from it,
-- twenty bytes at a time.
use data_dump_protocol.Base.{
  ℕ, ◌+◌, ◌*◌, ◌%◌, ◌≤◌, ◌≡◌, refl, sym, ap, ◌∙◌, arith, zero, suc, List, [], ◌++◌, Outcome, ok,
  ◌>>=◌, length, take, drop, replicate, length-append, length-take, length-drop, append_assoc,
  take-append, drop-append-drop, take-take-drop, le→leb,
}
use data_dump_protocol.Packet.Memory.{Memory, load_bytes, store_bytes}
use data_dump_protocol.Harness.Channel.{Channel, channel_send, channel_receive}
use data_dump_protocol.Harness.World.{World, client_send, server_receive}
use data_dump_protocol.Harness.Main.{tabulate}

-- The rounds that are left, from the index `i` on, and the buffer that is received into.
unfoldable pub loop_back : ℕ → ℕ → Memory → Memory → World → Outcome (Memory × World)
unfolding client_send server_receive
loop_back zero i send recv w = ok (recv, w)
loop_back (suc n) i send recv w = do
  message ← load_bytes send i 20
  let sent = client_send message w
  let received = server_receive 20 sent.1
  recv' ← store_bytes recv i received.0
  loop_back n (i + 20) send recv' received.1

-- Ten rounds over buffers of 210 bytes, after which the test waits for ever.
unfoldable pub ddtxrx_test : World → Outcome (Memory × World)
ddtxrx_test = loop_back 10 0 (tabulate 210 (λ i. i % 256)) (replicate 210 0)

passed :
    (message : List ℕ)
    → length message ≡ 20
    → channel_receive 20 (channel_send message []).1 ≡ (message, [])
unfolding channel_send channel_receive
passed message sized = ground arith

passes :
    (message : List ℕ) (w : World)
    → w.server_in_channel ≡ []
    → length message ≡ 20
    → server_receive 20 (client_send message w).1 ≡ (message, w)
unfolding client_send server_receive
passes message w empty sized =
    ap (λ (r : List ℕ × Channel). (r.0, record w { server_in_channel = r.1 }))
      (ap (λ c. channel_receive 20 (channel_send message c).1) empty ∙ passed message sized)
    ∙ (λ i. (message, record w { server_in_channel = sym empty i }))

-- The bytes of `send` before the index `i`, and behind them those of `recv`.
abbrev joined : ℕ → Memory → Memory → Memory
joined i send recv = take i send ++ drop i recv

module _ (i : ℕ) (send recv : Memory) (fits : i + 20 ≤ length send)
    (room : i + 20 ≤ length recv) where
  head_length : length (take i send) ≡ i
  head_length = omega (arith, length-take i send)

  part_length : length (take 20 (drop i send)) ≡ 20
  part_length = omega (arith, length-take 20 (drop i send), length-drop i send)

  length-joined : i + 20 ≤ length (joined i send recv)
  length-joined =
      omega (arith, length-append (take i send) (drop i recv), head_length, length-drop i recv)

  stores :
      store_bytes (joined i send recv) i (take 20 (drop i send)) ≡ ok (joined (i + 20) send recv)
  stores =
      rw
        (
          part_length,
          le→leb (i + 20) (length (joined i send recv)) length-joined,
          take-append i (take i send) (drop i recv) head_length,
          drop-append-drop i (i + 20) (take i send) recv head_length (omega arith),
        )
        (ap ok (
          sym (append_assoc (take i send) (take 20 (drop i send)) (drop (i + 20) recv))
          ∙ ap (λ bytes. bytes ++ drop (i + 20) recv) (take-take-drop i 20 (i + 20) send refl)))

loops :
    (n i k : ℕ) (send recv : Memory) (w : World)
    → i + n * 20 ≡ k
    → k ≤ length send
    → k ≤ length recv
    → w.server_in_channel ≡ []
    → loop_back n i send (joined i send recv) w ≡ ok (joined k send recv, w)
unfolding loop_back
loops zero i k send recv w e fits room empty =
    ap (λ (j : ℕ). ok (joined j send recv, w)) (omega arith)
loops (suc n) i k send recv w e fits room empty = rw (le→leb (i + 20) (length send) (omega arith)) (
    ap
      (λ (r : List ℕ × World).
        store_bytes (joined i send recv) i r.0 >>= λ recv'. loop_back n (i + 20) send recv' r.1)
      (passes (take 20 (drop i send)) w empty (part_length i send recv (omega arith) (omega arith)))
    ∙ (ap (λ o. o >>= λ recv'. loop_back n (i + 20) send recv' w)
          (stores i send recv (omega arith) (omega arith))
        ∙ loops n (i + 20) k send recv w (omega arith) fits room empty))

-- With an empty queue, any number of rounds that both buffers have room for copies that many times
-- twenty bytes, to the byte and in order, leaves the rest of the receiving buffer alone, and the
-- queue and the rest of the program as they were.
pub loop_back_lem :
    (n : ℕ) (send recv : Memory) (w : World)
    → n * 20 ≤ length send
    → n * 20 ≤ length recv
    → w.server_in_channel ≡ []
    → loop_back n 0 send recv w ≡ ok (take (n * 20) send ++ drop (n * 20) recv, w)
loop_back_lem n send recv w fits room empty =
    loops n 0 (n * 20) send recv w (omega arith) fits room empty

-- Of the 210 bytes the test's ten rounds bring 200.
ddtxrx_test_lem :
    (w : World)
    → w.server_in_channel ≡ []
    → ddtxrx_test w ≡ ok (take 200 (tabulate 210 (λ i. i % 256)) ++ replicate 10 0, w)
unfolding ddtxrx_test
ddtxrx_test_lem w empty =
    loop_back_lem 10 (tabulate 210 (λ i. i % 256)) (replicate 210 0) w (omega arith) (omega arith)
      empty
