-- ===== src/Harness/Lines.antt =====
-- The queues, the timers and the storage of dataDump/DDTest.cpp as the line between the two machines.
use data_dump_protocol.Base.{
  ℕ, ◌+◌, ◌≤◌, ◌<◌, ◌≡◌, refl, ap, ◌∙◌, List, [], ◌∷◌, some, true, take, ltb, length, if◌then◌else◌,
  arith, ne→==_false,
}
use data_dump_protocol.BTimer.{start}
use data_dump_protocol.DataDump.State.{DataDump}
use data_dump_protocol.DataDump.Line.{Line}
use data_dump_protocol.Server.Opening.{Stores}
use data_dump_protocol.Harness.Channel.{Channel, channel_send, channel_receive, channel-fifo}
use data_dump_protocol.Harness.World.{
  World, server_host, client_host, server_send, server_receive, client_send, client_receive,
  server_storage_read, transfer_size,
}

empty-send :
    (message : List ℕ) (channel : Channel)
    → channel ≡ []
    → 0 < length message
    → channel_send message channel ≡ (true, message ∷ [])
unfolding channel_send
empty-send message channel e some_bytes =
    rw (e, ne→==_false (length message) 0 (λ z. omega (arith, z, some_bytes))) refl

single-receive :
    (n : ℕ) (message : List ℕ) (channel : Channel)
    → channel ≡ message ∷ []
    → 0 < length message
    → length message ≤ n
    → channel_receive n channel ≡ (message, [])
single-receive n message channel e some_bytes fits =
    ap (channel_receive n) e ∙ channel-fifo message [] n (omega arith) fits

abbrev pub Holds : List ℕ → World → Type 0
Holds content w = w.server_storage ≡ content

-- What the storage hands over when it is asked for `n` bytes.
abbrev pub handed : ℕ → List ℕ → List ℕ
handed n content = take (if ltb transfer_size n then transfer_size else n) content

module _ (content : List ℕ) where
  pub client_line :
      Line client_host (λ w. w.server_in_channel) (λ w. w.server_out_channel) (Holds content)
  unfolding client_host client_send client_receive start
  client_line = record {
    send = client_send;
    sends = refl;
    queued = λ bytes w empty some_bytes k.
        let sent = empty-send bytes w.server_in_channel empty some_bytes in
        (ap (λ r. r.0) sent, ap (λ r. r.1) sent, refl, k);
    receive = client_receive;
    receives = refl;
    handed = λ n w message one some_bytes fits k.
        let got = single-receive n message w.server_out_channel one some_bytes fits in
        (ap (λ r. r.0) got, refl, ap (λ r. r.1) got, k);
    locks = λ m w. (refl, refl, refl, λ k. k);
    starts = λ interval w. (refl, refl, refl, λ k. k);
  }

  pub server_line :
      Line server_host (λ w. w.server_out_channel) (λ w. w.server_in_channel) (Holds content)
  unfolding server_host server_send server_receive start
  server_line = record {
    send = server_send;
    sends = refl;
    queued = λ bytes w empty some_bytes k.
        let sent = empty-send bytes w.server_out_channel empty some_bytes in
        (ap (λ r. r.0) sent, ap (λ r. r.1) sent, refl, k);
    receive = server_receive;
    receives = refl;
    handed = λ n w message one some_bytes fits k.
        let got = single-receive n message w.server_in_channel one some_bytes fits in
        (ap (λ r. r.0) got, refl, ap (λ r. r.1) got, k);
    locks = λ m w. (refl, refl, refl, λ k. k);
    starts = λ interval w. (refl, refl, refl, λ k. k);
  }

  pub server-Stores :
      (d : DataDump) (start n : ℕ)
      → d.internal_buffer ≡ some start
      → 0 < length (handed n content)
      → start + length (handed n content) ≤ length d.internal_memory
      → Stores server_host
          (λ w. w.server_out_channel)
          (λ w. w.server_in_channel)
          (Holds content)
          d
          start
          n
          (handed n content)
  unfolding server_host server_storage_read
  server-Stores d start n at some_bytes room = record {
    storage = server_storage_read;
    consumes = refl;
    at_index = at;
    hands = λ w k. ap (handed n) k;
    apart = λ w k. (refl, refl, k);
    some_bytes = some_bytes;
    room = room;
  }
