-- ===== src/Transfer.antt =====
-- The data of one transaction on its way from the buffer of dataDump/DDServer.cpp to the array of
-- dataDump/DDClient.cpp.
use data_dump_protocol.Base.{
  ℕ, zero, suc, ◌+◌, ◌-◌, ◌≤◌, ◌≡◌, ◌≢◌, refl, sym, ap, ◌∙◌, List, [], ◌∷◌, ◌++◌, none, some, true,
  false, Bool, ok, arith, length, take, drop, if◌then◌else◌, append_assoc, length-append,
  length-take, take-append-drop, take-append, drop-append, drop-drop,
}
use data_dump_protocol.Packet.Types.{MsgType, code}
use data_dump_protocol.Packet.Memory.{Memory}
use data_dump_protocol.Packet.Block.{BlockTxRxPacket, header_size, empty_block, get_packet_size}
use data_dump_protocol.DataDump.State.{DataDump, Host}
use data_dump_protocol.DataDump.Monad.{M, ◌>>=◌, pure}
use data_dump_protocol.DataDump.Phase.{bind-ok}
use data_dump_protocol.DataDump.Ops.{receive_block}
use data_dump_protocol.DataDump.Carry.{wire, wire-length, receive_block_lem}
use data_dump_protocol.Client.States.{store_block}
use data_dump_protocol.Client.Storage.{
  HasRoom, overwritten, with_stored, store_block_lem, with_stored-HasRoom,
}
use data_dump_protocol.Server.OneBlock.{payload, IsSent, IsReady, IsEnough, room}
use data_dump_protocol.Server.Segments.{segments, payloads, Framed, segments_lem}
use data_dump_protocol.Harness.Channel.{Channel, channel_receive, channel-fifo}

-- A client that has its messages from a channel of dataDump/DDTest.cpp, and nothing else around it.
abbrev pub line_host : Host Channel
line_host = record {
  send_cb = none;
  recv_cb = some channel_receive;
  consumer_cb = none;
  notify_cb = none;
  timer_start = λ interval w. (true, w);
  timer_stop = λ w. (true, w);
  timer_is_expired = λ w. (false, w);
  try_lock = λ mutex w. (true, w);
}

-- What the state BLOCK of the client does with the next `n` messages as long as it stores them.
unfoldable pub download : {W : Type 0} → Host W → ℕ → M W Bool
download host zero = pure true
download host (suc n) = receive_block host empty_block MsgType.block_transfer >>= λ r.
    store_block host r.0 r.1 >>= λ stored. if stored then download host n else pure false

-- The bytes that `send` hands on for each block.
abbrev pub messages : List BlockTxRxPacket → Channel
messages [] = []
messages (b ∷ bs) = wire b (payload b.buffer) ∷ messages bs

with_stored-nil : (d : DataDump) (start k : ℕ) → HasRoom d start k → with_stored d start [] ≡ d
with_stored-nil d start k r = λ i. record d {
  internal_memory = memory_same i;
  internal_buffer = pointer_same i;
  internal_buffer_len = len_same i;
}
  where
    at_start : start + 0 ≡ start
    at_start = omega arith

    memory_same : overwritten d.internal_memory start [] ≡ d.internal_memory
    memory_same =
        ap (λ (k : ℕ). take start d.internal_memory ++ drop k d.internal_memory) at_start
        ∙ take-append-drop start d.internal_memory

    pointer_same : some (start + 0) ≡ d.internal_buffer
    pointer_same = ap some at_start ∙ sym r.at_index

    len_same : d.internal_buffer_len - 0 ≡ d.internal_buffer_len
    len_same = omega arith

pub overwritten-overwritten :
    (mem : Memory) (start : ℕ) (a b : List ℕ)
    → start + length a ≤ length mem
    → overwritten (overwritten mem start a) (start + length a) b ≡ overwritten mem start (a ++ b)
overwritten-overwritten mem start a b fits =
    ap (λ (t : Memory). take k t ++ (b ++ drop (k + length b) t)) (sym (append_assoc front a back))
    ∙ ap (◌++◌ (take k ((front ++ a) ++ back))) (ap (◌++◌ b) tail)
    ∙ ap (λ (t : List ℕ). t ++ (b ++ drop (start + length (a ++ b)) mem))
        (take-append k (front ++ a) back seam)
    ∙ append_assoc front a (b ++ drop (start + length (a ++ b)) mem)
    ∙ ap (◌++◌ front) (sym (append_assoc a b (drop (start + length (a ++ b)) mem)))
  where
    k : ℕ
    k = start + length a

    front : List ℕ
    front = take start mem

    back : List ℕ
    back = drop (start + length a) mem

    seam : length (take start mem ++ a) ≡ start + length a
    seam = omega (arith, length-append (take start mem) a, length-take start mem, fits)

    tail :
        drop (start + length a + length b) ((take start mem ++ a) ++ drop (start + length a) mem)
        ≡ drop (start + length (a ++ b)) mem
    tail =
        sym (
          drop-drop (start + length a) (length b) (start + length a + length b)
            ((take start mem ++ a) ++ drop (start + length a) mem) refl)
        ∙ ap (drop (length b)) (
            drop-append (start + length a) (take start mem ++ a) (drop (start + length a) mem) seam)
        ∙ drop-drop (start + length a) (length b) (start + length (a ++ b)) mem
            (omega (arith, length-append a b))

with_stored-with_stored :
    (d : DataDump) (start : ℕ) (a b : List ℕ)
    → start + length a ≤ length d.internal_memory
    → with_stored (with_stored d start a) (start + length a) b ≡ with_stored d start (a ++ b)
with_stored-with_stored d start a b fits = λ i. record d {
  internal_memory = overwritten-overwritten d.internal_memory start a b fits i;
  internal_buffer = some (pointer_same i);
  internal_buffer_len = len_same i;
}
  where
    pointer_same : start + length a + length b ≡ start + length (a ++ b)
    pointer_same = omega (arith, length-append a b)

    len_same : d.internal_buffer_len - length a - length b ≡ d.internal_buffer_len - length (a ++ b)
    len_same = omega (arith, length-append a b)

message_received :
    (b : BlockTxRxPacket) (rest : Channel) (most c : ℕ) (d : DataDump)
    → IsSent most c b
    → header_size + most ≤ d.max_packet_size
    → receive_block line_host empty_block MsgType.block_transfer d
        (wire b (payload b.buffer) ∷ rest)
      ≡ ok ((get_packet_size b, b), d, rest)
unfolding get_packet_size
message_received b rest most c d sent wide =
    receive_block_lem line_host channel_receive empty_block b (payload b.buffer)
      MsgType.block_transfer d (wire b (payload b.buffer) ∷ rest) refl
      (ap (λ (r : List ℕ × Channel). r.0) out) sent.well_formed sent.kind known sent.unchecked fits
    ∙ ap (λ (r : List ℕ × Channel). ok ((get_packet_size b, b), d, r.1)) out
  where
    fits : get_packet_size b ≤ d.max_packet_size
    fits = omega (arith, sent.fits, sent.well_formed.sized)

    out :
        channel_receive d.max_packet_size (wire b (payload b.buffer) ∷ rest)
        ≡ (wire b (payload b.buffer), rest)
    out =
        channel-fifo (wire b (payload b.buffer)) rest d.max_packet_size (omega arith)
          (omega (arith, wire-length b (payload b.buffer) sent.well_formed))

    known : MsgType.block_transfer ≢ MsgType.block_acknot
    known e = omega (arith, ap code e)

download_lem :
    (bs : List BlockTxRxPacket) (most c : ℕ) (d : DataDump) (start k : ℕ)
    → Framed most c bs
    → HasRoom d start k
    → length (payloads bs) ≤ k
    → header_size + most ≤ d.max_packet_size
    → download line_host (length bs) d (messages bs)
      ≡ ok (true, with_stored d start (payloads bs), [])
unfolding download
download_lem [] most c d start k framed r fits wide =
    ap (λ (t : DataDump). ok (true, t, [])) (sym (with_stored-nil d start k r))
download_lem (b ∷ bs) most c d start k (sent, framed) r fits wide =
    bind-ok (receive_block line_host empty_block MsgType.block_transfer) storing d d
      (messages (b ∷ bs)) (messages bs) (get_packet_size b, b)
      (message_received b (messages bs) most c d sent wide)
    ∙ bind-ok (store_block line_host (get_packet_size b) b) going_on d
        (with_stored d start (payload b.buffer)) (messages bs) (messages bs) true
        (store_block_lem line_host d (messages bs) start k (get_packet_size b) b (payload b.buffer)
          r (unfold get_packet_size in omega arith) sent.well_formed.held sent.well_formed.sized
          first_fits)
    ∙ download_lem bs most (suc c) (with_stored d start (payload b.buffer))
        (start + length (payload b.buffer)) (k - length (payload b.buffer)) framed
        (with_stored-HasRoom d start k (payload b.buffer) r first_fits) (omega (arith, both)) wide
    ∙ ap (λ (t : DataDump). ok (true, t, []))
        (with_stored-with_stored d start (payload b.buffer) (payloads bs)
          (omega (arith, r.inside, first_fits)))
  where
    both :
        length (payload b.buffer ++ payloads bs) ≡ length (payload b.buffer) + length (payloads bs)
    both = length-append (payload b.buffer) (payloads bs)

    going_on : Bool → M Channel Bool
    going_on stored = if stored then download line_host (length bs) else pure false

    storing : ℕ × BlockTxRxPacket → M Channel Bool
    storing r = store_block line_host r.0 r.1 >>= going_on

    first_fits : length (payload b.buffer) ≤ k
    first_fits = omega (arith, both, fits)

-- Data that stands ready, that the agreed number of blocks can hold, and that fits the room of the
-- client, whose packets are at least as long as the server's, arrives: the server cuts it into
-- blocks, and the client that receives their messages in order, over a channel that loses none, has
-- the data in its array, whole and at its place. Its pointer and length move by the data's size, and
-- nothing else in the object changes.
pub transfer_lem :
    (d client : DataDump) (i n c left start k : ℕ)
    → IsReady d i n
    → IsEnough d n c left
    → HasRoom client start k
    → n ≤ k
    → d.max_packet_size ≤ client.max_packet_size
    → (bs : List BlockTxRxPacket) × (segments (suc left) d ≡ ok bs)
      × (download line_host (length bs) client (messages bs)
          ≡ ok (true, with_stored client start (take n (drop i d.internal_memory)), []))
transfer_lem d client i n c left start k ready enough has_room fits wide =
    let (bs, runs, carried, few, framed) = segments_lem left c n i d ready enough in
    (
      bs,
      runs,
      download_lem bs (room d) c client start k framed has_room
            (omega (arith, ap length carried, length-take n (drop i d.internal_memory)))
            (omega (arith, ready.has_room))
          ∙ ap (λ (t : List ℕ). ok (true, with_stored client start t, [])) carried,
    )
