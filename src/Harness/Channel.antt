-- ===== src/Harness/Channel.antt =====
-- `serverSend`, `serverReceive`, `clientSend` and `clientReceive` of dataDump/DDTest.cpp, over the
-- queue that each of them locks. The oldest message is the head.
use data_dump_protocol.Base.{
  ℕ, zero, suc, ◌+◌, ◌≤◌, ◌<◌, ◌≡◌, refl, sym, ap, ◌∙◌, ◌&&◌, All, lt→ltb, ne→==_false, append-nil,
  append_assoc, length-append, List, [], ◌∷◌, ◌++◌, Bool, true, false, ltb, leb, ◌==◌,
  if◌then◌else◌, length, arith,
}

abbrev pub Channel : Type 0
Channel = List (List ℕ)

abbrev pub channel_limit : ℕ
channel_limit = 20

-- A message goes in if it is not empty and the queue has room.
unfoldable pub channel_send : List ℕ → Channel → Bool × Channel
channel_send message channel =
    if length message == 0
    then (false, channel)
    else if ltb (length channel) channel_limit
    then (true, channel ++ message ∷ [])
    else (false, channel)

-- The oldest message is taken out; one that is longer than the buffer is lost.
abbrev pub deliver : Channel → ℕ → List ℕ × Channel
deliver [] max_length = ([], [])
deliver (message ∷ rest) max_length =
    if leb (length message) max_length then (message, rest) else ([], rest)

unfoldable pub channel_receive : ℕ → Channel → List ℕ × Channel
channel_receive max_length channel =
    if max_length == 0 then ([], channel) else deliver channel max_length

-- The oldest message comes out, whole, if it fits the receiver's buffer.
pub channel-fifo :
    (message : List ℕ) (rest : Channel) (max_length : ℕ)
    → 0 < max_length
    → length message ≤ max_length
    → channel_receive max_length (message ∷ rest) ≡ (message, rest)
unfolding channel_receive
channel-fifo message rest max_length pos fits = ground arith

-- One message after the other goes in; the answer is whether all did.
unfoldable pub send_all : List (List ℕ) → Channel → Bool × Channel
send_all [] channel = (true, channel)
send_all (message ∷ rest) channel =
    let r = channel_send message channel in let s = send_all rest r.1 in (r.0 && s.0, s.1)

-- So many calls of the receiver, with what each brought.
unfoldable pub receive_all : ℕ → ℕ → Channel → List (List ℕ) × Channel
receive_all max_length zero channel = ([], channel)
receive_all max_length (suc n) channel =
    let r = channel_receive max_length channel in
    let s = receive_all max_length n r.1 in (r.0 ∷ s.0, s.1)

-- A message that a receiver of `max_length` bytes takes.
abbrev pub Fits : ℕ → List ℕ → Type 0
Fits max_length message = (0 < length message) × (length message ≤ max_length)

send_all_appends :
    (max_length : ℕ) (messages channel : List (List ℕ))
    → All (Fits max_length) messages
    → length channel + length messages ≤ channel_limit
    → send_all messages channel ≡ (true, channel ++ messages)
unfolding send_all channel_send
send_all_appends max_length [] channel fit room =
    ap (λ (c : Channel). (true, c)) (sym (append-nil channel))
send_all_appends max_length (message ∷ rest) channel (fits, fit) room =
    rw
      (
        ne→==_false (length message) 0 (λ e. omega arith),
        lt→ltb (length channel) channel_limit (omega arith),
        send_all_appends max_length rest (channel ++ message ∷ []) fit
            (omega (arith, length-append channel (message ∷ []))),
      )
      (ap (λ (c : Channel). (true, c)) (append_assoc channel (message ∷ []) rest))

receive_all_drains :
    (max_length : ℕ) (messages : List (List ℕ))
    → All (Fits max_length) messages
    → receive_all max_length (length messages) messages ≡ (messages, [])
unfolding receive_all
receive_all_drains max_length [] fit = refl
receive_all_drains max_length (message ∷ rest) (fits, fit) = rw (
  channel-fifo message rest max_length (omega arith) fits.1,
  receive_all_drains max_length rest fit,
)

-- Up to twenty messages that are not empty and fit the receiver's buffer go into an empty queue, and
-- as many calls of the receiver bring them in the same order, whole, and leave the queue empty.
pub receive_all-send_all :
    (max_length : ℕ) (messages : List (List ℕ))
    → All (Fits max_length) messages
    → length messages ≤ channel_limit
    → ((send_all messages []).0 ≡ true)
      × (receive_all max_length (length messages) (send_all messages []).1 ≡ (messages, []))
receive_all-send_all max_length messages fit room =
    let sent = send_all_appends max_length messages [] fit (omega arith) in
    (
      ap (λ (r : Bool × Channel). r.0) sent,
      ap (λ (r : Bool × Channel). receive_all max_length (length messages) r.1) sent
          ∙ receive_all_drains max_length messages fit,
    )
