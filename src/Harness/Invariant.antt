-- ===== src/Harness/Invariant.antt =====
-- What no turn of a thread changes in the program of dataDump/DDTest.cpp.
use data_dump_protocol.Base.{
  ℕ, ◌+◌, ◌≤◌, ◌<◌, ◌≡◌, arith, suc, List, [], ◌∷◌, ◌++◌, some, Bool, true, false, length, All,
  length-append, Bool-cases, ltb, leb, ◌==◌, inl, inr, Outcome, ok, fault, pending, subst,
}
use data_dump_protocol.DataDump.State.{DataDump}
use data_dump_protocol.DataDump.Worlds.{Guards, Reaches}
use data_dump_protocol.Client.Loop.{client_loop}
use data_dump_protocol.Client.Sparing as ClientSparing
use data_dump_protocol.Harness.Channel.{
  Channel, channel_limit, channel_send, channel_receive, deliver,
}
use data_dump_protocol.Harness.World.{
  World, Peer, client_host, paired_host, client_turn, server_send, server_receive, client_send,
  client_receive, client_notify, after_turn,
}

-- A queue has room for its messages, and none of them is empty.
pub record IsQueue (channel : Channel) : Type 0 where
  pub room : length channel ≤ channel_limit
  pub filled : All (λ m. 0 < length m) channel

All-append {ℓ} :
    {A : Type 0} (P : A → Type ℓ) (xs : List A) (x : A) → All P xs → P x → All P (xs ++ x ∷ [])
All-append P [] x h p = (p, tt)
All-append P (y ∷ ys) x (q, h) p = (q, All-append P ys x h p)

channel_send-IsQueue :
    (message : List ℕ) (channel : Channel)
    → IsQueue channel
    → IsQueue (channel_send message channel).1
unfolding channel_send
channel_send-IsQueue message channel q = elim (Bool-cases (length message == 0)) [
  | inl empty ↦ rw empty q
  | inr filled ↦ rw filled (elim (Bool-cases (ltb (length channel) channel_limit)) [
    | inl short ↦ rw short record {
      room = ground (arith, length-append channel (message ∷ []));
      filled = All-append _ channel message q.filled (ground arith);
    }
    | inr full ↦ rw full q
  ])
]

deliver-IsQueue :
    (channel : Channel) (max_length : ℕ) → IsQueue channel → IsQueue (deliver channel max_length).1
deliver-IsQueue [] max_length q = q
deliver-IsQueue (message ∷ rest) max_length q =
    elim (Bool-cases (leb (length message) max_length)) [
      | inl fits ↦ rw fits record { room = omega (arith, q.room); filled = q.filled.1 }
      | inr long ↦ rw long record { room = omega (arith, q.room); filled = q.filled.1 }
    ]

channel_receive-IsQueue :
    (max_length : ℕ) (channel : Channel)
    → IsQueue channel
    → IsQueue (channel_receive max_length channel).1
unfolding channel_receive
channel_receive-IsQueue max_length channel q = elim (Bool-cases (max_length == 0)) [
  | inl null ↦ rw null q
  | inr some_room ↦ rw some_room (deliver-IsQueue channel max_length q)
]

abbrev pub successes : List Bool → ℕ
successes [] = 0
successes (true ∷ notes) = suc (successes notes)
successes (false ∷ notes) = successes notes

abbrev pub allowance : Bool → ℕ
allowance true = 1
allowance false = 0

-- The queues are sound, the storage is what it was, and of the `count` transfers each but the first
-- came after another success that the client reported; so does the next one, if it may start.
pub record Sound (storage : List ℕ) (count : ℕ) (requests answers : Channel) (stored : List ℕ)
    (notes : List Bool) (start_next : Bool) : Type 0 where
  pub requests_queue : IsQueue requests
  pub answers_queue : IsQueue answers
  pub kept : stored ≡ storage
  pub counted : count + allowance start_next ≤ 1 + successes notes

abbrev pub IsSound : List ℕ → ℕ → World → Type 0
IsSound storage count w =
    Sound storage count w.server_in_channel w.server_out_channel w.server_storage w.client_notes
      w.start_next_transfer

-- What holds of the callback that was given holds of any that is there.
pub given_callback : {X : Type 0} (P : X → Type 0) (f g : X) → some f ≡ some g → P f → P g
given_callback P f g e h = subst P (cc) h

module _ (storage : List ℕ) (count : ℕ) where
  notified :
      (b : Bool) (w : World) → IsSound storage count w → IsSound storage count (client_notify b w)
  notified true w s = record {
    requests_queue = s.requests_queue;
    answers_queue = s.answers_queue;
    kept = s.kept;
    counted = omega (arith, s.counted);
  }
  notified false w s = record {
    requests_queue = s.requests_queue;
    answers_queue = s.answers_queue;
    kept = s.kept;
    counted = s.counted;
  }

  sent_request :
      (bytes : List ℕ) (w : World)
      → IsSound storage count w
      → IsSound storage count (client_send bytes w).1
  unfolding client_send
  sent_request bytes w s = record {
    requests_queue = channel_send-IsQueue bytes w.server_in_channel s.requests_queue;
    answers_queue = s.answers_queue;
    kept = s.kept;
    counted = s.counted;
  }

  got_answer :
      (n : ℕ) (w : World) → IsSound storage count w → IsSound storage count (client_receive n w).1
  unfolding client_receive
  got_answer n w s = record {
    requests_queue = s.requests_queue;
    answers_queue = channel_receive-IsQueue n w.server_out_channel s.answers_queue;
    kept = s.kept;
    counted = s.counted;
  }

  pub sent_answer :
      (bytes : List ℕ) (w : World)
      → IsSound storage count w
      → IsSound storage count (server_send bytes w).1
  unfolding server_send
  sent_answer bytes w s = record {
    requests_queue = s.requests_queue;
    answers_queue = channel_send-IsQueue bytes w.server_out_channel s.answers_queue;
    kept = s.kept;
    counted = s.counted;
  }

  pub got_request :
      (n : ℕ) (w : World) → IsSound storage count w → IsSound storage count (server_receive n w).1
  unfolding server_receive
  got_request n w s = record {
    requests_queue = channel_receive-IsQueue n w.server_in_channel s.requests_queue;
    answers_queue = s.answers_queue;
    kept = s.kept;
    counted = s.counted;
  }

  pub client-Guards : Guards client_host (IsSound storage count)
  unfolding client_host
  client-Guards = record {
    sends = λ f e bytes w s.
        given_callback (λ f. IsSound storage count (f bytes w).1) client_send f e
          (sent_request bytes w s);
    receives = λ f e n w s.
        given_callback (λ f. IsSound storage count (f n w).1) client_receive f e (got_answer n w s);
    consumes = λ f e n erase w s. absurd (cc e);
    notifies = λ f e b w s.
        given_callback (λ f. IsSound storage count (f b w)) client_notify f e (notified b w s);
    starts = λ interval w s. s;
    stops = λ w s. s;
    expires = λ w s. s;
    locks = λ m w s. s;
  }

  abbrev pub PeerSound : Peer → Type 0
  PeerSound p = IsSound storage count p.world

  after_turn-PeerSound :
      (p : Peer) (o : Outcome (Unit {0} × DataDump × World))
      → PeerSound p
      → Reaches (IsSound storage count) o
      → PeerSound (after_turn p o)
  after_turn-PeerSound p (ok r) s h = h
  after_turn-PeerSound p fault s h = s
  after_turn-PeerSound p pending s h = s

  pub client_turn-PeerSound : (p : Peer) → PeerSound p → PeerSound (client_turn p)
  unfolding client_turn
  client_turn-PeerSound p s =
      after_turn-PeerSound p (client_loop client_host 1 p.client p.world) s
        ((ClientSparing.loop-Spares client-Guards 1).spares p.client p.world s)

  pub paired-Guards : Guards paired_host PeerSound
  unfolding paired_host
  paired-Guards = record {
    sends = λ f e bytes p s.
        given_callback (λ f. PeerSound (f bytes p).1) _ f e (sent_answer bytes p.world s);
    receives = λ f e n p s.
        given_callback (λ f. PeerSound (f n p).1) _ f e
          (got_request n (client_turn p).world (client_turn-PeerSound p s));
    consumes = λ f e n erase p s. given_callback (λ f. PeerSound (f n erase p).1) _ f e s;
    notifies = λ f e b p s. given_callback (λ f. PeerSound (f b p)) _ f e s;
    starts = λ interval p s. s;
    stops = λ p s. s;
    expires = λ p s. s;
    locks = λ m p s. s;
  }
