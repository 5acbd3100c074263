-- ===== src/Harness/Schedules.antt =====
-- What holds in the program of dataDump/DDTest.cpp for any turns of its threads, as long as they return.
use data_dump_protocol.Base.{
  ℕ, ◌+◌, ◌≤◌, ◌≡◌, refl, arith, List, [], ◌∷◌, Bool, true, false, some, if◌then◌else◌, Bool-cases,
  ltb, inl, inr, Outcome, ok, fault, pending, ◌>>=◌,
}
use data_dump_protocol.DataDump.State.{DataDump}
use data_dump_protocol.DataDump.Worlds.{Guards, Reaches}
use data_dump_protocol.DataDump.Ops.{set_next_fsm_state}
use data_dump_protocol.Server.Sparing as ServerSparing
use data_dump_protocol.Server.Loop.{server_loop}
use data_dump_protocol.Server.Blocks.{make_server}
use data_dump_protocol.Client.Loop.{start_new_transfer, make_client}
use data_dump_protocol.Harness.World.{transfer_size, Peer, paired_host, client_host, client_turn}
use data_dump_protocol.Harness.Main.{
  Program, Turn, take_turn, take_turns, main_turn, main_round, server_turn, after_server,
  after_transfer, dd_test_setup, Other, Beside, other_turns, next_look, beside_host, after_main,
  after_beside,
}
use data_dump_protocol.Harness.Invariant.{
  IsSound, successes, allowance, PeerSound, paired-Guards, client_turn-PeerSound, given_callback,
  sent_answer, got_request,
}

-- If the program comes so far, `P` holds.
abbrev pub Upholds : (Program → Type 0) → Outcome Program → Type 0
Upholds P (ok p) = P p
Upholds P fault = Unit {0}
Upholds P pending = Unit {0}

abbrev pub ProgramSound : List ℕ → Program → Type 0
ProgramSound storage p = IsSound storage p.transaction_count p.peer.world

pub Upholds-if :
    (P : Program → Type 0) (m k : Outcome Program) (b : Bool)
    → (b ≡ true → Upholds P m)
    → (b ≡ false → Upholds P k)
    → Upholds P (if b then m else k)
Upholds-if P m k true hm hk = hm refl
Upholds-if P m k false hm hk = hk refl

setup-ProgramSound : (storage : List ℕ) → Upholds (ProgramSound storage) (dd_test_setup storage)
unfolding dd_test_setup set_next_fsm_state make_server make_client
setup-ProgramSound storage = record {
  requests_queue = record { room = omega arith; filled = tt };
  answers_queue = record { room = omega arith; filled = tt };
  kept = refl;
  counted = omega arith;
}

module _ (storage : List ℕ) where
  started-ProgramSound :
      (p : Program)
      → ProgramSound storage p
      → p.peer.world.start_next_transfer ≡ true
      → Upholds (ProgramSound storage) (
          after_transfer p (
            start_new_transfer client_host
              (some p.peer.client.internal_memory)
              transfer_size
              p.peer.client
              p.peer.world))
  unfolding start_new_transfer set_next_fsm_state client_host
  started-ProgramSound p s may = elim (Bool-cases p.peer.client.is_busy) [
    | inl busy ↦ rw busy s
    | inr free ↦ rw free record {
      requests_queue = s.requests_queue;
      answers_queue = s.answers_queue;
      kept = s.kept;
      counted = counts s.counted;
    }
  ]
    where
      counts :
          p.transaction_count + allowance p.peer.world.start_next_transfer
            ≤ 1 + successes p.peer.world.client_notes
          → p.transaction_count + 1 + 0 ≤ 1 + successes p.peer.world.client_notes
      counts h = ground arith

  main_turn-ProgramSound :
      (p : Program) → ProgramSound storage p → Upholds (ProgramSound storage) (main_turn p)
  unfolding main_turn main_round
  main_turn-ProgramSound p s =
      Upholds-if _ _ _ (ltb p.transaction_count 10)
        (λ more.
          Upholds-if _ _ _ p.peer.world.start_next_transfer (started-ProgramSound p s) (λ waits. s))
        (λ all. s)

  after_server-ProgramSound :
      (p : Program) (o : Outcome (Unit {0} × DataDump × Peer))
      → Reaches (PeerSound storage p.transaction_count) o
      → Upholds (ProgramSound storage) (after_server p o)
  after_server-ProgramSound p (ok r) h = h
  after_server-ProgramSound p fault h = tt
  after_server-ProgramSound p pending h = tt

  after_main-ProgramSound :
      (p : Program) (o : Outcome Program)
      → ProgramSound storage p
      → Upholds (ProgramSound storage) o
      → ProgramSound storage (after_main p o)
  after_main-ProgramSound p (ok q) s h = h
  after_main-ProgramSound p fault s h = s
  after_main-ProgramSound p pending s h = s

  other_turns-ProgramSound :
      (ts : List Other) (p : Program)
      → ProgramSound storage p
      → ProgramSound storage (other_turns ts p)
  unfolding other_turns
  other_turns-ProgramSound [] p s = s
  other_turns-ProgramSound (Other.main ∷ ts) p s =
      other_turns-ProgramSound ts (after_main p (main_turn p))
        (after_main-ProgramSound p (main_turn p) s (main_turn-ProgramSound p s))
  other_turns-ProgramSound (Other.client ∷ ts) p s =
      other_turns-ProgramSound ts (record p { peer = client_turn p.peer })
        (client_turn-PeerSound storage p.transaction_count p.peer s)

  abbrev BesideSound : Beside → Type 0
  BesideSound b = ProgramSound storage b.program

  next_look-BesideSound :
      (b : Beside) (later : List (List Other)) → BesideSound b → BesideSound (next_look b later)
  next_look-BesideSound b [] s = s
  next_look-BesideSound b (ts ∷ later) s = other_turns-ProgramSound ts b.program s

  beside-Guards : Guards beside_host BesideSound
  unfolding beside_host
  beside-Guards = record {
    sends = λ f e bytes b s.
        given_callback (λ f. BesideSound (f bytes b).1) _ f e
          (sent_answer storage b.program.transaction_count bytes b.program.peer.world s);
    receives = λ f e n b s.
        given_callback (λ f. BesideSound (f n b).1) _ f e
          (got_request storage (next_look b b.later).program.transaction_count n
            (next_look b b.later).program.peer.world (next_look-BesideSound b b.later s));
    consumes = λ f e n erase b s. given_callback (λ f. BesideSound (f n erase b).1) _ f e s;
    notifies = λ f e t b s. given_callback (λ f. BesideSound (f t b)) _ f e s;
    starts = λ interval b s. s;
    stops = λ b s. s;
    expires = λ b s. s;
    locks = λ m b s. s;
  }

  after_beside-ProgramSound :
      (o : Outcome (Unit {0} × DataDump × Beside))
      → Reaches BesideSound o
      → Upholds (ProgramSound storage) (after_beside o)
  after_beside-ProgramSound (ok r) h = h
  after_beside-ProgramSound fault h = tt
  after_beside-ProgramSound pending h = tt

  take_turn-ProgramSound :
      (rounds : ℕ) (t : Turn) (p : Program)
      → ProgramSound storage p
      → Upholds (ProgramSound storage) (take_turn rounds t p)
  unfolding take_turn server_turn
  take_turn-ProgramSound rounds Turn.main p s = main_turn-ProgramSound p s
  take_turn-ProgramSound rounds Turn.server p s =
      after_server-ProgramSound p (server_loop paired_host rounds p.server p.peer) (
        (ServerSparing.loop-Spares (paired-Guards storage p.transaction_count) rounds).spares
          p.server p.peer s)
  take_turn-ProgramSound rounds Turn.client p s =
      client_turn-PeerSound storage p.transaction_count p.peer s
  take_turn-ProgramSound rounds (Turn.server_beside later) p s =
      after_beside-ProgramSound
        (server_loop beside_host rounds p.server record { program = p; later = later })
        ((ServerSparing.loop-Spares beside-Guards rounds).spares p.server
          record { program = p; later = later } s)

Upholds-bind :
    (P : Program → Type 0) (o : Outcome Program) (f : Program → Outcome Program)
    → Upholds P o
    → ((q : Program) → P q → Upholds P (f q))
    → Upholds P (o >>= f)
Upholds-bind P (ok q) f h k = k q h
Upholds-bind P fault f h k = tt
Upholds-bind P pending f h k = tt

-- What every turn keeps is kept by any number of turns.
pub Upholds-turns :
    (P : Program → Type 0) (rounds : ℕ)
    → ((t : Turn) (p : Program) → P p → Upholds P (take_turn rounds t p))
    → (ts : List Turn) (p : Program) → P p
    → Upholds P (take_turns rounds ts p)
unfolding take_turns
Upholds-turns P rounds each [] p h = h
Upholds-turns P rounds each (t ∷ ts) p h =
    Upholds-bind P (take_turn rounds t p) (take_turns rounds ts) (each t p h)
      (Upholds-turns P rounds each ts)

-- In the program of the test, whatever its storage, after any sequence of turns each of which returns,
-- the rounds of the server with any turns of the other threads inside them: no queue has more than twenty
-- messages or an empty one, the storage is as it was, and each transfer but the first was started only
-- after another success that the client reported. Of a sequence in which a turn faults, or does not
-- return in its rounds, nothing is said.
pub take_turns-IsSound :
    (storage : List ℕ) (rounds : ℕ) (turns : List Turn)
    → Upholds (ProgramSound storage) (dd_test_setup storage >>= take_turns rounds turns)
take_turns-IsSound storage rounds turns =
    Upholds-bind (ProgramSound storage) (dd_test_setup storage) (take_turns rounds turns)
      (setup-ProgramSound storage)
      (Upholds-turns (ProgramSound storage) rounds (take_turn-ProgramSound storage rounds) turns)
