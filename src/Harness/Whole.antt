-- ===== src/Harness/Whole.antt =====
-- Whole transfers of dataDump/DDTest.cpp: the program with its own settings, for every content of the
-- server's storage.
use data_dump_protocol.Base.{
  ℕ, ◌*◌, ◌∙◌, ◌<◌, ◌≤◌, ◌≡◌, refl, sym, ap, subst, arith, zero, suc, List, [], ◌∷◌, ◌++◌,
  replicate, Outcome, ok, fault, pending, ◌>>=◌, some, true, false, length, get_or,
}
use data_dump_protocol.DataDump.State.{FsmState}
use data_dump_protocol.Harness.Main.{Program, Turn, take_turns, dd_test_setup, tabulate}
use data_dump_protocol.Harness.World.{transfer_size}
use data_dump_protocol.Harness.Execute.{execute}

abbrev pub repeated : ℕ → List Turn → List Turn
repeated zero ts = []
repeated (suc n) ts = ts ++ repeated n ts

-- The main thread starts a transfer; the server takes the request, answers and waits for the start
-- of the blocks; the client takes a turn after each of the first 17 blocks; the server sends the
-- last one and waits for its acknowledgement. Both then notify, and the client is idle again.
abbrev pub transfer_turns : List Turn
transfer_turns =
    Turn.main ∷ replicate 3 Turn.server
    ++ (repeated 17 (Turn.server ∷ Turn.client ∷ [])
        ++ Turn.server ∷ Turn.server ∷ Turn.client ∷ Turn.client ∷ [])

-- The program runs to an end that satisfies `P`.
abbrev pub Returns : (Program → Type 0) → Outcome Program → Type 0
Returns P (ok p) = P p
Returns P fault = ⊥
Returns P pending = ⊥

-- After `n` transfers of `storage`, none of which failed.
pub record Delivered (n : ℕ) (storage : List ℕ) (p : Program) : Type 0 where
  pub array : p.peer.client.internal_memory ≡ storage
  pub server_notes : p.peer.world.server_notes ≡ replicate n true
  pub client_notes : p.peer.world.client_notes ≡ replicate n true
  pub counted : p.transaction_count ≡ n
  pub ready : p.peer.world.start_next_transfer ≡ true
  pub free : p.peer.client.is_busy ≡ false
  pub waiting : p.server.next_state ≡ FsmState.request
  pub sound : p.peer.failed ≡ false
  pub pointer : p.server.internal_buffer ≡ some (256 * n)

abbrev pub whole_run : List ℕ → ℕ → List Turn → Outcome Program
whole_run storage rounds turns = dd_test_setup storage >>= take_turns rounds turns

first_lem :
    (f : ℕ → ℕ) (r : ℕ)
    → Returns
        (Delivered 1 (tabulate transfer_size f))
        (whole_run (tabulate transfer_size f) (suc (suc r)) (repeated 1 transfer_turns))
unfolding execute
first_lem f r = record {
  array = refl;
  server_notes = refl;
  client_notes = refl;
  counted = refl;
  ready = refl;
  free = refl;
  waiting = refl;
  sound = refl;
  pointer = refl;
}

second_lem :
    (f : ℕ → ℕ) (r : ℕ)
    → Returns
        (Delivered 2 (tabulate transfer_size f))
        (whole_run (tabulate transfer_size f) (suc (suc r)) (repeated 2 transfer_turns))
unfolding execute
second_lem f r = record {
  array = refl;
  server_notes = refl;
  client_notes = refl;
  counted = refl;
  ready = refl;
  free = refl;
  waiting = refl;
  sound = refl;
  pointer = refl;
}

abbrev pub third_start : List Turn
third_start = repeated 2 transfer_turns ++ Turn.main ∷ Turn.server ∷ Turn.server ∷ []

third_lem :
    (f : ℕ → ℕ) (r : ℕ) → whole_run (tabulate transfer_size f) (suc (suc r)) third_start ≡ fault
unfolding execute
third_lem f r = refl

tabulate-get_or : (xs : List ℕ) → tabulate (length xs) (λ i. get_or xs i 0) ≡ xs
tabulate-get_or [] = refl
tabulate-get_or (x ∷ xs) = ap (λ ys. x ∷ ys) (tabulate-get_or xs)

-- What holds of every storage that is written value by value holds of every storage.
pub of_every_storage :
    (P : List ℕ → Type 0) (storage : List ℕ)
    → ((f : ℕ → ℕ) → P (tabulate transfer_size f))
    → length storage ≡ transfer_size
    → P storage
of_every_storage P storage h e =
    subst P (ap (λ n. tabulate n (λ i. get_or storage i 0)) (sym e) ∙ tabulate-get_or storage)
      (h (λ i. get_or storage i 0))

-- The program with its own settings transfers its 256 bytes of storage, whatever they are, once and
-- a second time: if the threads take their turns as named, both sides report success for each
-- transfer, the array of the client is the storage, the transfers are counted, and the client and
-- the main thread are ready for another one, the server waiting for it. The server's loops may poll
-- twice or more.
pub whole_transfers :
    (n : ℕ) (storage : List ℕ) (more : ℕ)
    → 0 < n
    → n ≤ 2
    → length storage ≡ transfer_size
    → Returns (Delivered n storage) (whole_run storage (suc (suc more)) (repeated n transfer_turns))
whole_transfers zero storage more some_transfer few whole = absurd (omega arith)
whole_transfers (suc zero) storage more some_transfer few whole =
    of_every_storage
      (λ xs. Returns (Delivered 1 xs) (whole_run xs (suc (suc more)) (repeated 1 transfer_turns)))
      storage (λ f. first_lem f more) whole
whole_transfers (suc (suc zero)) storage more some_transfer few whole =
    of_every_storage
      (λ xs. Returns (Delivered 2 xs) (whole_run xs (suc (suc more)) (repeated 2 transfer_turns)))
      storage (λ f. second_lem f more) whole
whole_transfers (suc (suc (suc n))) storage more some_transfer few whole = absurd (omega arith)

-- The third transfer of the same run ends in a write behind the array of the server, whatever the
-- storage holds: the main thread starts it, the server takes the request, and answering it goes
-- wrong.
pub third_transfer_overruns :
    (storage : List ℕ) (more : ℕ)
    → length storage ≡ transfer_size
    → whole_run storage (suc (suc more)) third_start ≡ fault
third_transfer_overruns storage more whole =
    of_every_storage (λ xs. whole_run xs (suc (suc more)) third_start ≡ fault) storage
      (λ f. third_lem f more) whole
