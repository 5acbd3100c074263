-- ===== src/Harness/Orders.antt =====
-- The orders in which the threads of dataDump/DDTest.cpp may take their turns while the blocks
-- travel.
use data_dump_protocol.Base.{
  ℕ, ◌+◌, ◌-◌, ◌⊎◌, ◌<◌, ◌≡◌, zero, suc, List, [], ◌∷◌, replicate, Outcome, ok, fault, pending,
  ◌>>=◌, Bool, false, not,
}
use data_dump_protocol.Harness.Main.{Program, Turn, Other, take_turn, tabulate}
use data_dump_protocol.Harness.World.{transfer_size}
use data_dump_protocol.Harness.Whole.{whole_run}

-- Up to the state BLOCK: the main thread starts the transfer, and then the server waits for the request and
-- for the start of the blocks; or the server waits already when the main thread does.
abbrev pub main_first : List Turn
main_first = Turn.main ∷ replicate 3 Turn.server

abbrev pub server_first : List Turn
server_first =
    Turn.server_beside ([] ∷ (Other.main ∷ Other.client ∷ []) ∷ []) ∷ Turn.server ∷ Turn.server ∷ []

abbrev pub IsOpening : List Turn → Type 0
IsOpening turns = (turns ≡ main_first) ⊎ (turns ≡ server_first)

-- The last block is sent, and while the server waits for the acknowledgement the client takes the `left`
-- blocks that it has not taken, and the last one.
abbrev pub last_block : ℕ → Turn
last_block left = Turn.server_beside (replicate (suc left) Other.client ∷ [])

-- Then both machines report and are idle, in any order.
pub data IsEnd : List Turn → Type 0 where
  server_ends_first : IsEnd (Turn.server ∷ Turn.client ∷ Turn.client ∷ [])
  server_ends_between : IsEnd (Turn.client ∷ Turn.server ∷ Turn.client ∷ [])
  server_ends_last : IsEnd (Turn.client ∷ Turn.client ∷ Turn.server ∷ [])

-- With `sent` of the first 17 blocks sent and `taken` of them taken: the server sends the rest, the client
-- takes a turn only if a block waits for it, and `left` blocks are not taken in the end. The main thread
-- looks in whenever it wants.
abbrev pub BlockOrder : ℕ → ℕ → ℕ → List Turn → Type 0
BlockOrder sent taken left [] = (sent ≡ 17) × (taken + left ≡ 17)
BlockOrder sent taken left (Turn.main ∷ turns) = BlockOrder sent taken left turns
BlockOrder sent taken left (Turn.server ∷ turns) =
    (sent < 17) × BlockOrder (suc sent) taken left turns
BlockOrder sent taken left (Turn.client ∷ turns) =
    (taken < sent) × BlockOrder sent (suc taken) left turns
BlockOrder sent taken left (Turn.server_beside later ∷ turns) = ⊥

table : {A : Type 0} → ℕ → (ℕ → A) → List A
table zero g = []
table (suc n) g = g 0 ∷ table n (λ i. g (suc i))

-- The main thread waits for the success of a transfer.
abbrev is_waiting : Outcome Program → Bool
is_waiting (ok p) = not p.peer.world.start_next_transfer
is_waiting fault = false
is_waiting pending = false

module _ (f : ℕ → ℕ) (more : ℕ) where
  opened : Outcome Program
  opened = whole_run (tabulate transfer_size f) (suc (suc more)) main_first

  step : Turn → Outcome Program → Outcome Program
  step t o = o >>= take_turn (suc (suc more)) t

  -- First the blocks are sent, then they are taken.
  reached : ℕ → ℕ → Outcome Program
  reached zero zero = opened
  reached (suc i) zero = step Turn.server (reached i zero)
  reached i (suc j) = step Turn.client (reached i j)

  -- The last block is sent with so many blocks not taken.
  -- With `17 - j` of the blocks not taken when the last one is sent.
  late : ℕ → Outcome Program
  late j = step (last_block (17 - j)) (reached 17 j)

  in_time : Outcome Program
  in_time = step Turn.server (reached 17 17)
