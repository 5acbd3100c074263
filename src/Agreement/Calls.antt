-- ===== src/Agreement/Calls.antt =====
-- Calls of the loops of dataDump/DDClient.cpp and dataDump/DDServer.cpp, one after the other.
use data_dump_protocol.Base.{ℕ, ◌≡◌, ap, ◌∙◌, List, Outcome, ok, fault, pending, ◌>>=◌}
use data_dump_protocol.DataDump.State.{DataDump, Host, FsmState}
use data_dump_protocol.DataDump.Does.{Does, bind-Does}
use data_dump_protocol.DataDump.Entering.{entered, enter-Does}
use data_dump_protocol.DataDump.Line.{Line, At, locks-free, locks-At, in_state}
use data_dump_protocol.Client.Loop.{client_loop, client_dispatch}
use data_dump_protocol.Server.Loop.{server_loop, server_dispatch}

-- A client, a server, and what lies between them.
abbrev pub Both : Type 0 → Type 0
Both W = DataDump × DataDump × W

abbrev pub of_client :
    {W : Type 0} → DataDump → Outcome (Unit {0} × DataDump × W) → Outcome (Both W)
of_client s (ok r) = ok (r.1, s, r.2)
of_client s fault = fault
of_client s pending = pending

abbrev pub of_server :
    {W : Type 0} → DataDump → Outcome (Unit {0} × DataDump × W) → Outcome (Both W)
of_server c (ok r) = ok (c, r.1, r.2)
of_server c fault = fault
of_server c pending = pending

module _ {W : Type 0} (client server : Host W) (rounds : ℕ) where
  -- One call of the client's loop, or of the server's.
  abbrev pub client_call : Both W → Outcome (Both W)
  client_call p = of_client p.1 (client_loop client rounds p.0 p.2)

  abbrev pub server_call : Both W → Outcome (Both W)
  server_call p = of_server p.0 (server_loop server rounds p.1 p.2)

  -- Request, response and start of the transfer, each sent by one side and then read by the other.
  abbrev pub opening_calls : Both W → Outcome (Both W)
  opening_calls p = client_call p >>= λ p. server_call p >>= λ p.
      server_call p >>= λ p. client_call p >>= λ p. client_call p >>= λ p. server_call p

module _ {W : Type 0} {host : Host W} {out inn : W → List (List ℕ)} {kept : W → Type 0}
    (line : Line host out inn kept) (a b a' b' : List (List ℕ)) (rounds : ℕ) where
  pub client_loop-Does :
      (s : FsmState) (d d' : DataDump)
      → Does
          (client_dispatch host rounds s)
          (At line a b)
          (entered (in_state s d))
          tt
          d'
          (At line a' b')
      → Does (client_loop host rounds) (At line a b) (in_state s d) tt d' (At line a' b')
  unfolding client_loop
  client_loop-Does s d d' h =
      bind-Does (client_dispatch host rounds)
        (enter-Does host (locks-free line) (locks-At line a b) (in_state s d)) h

  pub server_loop-Does :
      (s : FsmState) (d d' : DataDump)
      → Does
          (server_dispatch host rounds s)
          (At line a b)
          (entered (in_state s d))
          tt
          d'
          (At line a' b')
      → Does (server_loop host rounds) (At line a b) (in_state s d) tt d' (At line a' b')
  unfolding server_loop
  server_loop-Does s d d' h =
      bind-Does (server_dispatch host rounds)
        (enter-Does host (locks-free line) (locks-At line a b) (in_state s d)) h

pub next_ok :
    {A B : Type 0} (o : Outcome A) (f : A → Outcome B) {a : A} {r : Outcome B}
    → o ≡ ok a
    → f a ≡ r
    → (o >>= f) ≡ r
next_ok o f e h = ap (λ o. o >>= f) e ∙ h
