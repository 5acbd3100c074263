-- ===== src/Server/Edges.antt =====
-- The states that follow each other in `DDServer::FSMLoop` (dataDump/DDServer.cpp).
use data_dump_protocol.Base.{ℕ, ◌≡◌, refl, sym, subst, ◌⊎◌, inl, inr}
use data_dump_protocol.DataDump.State.{DataDump, Host, FsmState}
use data_dump_protocol.DataDump.Phase.{Leaves}
use data_dump_protocol.DataDump.Switching.{Phase, On, set_next-Takes, again-Takes}
use data_dump_protocol.Server.Loop.{server_dispatch}
use data_dump_protocol.Server.Moves.{dispatch-Takes}
use data_dump_protocol.Server.Steady.{ServerEdge, continued, last_block, On-ServerSteady}

-- The current state is still `c` and the next one `n`.
abbrev At : FsmState → FsmState → Phase
At c n c' n' = (c' ≡ c) × (n' ≡ n)

-- The current state is still `c`, and the next one still `n` or reached by an edge from `s`.
abbrev pub Follows : FsmState → FsmState → FsmState → Phase
Follows s c n c' n' = (c' ≡ c) × ((n' ≡ n) ⊎ ServerEdge c s n')

-- Whatever the callbacks, the timer and the mutexes answer, a state that returns leaves the current
-- state alone and asks for no next state but one that the protocol lets follow.
pub server_dispatch-ServerEdge :
    {W : Type 0} (host : Host W) (rounds : ℕ) (s : FsmState) (d : DataDump) (w : W)
    → Leaves
        (λ d'.
          (d'.current_state ≡ d.current_state)
          × ((d'.next_state ≡ d.next_state) ⊎ ServerEdge d.current_state s d'.next_state))
        (server_dispatch host rounds s d w)
server_dispatch-ServerEdge {W = W} host rounds s d w =
    (dispatch-Takes host c (On (At c n)) (λ s. On (Follows s c n)) (On-ServerSteady (At c n))
        (λ d q. (q.0, inl q.1)) (λ d q. q)
        (λ s t e. set_next-Takes host t (λ c' n' q. (q.0, inr e)) (λ c' n' q. (q.0, inl q.1)))
        (λ k.
          again-Takes host {k = k}
            (λ c' n' q. (q.0, inr (subst (ServerEdge c FsmState.block) (sym q.0) continued)))
            (λ c' n' q. (q.0, inr last_block)) (λ c' n' q. (q.0, inl q.1)))
        rounds s).takes
      d w (refl, refl)
  where
    c : FsmState
    c = d.current_state

    n : FsmState
    n = d.next_state
