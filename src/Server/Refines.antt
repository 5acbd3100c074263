-- ===== src/Server/Refines.antt =====
-- `DDServer::FSMLoop` (dataDump/DDServer.cpp) against the server's protocol.
use data_dump_protocol.Base.{ℕ, zero, suc, ◌≡◌, refl, sym, subst}
use data_dump_protocol.Protocol.{ServerMove, Route, here, onward}
use data_dump_protocol.DataDump.State.{DataDump, Host, FsmState}
use data_dump_protocol.DataDump.Monad.{M, ◌>>◌, skip}
use data_dump_protocol.DataDump.Phase.{Leaves, Leaves-map, Leaves-bind, Takes, bind-ok}
use data_dump_protocol.DataDump.Entering.{Uncontended, entered, enter_state_lem}
use data_dump_protocol.DataDump.Shared.{enter_state}
use data_dump_protocol.DataDump.Switching.{Phase, On, set_next_free, again_free}
use data_dump_protocol.Server.Loop.{server_dispatch, server_loop}
use data_dump_protocol.Server.Moves.{dispatch-Takes}
use data_dump_protocol.Server.Steady.{ServerEdge, On-ServerSteady}

-- One call of `FSMLoop` after the other.
unfoldable pub server_taskloop : {W : Type 0} → Host W → ℕ → ℕ → M W (Unit {0})
server_taskloop host rounds zero = skip
server_taskloop host rounds (suc n) = server_loop host rounds >> server_taskloop host rounds n

-- Acting in the current state, the machine asks for what the protocol allows.
edge-ServerMove : {c s t : FsmState} → c ≡ s → ServerEdge c s t → ServerMove c t
edge-ServerMove {c = c} e ServerEdge.continued =
    subst (λ s. ServerMove s s) (sym e) ServerMove.continued
edge-ServerMove e ServerEdge.requested =
    subst (λ s. ServerMove s FsmState.response) (sym e) ServerMove.requested
edge-ServerMove e ServerEdge.answered =
    subst (λ s. ServerMove s FsmState.initiate_block) (sym e) ServerMove.answered
edge-ServerMove e ServerEdge.initiated =
    subst (λ s. ServerMove s FsmState.block) (sym e) ServerMove.initiated
edge-ServerMove e ServerEdge.no_request =
    subst (λ s. ServerMove s FsmState.terminate) (sym e) ServerMove.no_request
edge-ServerMove e ServerEdge.no_answer =
    subst (λ s. ServerMove s FsmState.terminate) (sym e) ServerMove.no_answer
edge-ServerMove e ServerEdge.not_initiated =
    subst (λ s. ServerMove s FsmState.terminate) (sym e) ServerMove.not_initiated
edge-ServerMove e ServerEdge.last_block =
    subst (λ s. ServerMove s FsmState.terminate) (sym e) ServerMove.last_block
edge-ServerMove e ServerEdge.ended =
    subst (λ s. ServerMove s FsmState.request) (sym e) ServerMove.ended

-- The current state is still `c`; if it is the one acted in, the protocol lets the next one follow
-- it.
abbrev Moved : FsmState → FsmState → Phase
Moved c s c' n = (c' ≡ c) × (c ≡ s → ServerMove c n)

module _ {W : Type 0} (host : Host W) (free : Uncontended host) (rounds : ℕ) where
  dispatch-Moved :
      (c s : FsmState)
      → Takes (On (λ c' n. (c' ≡ c) × (n ≡ c))) (On (Moved c s)) (server_dispatch host rounds s)
  dispatch-Moved c s =
      dispatch-Takes host c (On (λ c' n. (c' ≡ c) × (n ≡ c))) (λ s. On (Moved c s))
        (On-ServerSteady _) (λ d q. (q.0, λ e. rest e q.1)) (λ d q. q)
        (λ s t e. set_next_free _ host free t (λ c' n q. (q.0, λ p. edge-ServerMove p e)))
        (λ k. again_free _ host free k (λ c' n q. (q.0, λ p. again p q.0))) rounds s
    where
      rest : {n : FsmState} → c ≡ FsmState.idle → n ≡ c → ServerMove c n
      rest e p = subst (ServerMove c) (sym p) (subst (λ s. ServerMove s s) (sym e) ServerMove.rests)

      again : {c' : FsmState} → c ≡ FsmState.block → c' ≡ c → ServerMove c c'
      again e p =
          subst (ServerMove c) (sym p) (subst (λ s. ServerMove s s) (sym e) ServerMove.continued)

  loop-ServerMove :
      (d : DataDump) (w : W)
      → Leaves
          (λ d'. (d'.current_state ≡ d.next_state) × ServerMove d.next_state d'.next_state)
          (server_loop host rounds d w)
  unfolding server_loop
  loop-ServerMove d w =
      let (w', e) = enter_state_lem host free d w in
      subst (Leaves _)
        (sym (
          bind-ok (enter_state host) (server_dispatch host rounds) d (entered d) w w' d.next_state
            e))
        (Leaves-map (server_dispatch host rounds d.next_state (entered d) w')
          (λ d' q. (q.0, q.1 refl))
          ((dispatch-Moved d.next_state d.next_state).takes (entered d) w' (refl, refl)))

  loops-Route :
      (n : ℕ) (d : DataDump) (w : W)
      → Leaves
          (λ d'. Route ServerMove n d.next_state d'.next_state)
          (server_taskloop host rounds n d w)
  unfolding server_taskloop
  loops-Route zero d w = here
  loops-Route (suc n) d w =
      Leaves-bind _ _ (server_loop host rounds d w) (λ _. server_taskloop host rounds n)
        (loop-ServerMove d w)
        (λ _. record {
          takes = λ d' w' q.
              Leaves-map (server_taskloop host rounds n d' w') (λ d'' p. onward q.1 p)
                (loops-Route n d' w');
        })

-- While no other thread holds a mutex, and whatever callbacks and timer do, `n` calls of the server's
-- loop that return have taken the next state along `n` moves of the server's protocol.
pub server_taskloop-Route :
    {W : Type 0} (host : Host W) (rounds n : ℕ) (d : DataDump) (w : W)
    → Uncontended host
    → Leaves
        (λ d'. Route ServerMove n d.next_state d'.next_state)
        (server_taskloop host rounds n d w)
server_taskloop-Route host rounds n d w free = loops-Route host free rounds n d w
