-- ===== src/Client/Refines.antt =====
-- `DDClient::FSMLoop` (dataDump/DDClient.cpp) against the client's protocol.
use data_dump_protocol.Base.{ℕ, zero, suc, ◌≡◌, refl, sym, subst}
use data_dump_protocol.Protocol.{ClientMove, Route, here, onward}
use data_dump_protocol.DataDump.State.{DataDump, Host, FsmState}
use data_dump_protocol.DataDump.Monad.{M, ◌>>◌, skip}
use data_dump_protocol.DataDump.Phase.{Leaves, Leaves-map, Leaves-bind, Takes, bind-ok}
use data_dump_protocol.DataDump.Entering.{Uncontended, entered, enter_state_lem}
use data_dump_protocol.DataDump.Shared.{enter_state}
use data_dump_protocol.DataDump.Switching.{Phase, On, set_next_free, again_free}
use data_dump_protocol.Client.Loop.{client_dispatch, client_loop}
use data_dump_protocol.Client.Moves.{dispatch-Takes}
use data_dump_protocol.Client.Steady.{ClientEdge, On-ClientSteady}

-- One call of `FSMLoop` after the other.
unfoldable pub client_taskloop : {W : Type 0} → Host W → ℕ → ℕ → M W (Unit {0})
client_taskloop host rounds zero = skip
client_taskloop host rounds (suc n) = client_loop host rounds >> client_taskloop host rounds n

-- Acting in the current state, the machine asks for what the protocol allows.
edge-ClientMove : {c s t : FsmState} → c ≡ s → ClientEdge c s t → ClientMove c t
edge-ClientMove {c = c} e ClientEdge.continued =
    subst (λ s. ClientMove s s) (sym e) ClientMove.continued
edge-ClientMove e ClientEdge.requested =
    subst (λ s. ClientMove s FsmState.response) (sym e) ClientMove.requested
edge-ClientMove e ClientEdge.answered =
    subst (λ s. ClientMove s FsmState.initiate_block) (sym e) ClientMove.answered
edge-ClientMove e ClientEdge.initiated =
    subst (λ s. ClientMove s FsmState.block) (sym e) ClientMove.initiated
edge-ClientMove e ClientEdge.not_requested =
    subst (λ s. ClientMove s FsmState.terminate) (sym e) ClientMove.not_requested
edge-ClientMove e ClientEdge.no_answer =
    subst (λ s. ClientMove s FsmState.terminate) (sym e) ClientMove.no_answer
edge-ClientMove e ClientEdge.not_initiated =
    subst (λ s. ClientMove s FsmState.terminate) (sym e) ClientMove.not_initiated
edge-ClientMove e ClientEdge.last_block =
    subst (λ s. ClientMove s FsmState.terminate) (sym e) ClientMove.last_block
edge-ClientMove e ClientEdge.ended =
    subst (λ s. ClientMove s FsmState.idle) (sym e) ClientMove.ended

-- The current state is still `c`; if it is the one acted in, the protocol lets the next one follow
-- it.
abbrev Moved : FsmState → FsmState → Phase
Moved c s c' n = (c' ≡ c) × (c ≡ s → ClientMove c n)

module _ {W : Type 0} (host : Host W) (free : Uncontended host) (rounds : ℕ) where
  dispatch-Moved :
      (c s : FsmState)
      → Takes (On (λ c' n. (c' ≡ c) × (n ≡ c))) (On (Moved c s)) (client_dispatch host rounds s)
  dispatch-Moved c s =
      dispatch-Takes host c (On (λ c' n. (c' ≡ c) × (n ≡ c))) (λ s. On (Moved c s))
        (On-ClientSteady _) (λ d q. (q.0, λ e. rest e q.1))
        (λ s t e. set_next_free _ host free t (λ c' n q. (q.0, λ p. edge-ClientMove p e)))
        (λ k. again_free _ host free k (λ c' n q. (q.0, λ p. again p q.0))) rounds s
    where
      rest : {n : FsmState} → c ≡ FsmState.idle → n ≡ c → ClientMove c n
      rest e p = subst (ClientMove c) (sym p) (subst (λ s. ClientMove s s) (sym e) ClientMove.rests)

      again : {c' : FsmState} → c ≡ FsmState.block → c' ≡ c → ClientMove c c'
      again e p =
          subst (ClientMove c) (sym p) (subst (λ s. ClientMove s s) (sym e) ClientMove.continued)

  loop-ClientMove :
      (d : DataDump) (w : W)
      → Leaves
          (λ d'. (d'.current_state ≡ d.next_state) × ClientMove d.next_state d'.next_state)
          (client_loop host rounds d w)
  unfolding client_loop
  loop-ClientMove d w =
      let (w', e) = enter_state_lem host free d w in
      subst (Leaves _)
        (sym (
          bind-ok (enter_state host) (client_dispatch host rounds) d (entered d) w w' d.next_state
            e))
        (Leaves-map (client_dispatch host rounds d.next_state (entered d) w')
          (λ d' q. (q.0, q.1 refl))
          ((dispatch-Moved d.next_state d.next_state).takes (entered d) w' (refl, refl)))

  loops-Route :
      (n : ℕ) (d : DataDump) (w : W)
      → Leaves
          (λ d'. Route ClientMove n d.next_state d'.next_state)
          (client_taskloop host rounds n d w)
  unfolding client_taskloop
  loops-Route zero d w = here
  loops-Route (suc n) d w =
      Leaves-bind _ _ (client_loop host rounds d w) (λ _. client_taskloop host rounds n)
        (loop-ClientMove d w)
        (λ _. record {
          takes = λ d' w' q.
              Leaves-map (client_taskloop host rounds n d' w') (λ d'' p. onward q.1 p)
                (loops-Route n d' w');
        })

-- While no other thread holds a mutex, and whatever callbacks and timer do, `n` calls of the client's
-- loop that return have taken the next state along `n` moves of the client's protocol.
pub client_taskloop-Route :
    {W : Type 0} (host : Host W) (rounds n : ℕ) (d : DataDump) (w : W)
    → Uncontended host
    → Leaves
        (λ d'. Route ClientMove n d.next_state d'.next_state)
        (client_taskloop host rounds n d w)
client_taskloop-Route host rounds n d w free = loops-Route host free rounds n d w
