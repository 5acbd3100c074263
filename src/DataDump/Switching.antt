-- ===== src/DataDump/Switching.antt =====
-- What the setters of the two states (dataDump/DDBase.cpp) make of an object.
use data_dump_protocol.Base.{◌==◌, true, false, if◌then◌else◌, ◌≡◌, refl, subst}
use data_dump_protocol.DataDump.State.{DataDump, Host, FsmState, Mutex}
use data_dump_protocol.DataDump.Monad.{M, ◌>>=◌, ◌>>◌}
use data_dump_protocol.DataDump.Ops.{
  set_next_fsm_state, get_current_fsm_state, get_next_fsm_state, set_current_fsm_state,
}
use data_dump_protocol.DataDump.Shared.{state_code, enter_state}
use data_dump_protocol.DataDump.Entering.{Uncontended}
use data_dump_protocol.DataDump.Phase.{
  Takes, Keeps, bind-Takes, then-Takes, pure-Keeps, get-Keeps, skip-Takes, skip-Keeps,
  outside-Keeps, modify-Takes, if-Takes, Leaves,
}

-- A property of the current and the next state.
abbrev pub Phase : Type 1
Phase = FsmState → FsmState → Type 0

abbrev pub On : Phase → DataDump → Type 0
On Q d = Q d.current_state d.next_state

module _ {W : Type 0} where
  module _ (P : DataDump → Type 0) (host : Host W) where
    pub set_next-Keeps :
        (s : FsmState)
        → ((d : DataDump) → P d → P (record d { next_state = s }))
        → Keeps P (set_next_fsm_state host s)
    unfolding set_next_fsm_state
    set_next-Keeps s asks =
        bind-Takes (outside-Keeps (host.try_lock Mutex.nxt_mutex)) λ locked.
          if-Takes locked (modify-Takes (λ d. record d { next_state = s }) asks) skip-Keeps

    current-Keeps : Keeps P (get_current_fsm_state host)
    unfolding get_current_fsm_state
    current-Keeps = bind-Takes (outside-Keeps (host.try_lock Mutex.cur_mutex)) λ locked.
        bind-Takes get-Keeps
          λ d. pure-Keeps {a = if locked then d.current_state else FsmState.terminate}

    next-Keeps : Keeps P (get_next_fsm_state host)
    unfolding get_next_fsm_state
    next-Keeps = bind-Takes (outside-Keeps (host.try_lock Mutex.nxt_mutex)) λ locked.
        bind-Takes get-Keeps
          λ d. pure-Keeps {a = if locked then d.next_state else FsmState.terminate}

    set_current-Keeps :
        (s : FsmState)
        → ((d : DataDump) → P d → P (record d { current_state = s }))
        → Keeps P (set_current_fsm_state host s)
    unfolding set_current_fsm_state
    set_current-Keeps s sets = bind-Takes (outside-Keeps (host.try_lock Mutex.cur_mutex)) λ locked.
        if-Takes locked (modify-Takes (λ d. record d { current_state = s }) sets) skip-Keeps

    pub again-Keeps :
        (k : M W (Unit {0}))
        → ((s : FsmState) (d : DataDump) → P d → P (record d { next_state = s }))
        → Keeps P k
        → Keeps P (get_current_fsm_state host >>= λ c. set_next_fsm_state host c >> k)
    again-Keeps k asks hk = bind-Takes current-Keeps λ c. then-Takes (set_next-Keeps c (asks c)) hk

    -- The head of the loop sets the current state and the busy flag.
    pub enter-Keeps :
        ((s : FsmState) (d : DataDump) → P d → P (record d { current_state = s }))
        → ((d : DataDump) → P d → P (record d { is_busy = true }))
        → Keeps P (enter_state host)
    unfolding enter_state
    enter-Keeps sets busy = bind-Takes next-Keeps λ next. bind-Takes current-Keeps λ current.
        then-Takes
          (if-Takes (state_code next == state_code current) skip-Keeps
            (bind-Takes next-Keeps λ s. set_current-Keeps s (sets s)))
          (bind-Takes current-Keeps λ entered.
            then-Takes
              (if-Takes (state_code entered == 0) skip-Keeps
                (modify-Takes (λ d. record d { is_busy = true }) busy))
              current-Keeps)

  -- The setter asks for `s`, or leaves the next state as it is if the mutex is not had.
  pub set_next-Takes :
      {A B : Phase} (host : Host W) (s : FsmState)
      → ((c n : FsmState) → A c n → B c s)
      → ((c n : FsmState) → A c n → B c n)
      → Takes (On A) (On B) (set_next_fsm_state host s)
  unfolding set_next_fsm_state
  set_next-Takes host s had stays =
      bind-Takes (outside-Keeps (host.try_lock Mutex.nxt_mutex)) λ locked.
        if-Takes locked
          (modify-Takes (λ d. record d { next_state = s }) (λ d. had d.current_state d.next_state))
          (skip-Takes (λ d. stays d.current_state d.next_state))

  -- The next state becomes the current one, or TERMINATE if that is not to be read.
  pub again-Takes :
      {A B : Phase} (host : Host W) {k : M W (Unit {0})}
      → ((c n : FsmState) → A c n → B c c)
      → ((c n : FsmState) → A c n → B c FsmState.terminate)
      → ((c n : FsmState) → A c n → B c n)
      → Keeps (On B) k
      → Takes (On A) (On B) (get_current_fsm_state host >>= λ c. set_next_fsm_state host c >> k)
  unfolding get_current_fsm_state set_next_fsm_state
  again-Takes {A = A} {B = B} host {k = k} same ends stays hk = record {
    takes = λ d w a.
        let locked = host.try_lock Mutex.cur_mutex w in
        elim locked.0
          as (λ b. Leaves (On B) (
            (set_next_fsm_state host (if b then d.current_state else FsmState.terminate) >> k) d
              locked.1)) [
                | true ↦
                    (then-Takes
                        (set_next-Takes {A = λ c n. A c n × (c ≡ d.current_state)} host
                          d.current_state (λ c n q. subst (B c) q.1 (same c n q.0))
                          (λ c n q. stays c n q.0))
                        hk).takes
                      d locked.1 (a, refl)
                | false ↦
                    (then-Takes (set_next-Takes host FsmState.terminate ends stays) hk).takes d
                      locked.1 a
              ];
  }

  -- With the mutex at hand the setter does ask for `s`.
  pub set_next_free :
      {A : Phase} (B : Phase) (host : Host W)
      → Uncontended host
      → (s : FsmState) → ((c n : FsmState) → A c n → B c s)
      → Takes (On A) (On B) (set_next_fsm_state host s)
  unfolding set_next_fsm_state
  set_next_free B host free s had = record {
    takes = λ d w a. rw (free Mutex.nxt_mutex w) (had d.current_state d.next_state a);
  }

  pub again_free :
      {A : Phase} (B : Phase) (host : Host W)
      → Uncontended host
      → (k : M W (Unit {0})) → ((c n : FsmState) → A c n → B c c)
      → Keeps (On B) k
      → Takes (On A) (On B) (get_current_fsm_state host >>= λ c. set_next_fsm_state host c >> k)
  unfolding get_current_fsm_state
  again_free {A = A} B host free k same hk = record {
    takes = λ d w a. rw (free Mutex.cur_mutex w) (
        (then-Takes
            (set_next_free {A = λ c n. A c n × (c ≡ d.current_state)} B host free d.current_state
              (λ c n q. subst (B c) q.1 (same c n q.0)))
            hk).takes
          d (host.try_lock Mutex.cur_mutex w).1 (a, refl));
  }
