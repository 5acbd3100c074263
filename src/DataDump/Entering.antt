-- ===== src/DataDump/Entering.antt =====
-- The head of both `FSMLoop` (dataDump/DDServer.cpp, dataDump/DDClient.cpp) when no other thread
-- holds a mutex.
use data_dump_protocol.Base.{
  ◌≡◌, ap, refl, sym, subst, ◌∙◌, ℕ, Bool, true, false, if◌then◌else◌, ◌==◌, ok, ==→eq,
}
use data_dump_protocol.DataDump.State.{DataDump, Host, FsmState, Mutex}
use data_dump_protocol.DataDump.Monad.{◌>>=◌, skip}
use data_dump_protocol.DataDump.Ops.{
  get_next_fsm_state, get_current_fsm_state, set_current_fsm_state, set_next_fsm_state,
  set_module_status,
}
use data_dump_protocol.DataDump.Shared.{state_code, enter_state}
use data_dump_protocol.DataDump.Does.{Does, bind-Does, modify-Does, skip-Does}

-- Every try for a mutex succeeds: no other thread holds one.
abbrev pub Uncontended : {W : Type 0} → Host W → Type 0
Uncontended {W = W} host = (m : Mutex) (w : W) → (host.try_lock m w).0 ≡ true

-- The object with its next state as the current one, busy unless that is IDLE.
abbrev pub entered : DataDump → DataDump
entered d = record d {
  current_state = d.next_state;
  is_busy = if state_code d.next_state == 0 then d.is_busy else true;
}

of_code : ℕ → FsmState
of_code n =
    if n == 0
    then FsmState.idle
    else if n == 1
    then FsmState.request
    else if n == 2
    then FsmState.response
    else if n == 3
    then FsmState.initiate_block
    else if n == 4
    then FsmState.block
    else FsmState.terminate

of_code-state_code : (s : FsmState) → of_code (state_code s) ≡ s
unfolding of_code
of_code-state_code FsmState.idle = refl
of_code-state_code FsmState.request = refl
of_code-state_code FsmState.response = refl
of_code-state_code FsmState.initiate_block = refl
of_code-state_code FsmState.block = refl
of_code-state_code FsmState.terminate = refl

state_code-injective : (s t : FsmState) → (state_code s == state_code t) ≡ true → s ≡ t
state_code-injective s t e =
    sym (of_code-state_code s)
    ∙ (ap of_code (==→eq (state_code s) (state_code t) e) ∙ of_code-state_code t)

-- A property of the surroundings that no try for a mutex ends.
abbrev pub LockKept : {W : Type 0} → Host W → (W → Type 0) → Type 0
LockKept {W = W} host V = (m : Mutex) (w : W) → V w → V (host.try_lock m w).1

busy-Does :
    {W : Type 0} {V : W → Type 0} (d : DataDump) (b : Bool)
    → Does
        (if b then skip {W = W} else set_module_status true)
        V
        d
        tt
        (record d { is_busy = if b then d.is_busy else true })
        V
busy-Does d true = skip-Does
busy-Does d false = modify-Does (λ d. record d { is_busy = true })

module _ {W : Type 0} (host : Host W) (free : Uncontended host) {V : W → Type 0}
    (kept : LockKept host V) where
  next-Does : (d : DataDump) → Does (get_next_fsm_state host) V d d.next_state d V
  unfolding get_next_fsm_state
  next-Does d = record {
    does = λ w v. (
      (host.try_lock Mutex.nxt_mutex w).1,
      rw (free Mutex.nxt_mutex w) refl,
      kept Mutex.nxt_mutex w v,
    );
  }

  pub current-Does : (d : DataDump) → Does (get_current_fsm_state host) V d d.current_state d V
  unfolding get_current_fsm_state
  current-Does d = record {
    does = λ w v. (
      (host.try_lock Mutex.cur_mutex w).1,
      rw (free Mutex.cur_mutex w) refl,
      kept Mutex.cur_mutex w v,
    );
  }

  set_current-Does :
      (s : FsmState) (d : DataDump)
      → Does (set_current_fsm_state host s) V d tt (record d { current_state = s }) V
  unfolding set_current_fsm_state
  set_current-Does s d = record {
    does = λ w v. (
      (host.try_lock Mutex.cur_mutex w).1,
      rw (free Mutex.cur_mutex w) refl,
      kept Mutex.cur_mutex w v,
    );
  }

  pub set_next-Does :
      (s : FsmState) (d : DataDump)
      → Does (set_next_fsm_state host s) V d tt (record d { next_state = s }) V
  unfolding set_next_fsm_state
  set_next-Does s d = record {
    does = λ w v. (
      (host.try_lock Mutex.nxt_mutex w).1,
      rw (free Mutex.nxt_mutex w) refl,
      kept Mutex.nxt_mutex w v,
    );
  }

  -- Equal codes are equal states, so skipping the assignment leaves the same object.
  advance-Does :
      (d : DataDump) (b : Bool)
      → (state_code d.next_state == state_code d.current_state) ≡ b
      → Does
          (if b then skip else (get_next_fsm_state host >>= set_current_fsm_state host))
          V
          d
          tt
          (record d { current_state = d.next_state })
          V
  advance-Does d true e =
      subst (λ s. Does (skip {W = W}) V d tt (record d { current_state = s }) V)
        (sym (state_code-injective d.next_state d.current_state e)) skip-Does
  advance-Does d false e = bind-Does _ (next-Does d) (set_current-Does d.next_state d)

  pub enter-Does : (d : DataDump) → Does (enter_state host) V d d.next_state (entered d) V
  unfolding enter_state
  enter-Does d = bind-Does _ (next-Does d) (
      bind-Does _ (current-Does d) (
        bind-Does _ (advance-Does d (state_code d.next_state == state_code d.current_state) refl) (
          bind-Does _ (current-Does _)
            (bind-Does _ (busy-Does _ (state_code d.next_state == 0)) (current-Does _)))))

-- While no other thread holds a mutex, the head of the loop makes the next state the current one,
-- marks the object busy unless it is idle, and hands on that state.
pub enter_state_lem :
    {W : Type 0} (host : Host W)
    → Uncontended host
    → (d : DataDump) (w : W) → (w' : W) × (enter_state host d w ≡ ok (d.next_state, entered d, w'))
enter_state_lem {W = W} host free d w =
    let entry = enter-Does host free {V = λ w. Unit {0}} (λ m w v. tt) d in
    let (w', e, v) = entry.does w tt in (w', e)
