-- ===== src/DataDump/Hangs.antt =====
-- Methods that do not return: the `do … while` loops of dataDump/DDServer.cpp and dataDump/DDClient.cpp
-- when nothing comes in and the timer does not report its time.
use data_dump_protocol.Base.{
  ℕ, zero, suc, ◌≡◌, refl, ap, ◌∙◌, Bool, true, false, if◌then◌else◌, pending, ok, List, [], some,
  ◌==◌, length, replicate, fault, le→leb, arith,
}
use data_dump_protocol.Packet.Types.{MsgType}
use data_dump_protocol.Packet.Transaction.{TransactionPacket, empty_packet}
use data_dump_protocol.Packet.Block.{BlockTxRxPacket}
use data_dump_protocol.DataDump.State.{DataDump, Host}
use data_dump_protocol.DataDump.Monad.{M, ◌>>=◌, pure, poll, lift}
use data_dump_protocol.DataDump.Carry.{counted, taken, taken_lem}
use data_dump_protocol.DataDump.Phase.{bind-ok}
use data_dump_protocol.DataDump.Does.{Does}
use data_dump_protocol.DataDump.Entering.{Uncontended, LockKept}
use data_dump_protocol.DataDump.Accept.{accept_transaction, accept_block}
use data_dump_protocol.DataDump.Ops.{
  receive_bytes, receive_transaction, receive_block, timer_is_expired,
}
use data_dump_protocol.DataDump.Shared.{receive_until}

-- From `d`, with surroundings that satisfy `V`, `m` has not returned when the rounds are used up.
pub record Hangs {W A : Type 0} (m : M W A) (V : W → Type 0) (d : DataDump) : Type 0 where
  pub hangs : (w : W) → V w → m d w ≡ pending

module _ {W : Type 0} {V : W → Type 0} {d : DataDump} where
  pub bind-Hangs : {A B : Type 0} {m : M W A} (f : A → M W B) → Hangs m V d → Hangs (m >>= f) V d
  bind-Hangs f h = record {
    hangs = λ w v.
        ap (λ o. elim o [ ok r ↦ f r.0 r.1 r.2 | fault ↦ fault | pending ↦ pending ]) (h.hangs w v);
  }

  pub then-Hangs :
      {A B : Type 0} {m : M W A} (f : A → M W B) {V' : W → Type 0} {d' : DataDump} {a : A}
      → Does m V d a d' V'
      → Hangs (f a) V' d'
      → Hangs (m >>= f) V d
  then-Hangs {m = m} f {d' = d'} {a = a} hm hf = record {
    hangs = λ w v. let (w1, e1, v1) = hm.does w v in bind-ok m f d d' w w1 a e1 ∙ hf.hangs w1 v1;
  }

  -- A loop each of whose rounds asks for another one, and that nothing stops.
  pub poll-Hangs :
      {S : Type 0} (I : S → Type 0) (body : S → M W S) (stop : M W Bool) (again : S → Bool)
      → ((s : S) → I s → (s' : S) × I s' × (again s' ≡ true) × Does (body s) V d s' d V)
      → Does stop V d false d V
      → (rounds : ℕ) (s : S) → I s
      → Hangs (poll rounds body again stop s) V d
  unfolding poll
  poll-Hangs I body stop again turn runs zero s i = record { hangs = λ w v. refl }
  poll-Hangs {S = S} I body stop again turn runs (suc rounds) s i =
      let (s', i', more, h) = turn s i in
      let rest = poll-Hangs I body stop again turn runs rounds s' i' in
      then-Hangs next h (again_Hangs s' (again s') more rest)
    where
      next : S → M W S
      next s =
          if again s
          then (stop >>= λ stopped. if stopped then pure s else poll rounds body again stop s)
          else pure s

      again_Hangs :
          (s : S) (b : Bool)
          → b ≡ true
          → Hangs (poll rounds body again stop s) V d
          → Hangs
              (if b
                then (stop >>= λ stopped. if stopped then pure s else poll rounds body again stop s)
                else pure s)
              V
              d
      again_Hangs s true e h =
          then-Hangs (λ stopped. if stopped then pure s else poll rounds body again stop s) runs h
      again_Hangs s false e h = absurd (cc e)

-- Surroundings in which nothing comes in and the timer does not report its time.
pub record Silent {W : Type 0} (host : Host W) (V : W → Type 0) : Type 0 where
  pub receive : ℕ → W → List ℕ × W
  pub receives : host.recv_cb ≡ some receive
  pub nothing : (n : ℕ) (w : W) → V w → ((receive n w).0 ≡ []) × V (receive n w).1
  pub unexpired :
      (w : W) → V w → ((host.timer_is_expired w).0 ≡ false) × V (host.timer_is_expired w).1
  pub free : Uncontended host
  pub kept : LockKept host V

module _ {W : Type 0} {host : Host W} {V : W → Type 0} (silent : Silent host V) (d : DataDump) where
  pub expired-Does : Does (timer_is_expired host) V d false d V
  unfolding timer_is_expired
  expired-Does = record {
    does = λ w v.
        let (e, v') = silent.unexpired w v in
        ((host.timer_is_expired w).1, ap (λ t. ok (t, d, (host.timer_is_expired w).1)) e, v');
  }

  abbrev reads : TransactionPacket → MsgType → List ℕ → M W (ℕ × TransactionPacket)
  reads q wanted bytes = counted d bytes >>= λ r. lift (accept_transaction q wanted r.0 r.1)

  came_lem :
      (q : TransactionPacket) (wanted : MsgType) (w : W)
      → receive_transaction host q wanted d w
        ≡ reads q wanted
            (silent.receive d.max_packet_size w).0
            d
            (silent.receive d.max_packet_size w).1
  unfolding receive_transaction receive_bytes
  came_lem q wanted w = rw silent.receives refl

  -- A message of no bytes is none.
  none_read :
      (q : TransactionPacket) (wanted : MsgType) (w : W) → reads q wanted [] d w ≡ ok ((0, q), d, w)
  unfolding accept_transaction
  none_read q wanted w =
      rw (le→leb 0 (length {A = ℕ} (replicate d.max_packet_size 0)) (omega arith)) refl

  no_block_read :
      (q : BlockTxRxPacket) (wanted : MsgType) (w : W) → taken q wanted d [] d w ≡ ok ((0, q), d, w)
  unfolding accept_block
  no_block_read q wanted w =
      rw (le→leb 0 (length {A = ℕ} (replicate d.max_packet_size 0)) (omega arith)) refl

  transaction-Does :
      (q : TransactionPacket) (wanted : MsgType)
      → Does (receive_transaction host q wanted) V d (0, q) d V
  transaction-Does q wanted = record {
    does = λ w v.
        let (e, v') = silent.nothing d.max_packet_size w v in
        let w1 = (silent.receive d.max_packet_size w).1 in
        (
          w1,
          came_lem q wanted w ∙ ap (λ bytes. reads q wanted bytes d w1) e ∙ none_read q wanted w1,
          v',
        );
  }

  pub block-Does :
      (q : BlockTxRxPacket) (wanted : MsgType) → Does (receive_block host q wanted) V d (0, q) d V
  block-Does q wanted = record {
    does = λ w v.
        let (e, v') = silent.nothing d.max_packet_size w v in
        let w1 = (silent.receive d.max_packet_size w).1 in
        (
          w1,
          taken_lem host silent.receive q wanted d w silent.receives
              ∙ ap (λ bytes. taken q wanted d bytes d w1) e
              ∙ no_block_read q wanted w1,
          v',
        );
  }

  pub receive_until-Hangs :
      (rounds : ℕ) (wanted : MsgType) → Hangs (receive_until host rounds wanted) V d
  unfolding receive_until
  receive_until-Hangs rounds wanted =
      poll-Hangs (λ s. Unit {0}) (λ s. receive_transaction host s.1 wanted) (timer_is_expired host)
        (λ s. s.0 == 0) (λ s i. ((0, s.1), tt, refl, transaction-Does s.1 wanted)) expired-Does
        rounds (0, empty_packet) tt
