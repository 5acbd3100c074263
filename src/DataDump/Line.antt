-- ===== src/DataDump/Line.antt =====
-- A transport that carries one message at a time, and what `send`, `receive` and the waiting loops of
-- dataDump/DDBase.cpp do over it.
use data_dump_protocol.Base.{
  ℕ, suc, ◌*◌, ◌≤◌, ◌<◌, ◌≡◌, ◌≢◌, ◌==◌, refl, sym, ap, ◌∙◌, arith, List, [], ◌∷◌, ◌++◌, some, Bool,
  true, false, not, length, ok, replicate, length-replicate, le→leb, ==_self, drop, if◌then◌else◌,
}
use data_dump_protocol.Packet.Types.{MsgType, code, u8}
use data_dump_protocol.Packet.Header.{TranscationHeader}
use data_dump_protocol.Packet.Transaction.{
  TransactionPacket, empty_packet, header_size, get_packet_size,
}
use data_dump_protocol.Packet.WireTransaction.{IsHeader, header_bytes}
use data_dump_protocol.DataDump.State.{DataDump, Host, FsmState, Mutex}
use data_dump_protocol.DataDump.Monad.{M, ◌>>=◌, ◌>>◌, get, skip, lift}
use data_dump_protocol.DataDump.Accept.{accept_transaction}
use data_dump_protocol.DataDump.Does.{Does, bind-Does, get-Does, skip-Does, pure-Does, poll-Does}
use data_dump_protocol.DataDump.Entering.{Uncontended, LockKept, set_next-Does}
use data_dump_protocol.DataDump.Carry.{first_zero, counted}
use data_dump_protocol.DataDump.Checks.{accept_transaction_lem}
use data_dump_protocol.DataDump.Polling.{send_transaction_lem}
use data_dump_protocol.DataDump.Ops.{
  set_next_fsm_state, send_transaction, receive_transaction, receive_bytes,
  start_state_transition_timer, timer_is_expired,
}
use data_dump_protocol.DataDump.Shared.{send_until, receive_until}

-- One end of a line: `out` is what it has sent and the other end has not taken, `inn` what it may
-- take. A message goes out if none is on its way and comes in whole if it fits; the mutexes are
-- free, the timer can be started, and neither touches the messages. `kept` holds all the time.
pub record Line {W : Type 0} (host : Host W) (out inn : W → List (List ℕ)) (kept : W → Type 0)
    : Type 0 where
  pub send : List ℕ → W → Bool × W
  pub sends : host.send_cb ≡ some send
  pub queued :
      (bytes : List ℕ) (w : W)
      → out w ≡ []
      → 0 < length bytes
      → kept w
      → ((send bytes w).0 ≡ true)
        × (out (send bytes w).1 ≡ bytes ∷ [])
        × (inn (send bytes w).1 ≡ inn w)
        × kept (send bytes w).1
  pub receive : ℕ → W → List ℕ × W
  pub receives : host.recv_cb ≡ some receive
  pub handed :
      (n : ℕ) (w : W) (message : List ℕ)
      → inn w ≡ message ∷ []
      → 0 < length message
      → length message ≤ n
      → kept w
      → ((receive n w).0 ≡ message)
        × (out (receive n w).1 ≡ out w)
        × (inn (receive n w).1 ≡ [])
        × kept (receive n w).1
  pub locks :
      (m : Mutex) (w : W)
      → ((host.try_lock m w).0 ≡ true)
        × (out (host.try_lock m w).1 ≡ out w)
        × (inn (host.try_lock m w).1 ≡ inn w)
        × (kept w → kept (host.try_lock m w).1)
  pub starts :
      (interval : ℕ) (w : W)
      → ((host.timer_start interval w).0 ≡ true)
        × (out (host.timer_start interval w).1 ≡ out w)
        × (inn (host.timer_start interval w).1 ≡ inn w)
        × (kept w → kept (host.timer_start interval w).1)

module _ {W : Type 0} {host : Host W} {out inn : W → List (List ℕ)} {kept : W → Type 0}
    (line : Line host out inn kept) where
  abbrev pub At : List (List ℕ) → List (List ℕ) → W → Type 0
  At a b w = (out w ≡ a) × (inn w ≡ b) × kept w

  pub locks-free : Uncontended host
  locks-free m w = (line.locks m w).0

  pub locks-At : (a b : List (List ℕ)) → LockKept host (At a b)
  locks-At a b m w (e, f, k) =
      ((line.locks m w).1 ∙ e, (line.locks m w).2 ∙ f, (line.locks m w).3 k)

  pub start-Does :
      (a b : List (List ℕ)) (timeout : ℕ) (d : DataDump)
      → Does (start_state_transition_timer host timeout) (At a b) d true d (At a b)
  unfolding start_state_transition_timer
  start-Does a b timeout d = record {
    does = λ w (e, f, k).
        let (yes', o, i, j) = line.starts (timeout * 100) w in
        (
          (host.timer_start (timeout * 100) w).1,
          ap (λ t. ok (t, d, (host.timer_start (timeout * 100) w).1)) yes',
          (o ∙ e, i ∙ f, j k),
        );
  }

  module _ (d : DataDump) (fits : header_size ≤ d.max_packet_size) where
    send-Does :
        (b : List (List ℕ)) (p : TransactionPacket)
        → p.header.data_buffer_size ≡ 0
        → Does
            (send_transaction host p (u8 (get_packet_size p)))
            (At [] b)
            d
            (true, p)
            d
            (At (header_bytes 0 p.header ∷ []) b)
    send-Does b p nodata = record {
      does = λ w (e, f, k).
          let bytes = header_bytes 0 p.header in
          let (taken, o, i, j) = line.queued bytes w e (omega arith) k in
          (
            (line.send bytes w).1,
            ap (λ (len : ℕ). send_transaction host p len d w) size
                ∙ send_transaction_lem host line.send p d w line.sends nodata fits
                ∙ ap (λ t. ok ((t, p), d, (line.send bytes w).1)) taken,
            (o, i ∙ f, j),
          );
    }
      where
        size : u8 (get_packet_size p) ≡ header_size
        size = unfold get_packet_size in omega arith

    pub send_until-Does :
        (b : List (List ℕ)) (rounds : ℕ) (p : TransactionPacket)
        → p.header.data_buffer_size ≡ 0
        → Does
            (send_until host (suc rounds) p)
            (At [] b)
            d
            true
            d
            (At (header_bytes 0 p.header ∷ []) b)
    unfolding send_until
    send_until-Does b rounds p nodata =
        bind-Does _
          (poll-Does _ (timer_is_expired host) rounds (λ s. not s.0) (false, p) refl
            (send-Does b p nodata))
          pure-Does

    module _ (a : List (List ℕ)) (h : TranscationHeader) (wanted : MsgType) (v : IsHeader h)
        (kind : h.msg_type ≡ wanted) (known : wanted ≢ MsgType.block_acknot)
        (nodata : h.data_buffer_size ≡ 0) (nocrc : h.crc ≡ 0) where
      -- What `receive` does once the bytes are there.
      abbrev reads : TransactionPacket → List ℕ → M W (ℕ × TransactionPacket)
      reads q bytes = counted d bytes >>= λ r. lift (accept_transaction q wanted r.0 r.1)

      came_lem :
          (q : TransactionPacket) (w : W)
          → receive_transaction host q wanted d w
            ≡ reads q (line.receive d.max_packet_size w).0 d (line.receive d.max_packet_size w).1
      unfolding receive_transaction receive_bytes
      came_lem q w = rw line.receives refl

      reads_lem :
          (q : TransactionPacket) (w : W)
          → reads q (header_bytes 0 h) d w ≡ ok ((header_size, record q { header = h }), d, w)
      reads_lem q w =
          rw
            (le→leb header_size (length {A = ℕ} (replicate d.max_packet_size 0))
              (omega (arith, fits, length-replicate {A = ℕ} d.max_packet_size 0)))
            (ap (λ o. lift o d w)
              (ap
                  (λ (old : ℕ).
                    accept_transaction q wanted header_size
                      (header_bytes old h ++ drop header_size (replicate d.max_packet_size 0)))
                  (sym (first_zero d.max_packet_size))
                ∙ accept_transaction_lem q h wanted (replicate d.max_packet_size 0) header_size v
                    (rw kind known) nodata nocrc (omega arith)
                ∙ ap
                    (λ (t : Bool).
                      ok (if t then (header_size, record q { header = h }) else (0, q)))
                    same_code))
        where
          same_code : (code h.msg_type == code wanted) ≡ true
          same_code = rw kind (==_self (code wanted))

      pub receive-Does :
          (q : TransactionPacket)
          → Does
              (receive_transaction host q wanted)
              (At a (header_bytes 0 h ∷ []))
              d
              (header_size, record q { header = h })
              d
              (At a [])
      receive-Does q = record {
        does = λ w (e, f, k).
            let (came, o, i, j) =
              line.handed d.max_packet_size w (header_bytes 0 h) f (omega arith) fits k in
            (
              (line.receive d.max_packet_size w).1,
              came_lem q w
                  ∙ ap (λ bytes. reads q bytes d (line.receive d.max_packet_size w).1) came
                  ∙ reads_lem q (line.receive d.max_packet_size w).1,
              (o ∙ e, i, j),
            );
      }

      pub receive_until-Does :
          (rounds : ℕ)
          → Does
              (receive_until host (suc rounds) wanted)
              (At a (header_bytes 0 h ∷ []))
              d
              (header_size, record empty_packet { header = h })
              d
              (At a [])
      unfolding receive_until
      receive_until-Does rounds =
          poll-Does _ (timer_is_expired host) rounds (λ s. s.0 == 0) (0, empty_packet) refl
            (receive-Does empty_packet)

-- What both machines do once a message is out: ask for the next state and start the timer.
-- Otherwise they ask for the end.
abbrev pub asking : {W : Type 0} → Host W → FsmState → (DataDump → ℕ) → M W (Unit {0})
asking host s timeout =
    set_next_fsm_state host s
    >> (get >>= λ d. start_state_transition_timer host (timeout d) >> skip)

abbrev pub asking_if : {W : Type 0} → Host W → FsmState → (DataDump → ℕ) → Bool → M W (Unit {0})
asking_if host s timeout sent =
    if sent then asking host s timeout else set_next_fsm_state host FsmState.terminate

-- The object that acts in the state `s`.
abbrev pub in_state : FsmState → DataDump → DataDump
in_state s d = record d { next_state = s }

module _ {W : Type 0} {host : Host W} {out inn : W → List (List ℕ)} {kept : W → Type 0}
    (line : Line host out inn kept) (a b : List (List ℕ)) where
  -- The next state is asked for and the timer started.
  pub asks-Does :
      (s : FsmState) (timeout : DataDump → ℕ) (d : DataDump)
      → Does (asking host s timeout) (At line a b) d tt (in_state s d) (At line a b)
  asks-Does s timeout d =
      bind-Does (λ _. get >>= λ d. start_state_transition_timer host (timeout d) >> skip)
        (set_next-Does host (locks-free line) (locks-At line a b) s d)
        (bind-Does (λ d. start_state_transition_timer host (timeout d) >> skip) get-Does
          (bind-Does (λ _. skip) (start-Does line a b (timeout (in_state s d)) _) skip-Does))
