-- ===== src/Server/Opening.antt =====
-- The states REQUEST, RESPONSE and INITIATE_BLOCK of dataDump/DDServer.cpp over a line to a client.
use data_dump_protocol.Base.{
  ℕ, suc, ◌+◌, ◌≤◌, ◌<◌, ◌≡◌, refl, sym, ap, ◌∙◌, arith, List, [], ◌∷◌, some, true, false, not,
  length, ok, ◌==◌, ==_self, ne→==_false, Bool, if◌then◌else◌,
}
use data_dump_protocol.Packet.Types.{MsgType}
use data_dump_protocol.Packet.Header.{TranscationHeader}
use data_dump_protocol.Packet.Transaction.{TransactionPacket, header_size, empty_packet}
use data_dump_protocol.Packet.WireTransaction.{IsHeader, header_bytes}
use data_dump_protocol.DataDump.State.{DataDump, Host, FsmState}
use data_dump_protocol.DataDump.Monad.{M, pure, ◌>>=◌, ◌>>◌, get, modify}
use data_dump_protocol.DataDump.Does.{Does, bind-Does, modify-Does, get-Does, taken-Does, poll-Does}
use data_dump_protocol.DataDump.Entering.{set_next-Does}
use data_dump_protocol.DataDump.Line.{
  Line, At, locks-free, locks-At, in_state, asking, asking_if, asks-Does, start-Does,
  send_until-Does, receive-Does, receive_until-Does,
}
use data_dump_protocol.DataDump.Ops.{set_next_fsm_state, start_state_transition_timer}
use data_dump_protocol.DataDump.Shared.{config_packet, copy_config, send_until}
use data_dump_protocol.DataDump.Phase.{bind-ok}
use data_dump_protocol.DataDump.Ops.{receive_transaction}
use data_dump_protocol.DataDump.Shared.{consume}
use data_dump_protocol.Client.Storage.{overwritten}
use data_dump_protocol.Server.Terms.{negotiate}
use data_dump_protocol.Server.Blocks.{storage_room}
use data_dump_protocol.Server.Settle.{consume_writes}
use data_dump_protocol.Server.States.{
  save_client_config, server_request, read_storage, server_response, server_initiate_block,
}

module _ {W : Type 0} {host : Host W} {out inn : W → List (List ℕ)} {kept : W → Type 0}
    (line : Line host out inn kept) (d : DataDump) (fits : header_size ≤ d.max_packet_size)
    (rounds : ℕ) where
  pub request-Does :
      (a : List (List ℕ)) (h : TranscationHeader)
      → IsHeader h
      → h.msg_type ≡ MsgType.request
      → h.data_buffer_size ≡ 0
      → h.crc ≡ 0
      → Does
          (server_request host (suc rounds))
          (At line a (header_bytes 0 h ∷ []))
          d
          tt
          (in_state FsmState.response (save_client_config (record empty_packet { header = h }) d))
          (At line a [])
  unfolding server_request
  request-Does a h v kind nodata nocrc =
      bind-Does _
        (poll-Does (λ s. receive_transaction host s.1 MsgType.request) (pure false) rounds
          (λ s. s.0 == 0) (0, empty_packet) refl
          (receive-Does line d fits a h MsgType.request v kind (λ e. cc e) nodata nocrc
            empty_packet))
        (bind-Does (λ _. asking host FsmState.response (λ d. d.server_config.max_ack_timeout))
          (modify-Does (save_client_config (record empty_packet { header = h })))
          (asks-Does line a [] FsmState.response (λ d. d.server_config.max_ack_timeout) _))

  pub initiate-Does :
      (a : List (List ℕ)) (h : TranscationHeader)
      → IsHeader h
      → h.msg_type ≡ MsgType.initiate_block_transfer
      → h.data_buffer_size ≡ 0
      → h.crc ≡ 0
      → d.client_config.transaction_id ≡ h.transaction_id
      → Does
          (server_initiate_block host (suc rounds))
          (At line a (header_bytes 0 h ∷ []))
          d
          tt
          (record (in_state FsmState.block d) { internal_counter = 1 })
          (At line a [])
  unfolding server_initiate_block
  initiate-Does a h v kind nodata nocrc same =
      bind-Does _
        (receive_until-Does line d fits a h MsgType.initiate_block_transfer v kind (λ e. cc e)
          nodata nocrc rounds)
        (bind-Does
          (λ d.
            if d.client_config.transaction_id == h.transaction_id
            then starts
            else set_next_fsm_state host FsmState.terminate)
          get-Does
          (taken-Does (set_next_fsm_state host FsmState.terminate)
            (d.client_config.transaction_id == h.transaction_id)
            (rw same (==_self h.transaction_id))
            (bind-Does (λ _. timed)
              (set_next-Does host (locks-free line) (locks-At line a []) FsmState.block d)
              (bind-Does (λ d. timer d) get-Does
                (bind-Does (λ _. modify (λ d. record d { internal_counter = 1 }))
                  (start-Does line a [] d.client_config.max_ack_timeout _)
                  (modify-Does (λ d. record d { internal_counter = 1 })))))))
    where
      timer : DataDump → M W (Unit {0})
      timer d =
          start_state_transition_timer host d.client_config.max_ack_timeout
          >> modify (λ d. record d { internal_counter = 1 })

      timed : M W (Unit {0})
      timed = get >>= timer

      starts : M W (Unit {0})
      starts = set_next_fsm_state host FsmState.block >> timed

-- A storage that, asked for `n` bytes, hands over `bytes` to a server's buffer at the index
-- `start`, and touches no message.
pub record Stores {W : Type 0} (host : Host W) (out inn : W → List (List ℕ)) (kept : W → Type 0)
    (d : DataDump) (start n : ℕ) (bytes : List ℕ) : Type 0 where
  pub storage : ℕ → Bool → W → List ℕ × W
  pub consumes : host.consumer_cb ≡ some storage
  pub at_index : d.internal_buffer ≡ some start
  pub hands : (w : W) → kept w → (storage n false w).0 ≡ bytes
  pub apart :
      (w : W)
      → kept w
      → (out (storage n false w).1 ≡ out w)
        × (inn (storage n false w).1 ≡ inn w)
        × kept (storage n false w).1
  pub some_bytes : 0 < length bytes
  pub room : start + length bytes ≤ length d.internal_memory

abbrev pub with_storage : DataDump → ℕ → List ℕ → DataDump
with_storage d start bytes = record d {
  internal_memory = overwritten d.internal_memory start bytes;
  internal_buffer_len = length bytes;
}

module _ {W : Type 0} {host : Host W} {out inn : W → List (List ℕ)} {kept : W → Type 0}
    (line : Line host out inn kept) (d : DataDump) (fits : header_size ≤ d.max_packet_size)
    (rounds : ℕ) (start : ℕ) (bytes : List ℕ) (n : ℕ)
    (stores : Stores host out inn kept d start n bytes) where
  read_storage-Does :
      (config : TranscationHeader) (a b : List (List ℕ))
      → n ≡ storage_room d config.max_blocks_per_transaction
      → Does
          (read_storage host)
          (At line a b)
          (record d { client_config = config })
          true
          (with_storage (record d { client_config = config }) start bytes)
          (At line a b)
  unfolding read_storage
  read_storage-Does config a b asked = record {
    does = λ w (e, f, k).
        let d' = record d { client_config = config; internal_buffer = some start } in
        let handed = stores.hands w k in
        let (o, i, j) = stores.apart w k in
        (
          (stores.storage n false w).1,
          rw (stores.consumes, stores.at_index, sym asked)
              (bind-ok (consume host stores.storage n false) counts d'
                  (record d' {
                    internal_memory =
                        overwritten d.internal_memory start (stores.storage n false w).0;
                  })
                  w (stores.storage n false w).1 (length (stores.storage n false w).0)
                  (consume_writes host stores.storage d' w start n false refl
                    (rw handed stores.room))
                ∙ ap
                    (λ bs.
                      counts (length bs)
                        (record d' { internal_memory = overwritten d.internal_memory start bs })
                        (stores.storage n false w).1)
                    handed
                ∙ ap (λ t. ok (not t, with_storage d' start bytes, (stores.storage n false w).1))
                    (ne→==_false (length bytes) 0 (λ e. omega (arith, e, stores.some_bytes)))),
          (o ∙ e, i ∙ f, j),
        );
  }
    where
      counts : ℕ → M W Bool
      counts n = modify (λ d. record d { internal_buffer_len = n }) >> pure (not (n == 0))

  pub response-Does :
      (b : List (List ℕ))
      → n ≡ storage_room d (negotiate d.client_config d.server_config).max_blocks_per_transaction
      → Does
          (server_response host (suc rounds))
          (At line [] b)
          d
          tt
          (in_state FsmState.initiate_block (
            with_storage
              (save_client_config
                (config_packet MsgType.response (negotiate d.client_config d.server_config))
                d)
              start
              bytes))
          (At line
            (header_bytes 0
                (config_packet MsgType.response (negotiate d.client_config d.server_config)).header
              ∷ [])
            b)
  unfolding server_response
  response-Does b asked =
      bind-Does
        (λ d.
          modify (save_client_config (response d))
          >> (read_storage host >>= λ read. sends (response d) read >>= answered))
        get-Does
        (bind-Does (λ _. read_storage host >>= λ read. sends (response d) read >>= answered)
          (modify-Does (save_client_config (response d)))
          (bind-Does (λ read. sends (response d) read >>= answered)
            (read_storage-Does (copy_config d.client_config (response d).header) [] b asked)
            (bind-Does answered (send_until-Does line _ fits b rounds (response d) refl) (
              asks-Does line _ b FsmState.initiate_block (λ d. d.client_config.max_ack_timeout)
                _))))
    where
      response : DataDump → TransactionPacket
      response d = config_packet MsgType.response (negotiate d.client_config d.server_config)

      answered : Bool → M W (Unit {0})
      answered = asking_if host FsmState.initiate_block (λ d. d.client_config.max_ack_timeout)

      sends : TransactionPacket → Bool → M W Bool
      sends p read = if read then send_until host (suc rounds) p else pure false
