-- ===== src/Client/Opening.antt =====
-- The states REQUEST, RESPONSE and INITIATE_BLOCK of dataDump/DDClient.cpp over a line to a server.
use data_dump_protocol.Base.{
  ℕ, suc, ◌≤◌, ◌≡◌, ◌≢◌, refl, ap, List, [], ◌∷◌, false, not, ◌==◌, ne→==_false, if◌then◌else◌,
}
use data_dump_protocol.Packet.Types.{MsgType}
use data_dump_protocol.Packet.Header.{TranscationHeader}
use data_dump_protocol.Packet.Transaction.{header_size}
use data_dump_protocol.Packet.WireTransaction.{IsHeader, header_bytes}
use data_dump_protocol.DataDump.State.{DataDump, Host, FsmState}
use data_dump_protocol.DataDump.Monad.{pure, ◌>>=◌}
use data_dump_protocol.DataDump.Does.{Does, bind-Does, modify-Does, get-Does, taken-Does}
use data_dump_protocol.DataDump.Line.{
  Line, At, in_state, asking, asking_if, asks-Does, start-Does, send_until-Does, receive_until-Does,
}
use data_dump_protocol.DataDump.Shared.{config_packet, copy_config, send_until}
use data_dump_protocol.Client.States.{client_request, client_response, client_initiate_block}

module _ {W : Type 0} {host : Host W} {out inn : W → List (List ℕ)} {kept : W → Type 0}
    (line : Line host out inn kept) (d : DataDump) (fits : header_size ≤ d.max_packet_size)
    (rounds : ℕ) where
  pub request-Does :
      (b : List (List ℕ))
      → Does
          (client_request host (suc rounds))
          (At line [] b)
          d
          tt
          (in_state FsmState.response d)
          (At line (header_bytes 0 (config_packet MsgType.request d.client_config).header ∷ []) b)
  unfolding client_request
  request-Does b = bind-Does _ (start-Does line [] b 200 d) (
      bind-Does
        (λ d.
          send_until host (suc rounds) (config_packet MsgType.request d.client_config)
          >>= asking_if host FsmState.response (λ d. d.client_config.max_ack_timeout))
        get-Does
        (bind-Does (asking_if host FsmState.response (λ d. d.client_config.max_ack_timeout))
          (send_until-Does line d fits b rounds (config_packet MsgType.request d.client_config)
            refl)
          (asks-Does line _ b FsmState.response (λ d. d.client_config.max_ack_timeout) d)))

  pub response-Does :
      (a : List (List ℕ)) (h : TranscationHeader)
      → IsHeader h
      → h.msg_type ≡ MsgType.response
      → h.data_buffer_size ≡ 0
      → h.crc ≡ 0
      → Does
          (client_response host (suc rounds))
          (At line a (header_bytes 0 h ∷ []))
          d
          tt
          (in_state FsmState.initiate_block
            (record d { server_config = copy_config d.server_config h }))
          (At line a [])
  unfolding client_response
  response-Does a h v kind nodata nocrc =
      bind-Does _
        (receive_until-Does line d fits a h MsgType.response v kind (λ e. cc e) nodata nocrc rounds)
        (bind-Does (λ _. asking host FsmState.initiate_block (λ d. d.server_config.max_ack_timeout))
          (modify-Does (λ d. record d { server_config = copy_config d.server_config h }))
          (asks-Does line a [] FsmState.initiate_block (λ d. d.server_config.max_ack_timeout) _))

  pub initiate-Does :
      (b : List (List ℕ))
      → d.server_config.transaction_id ≢ 0
      → Does
          (client_initiate_block host (suc rounds))
          (At line [] b)
          d
          tt
          (in_state FsmState.block d)
          (At line
            (header_bytes 0 (config_packet MsgType.initiate_block_transfer d.server_config).header
              ∷ [])
            b)
  unfolding client_initiate_block
  initiate-Does b id =
      bind-Does
        (λ d.
          (if not (d.server_config.transaction_id == 0)
            then send_until host (suc rounds)
                (config_packet MsgType.initiate_block_transfer d.server_config)
            else pure false)
          >>= asking_if host FsmState.block (λ d. d.server_config.max_ack_timeout))
        get-Does
        (bind-Does (asking_if host FsmState.block (λ d. d.server_config.max_ack_timeout))
          (taken-Does (pure false) (not (d.server_config.transaction_id == 0))
            (ap not (ne→==_false d.server_config.transaction_id 0 id))
            (send_until-Does line d fits b rounds
              (config_packet MsgType.initiate_block_transfer d.server_config) refl))
          (asks-Does line _ b FsmState.block (λ d. d.server_config.max_ack_timeout) d))
