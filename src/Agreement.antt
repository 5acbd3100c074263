-- ===== src/Agreement.antt =====
-- The opening of a transfer between dataDump/DDClient.cpp and dataDump/DDServer.cpp: what both
-- sides have agreed on when the blocks begin.
pub mod Calls
pub mod Terms
use data_dump_protocol.Base.{
  ℕ, suc, ◌≤◌, ◌<◌, ◌≡◌, ◌≢◌, refl, ap, ◌∙◌, arith, List, [], ◌∷◌, some, ◌^◌, Outcome, ok, fault,
  pending, ◌>>=◌, length,
}
use data_dump_protocol.Packet.Types.{MsgType}
use data_dump_protocol.Packet.Header.{TranscationHeader}
use data_dump_protocol.Packet.Transaction.{TransactionPacket, header_size, empty_packet}
use data_dump_protocol.Packet.WireTransaction.{IsHeader, header_bytes}
use data_dump_protocol.DataDump.State.{DataDump, Host, FsmState}
use data_dump_protocol.DataDump.Does.{Does, bind-Does}
use data_dump_protocol.DataDump.Entering.{entered, enter-Does}
use data_dump_protocol.DataDump.Line.{Line, At, locks-free, locks-At, in_state}
use data_dump_protocol.DataDump.Shared.{config_packet, copy_config}
use data_dump_protocol.Client.Storage.{overwritten}
use data_dump_protocol.Client.Loop.{client_loop, client_dispatch}
use data_dump_protocol.Client.Opening as ClientOpening
use data_dump_protocol.Server.Terms.{negotiate}
use data_dump_protocol.Server.Blocks.{storage_room}
use data_dump_protocol.Server.Loop.{server_loop, server_dispatch}
use data_dump_protocol.Server.States.{save_client_config}
use data_dump_protocol.Server.Opening as ServerOpening
use data_dump_protocol.Server.Opening.{Stores, with_storage}
use data_dump_protocol.Agreement.Calls.{
  Both, of_client, of_server, opening_calls, client_loop-Does, server_loop-Does, next_ok,
}
use data_dump_protocol.Agreement.Terms.{
  Opened, Agreed, AreTerms, packet-IsHeader, copied-AreTerms, packet-AreTerms, negotiate-AreTerms,
}

module _ {W : Type 0} {client server : Host W} {to_server to_client : W → List (List ℕ)}
    {kept : W → Type 0} (client_line : Line client to_server to_client kept)
    (server_line : Line server to_client to_server kept) (c s : DataDump) (start : ℕ)
    (bytes : List ℕ)
    (stores : Stores server to_client to_server kept s start
      (storage_room s (negotiate c.client_config s.server_config).max_blocks_per_transaction)
      bytes)
    (client_fits : header_size ≤ c.max_packet_size) (server_fits : header_size ≤ s.max_packet_size)
    (client_terms : AreTerms c.client_config) (server_terms : AreTerms s.server_config)
    (numbered : c.client_config.transaction_id ≢ 0) (rounds : ℕ) where
  request : TranscationHeader
  request = (config_packet MsgType.request c.client_config).header

  asked : DataDump
  asked = in_state FsmState.response (entered (in_state FsmState.request c))

  requested : DataDump
  requested = in_state FsmState.response (
      save_client_config (record empty_packet { header = request })
        (entered (in_state FsmState.request s)))

  terms : TranscationHeader
  terms = negotiate requested.client_config s.server_config

  answer : TransactionPacket
  answer = config_packet MsgType.response terms

  answered : DataDump
  answered =
      in_state FsmState.initiate_block
        (with_storage (save_client_config answer (entered requested)) start bytes)

  told : DataDump
  told =
      in_state FsmState.initiate_block
        (record (entered asked) { server_config = copy_config c.server_config answer.header })

  starting : DataDump
  starting = in_state FsmState.block (entered told)

  started : DataDump
  started = record (in_state FsmState.block (entered answered)) { internal_counter = 1 }

  terms-AreTerms : AreTerms terms
  unfolding terms requested request
  terms-AreTerms =
      negotiate-AreTerms requested.client_config s.server_config
        (copied-AreTerms s.client_config request
          (packet-AreTerms MsgType.request c.client_config client_terms))
        server_terms

  start_message : TranscationHeader
  start_message = (config_packet MsgType.initiate_block_transfer told.server_config).header

  asks-Does :
      Does
        (client_loop client (suc rounds))
        (At client_line [] [])
        (in_state FsmState.request c)
        tt
        asked
        (At client_line (header_bytes 0 request ∷ []) [])
  unfolding client_dispatch asked request
  asks-Does = client_loop-Does client_line [] [] _ [] (suc rounds) FsmState.request c asked (
      ClientOpening.request-Does client_line (entered (in_state FsmState.request c)) client_fits
        rounds [])

  hears-Does :
      Does
        (server_loop server (suc rounds))
        (At server_line [] (header_bytes 0 request ∷ []))
        (in_state FsmState.request s)
        tt
        requested
        (At server_line [] [])
  unfolding server_dispatch requested request
  hears-Does = server_loop-Does server_line [] _ [] [] (suc rounds) FsmState.request s requested (
      ServerOpening.request-Does server_line (entered (in_state FsmState.request s)) server_fits
        rounds [] request (packet-IsHeader MsgType.request c.client_config client_terms) refl refl
        refl)

  answers-Does :
      Does
        (server_loop server (suc rounds))
        (At server_line [] [])
        requested
        tt
        answered
        (At server_line (header_bytes 0 answer.header ∷ []) [])
  unfolding server_dispatch requested answered answer terms request negotiate
  answers-Does =
      server_loop-Does server_line [] [] _ [] (suc rounds) FsmState.response
        (save_client_config (record empty_packet { header = request })
          (entered (in_state FsmState.request s)))
        answered
        (ServerOpening.response-Does server_line (entered requested) server_fits rounds start bytes
          (storage_room s (negotiate c.client_config s.server_config).max_blocks_per_transaction)
          record {
            storage = stores.storage;
            consumes = stores.consumes;
            at_index = stores.at_index;
            hands = stores.hands;
            apart = stores.apart;
            some_bytes = stores.some_bytes;
            room = stores.room;
          }
          [] refl)

  learns-Does :
      Does
        (client_loop client (suc rounds))
        (At client_line [] (header_bytes 0 answer.header ∷ []))
        asked
        tt
        told
        (At client_line [] [])
  unfolding client_dispatch asked told answer
  learns-Does =
      client_loop-Does client_line [] _ [] [] (suc rounds) FsmState.response
        (entered (in_state FsmState.request c)) told
        (ClientOpening.response-Does client_line (entered asked) client_fits rounds [] answer.header
          (packet-IsHeader MsgType.response terms terms-AreTerms) refl refl refl)

  begins-Does :
      Does
        (client_loop client (suc rounds))
        (At client_line [] [])
        told
        tt
        starting
        (At client_line (header_bytes 0 start_message ∷ []) [])
  unfolding client_dispatch told starting start_message answer terms negotiate requested request
      asked
  begins-Does =
      client_loop-Does client_line [] [] _ [] (suc rounds) FsmState.initiate_block
        (record (entered asked) { server_config = copy_config c.server_config answer.header })
        starting
        (ClientOpening.initiate-Does client_line (entered told) client_fits rounds [] numbered)

  starts-Does :
      Does
        (server_loop server (suc rounds))
        (At server_line [] (header_bytes 0 start_message ∷ []))
        answered
        tt
        started
        (At server_line [] [])
  unfolding server_dispatch answered started start_message told answer requested
  starts-Does =
      server_loop-Does server_line [] _ [] [] (suc rounds) FsmState.initiate_block
        (with_storage (save_client_config answer (entered requested)) start bytes) started
        (ServerOpening.initiate-Does server_line (entered answered) server_fits rounds []
          start_message
          (packet-IsHeader MsgType.initiate_block_transfer told.server_config (
            copied-AreTerms c.server_config answer.header
              (packet-AreTerms MsgType.response terms terms-AreTerms)))
          refl refl refl refl)

  client-Agreed : Agreed starting.server_config (negotiate c.client_config s.server_config)
  unfolding starting told answer terms requested request asked negotiate
  client-Agreed = record {
    same_id = refl;
    same_blocks = refl;
    same_packetlen = refl;
    same_timeout = refl;
  }

  server-Agreed : Agreed started.client_config (negotiate c.client_config s.server_config)
  unfolding started answered answer terms requested request negotiate
  server-Agreed = record {
    same_id = refl;
    same_blocks = refl;
    same_packetlen = refl;
    same_timeout = refl;
  }

  all_calls :
      (w : W)
      → to_server w ≡ []
      → to_client w ≡ []
      → kept w
      → (w' : W) × (opening_calls client server
            (suc rounds)
            (in_state FsmState.request c, in_state FsmState.request s, w)
          ≡ ok (starting, started, w'))
        × At client_line [] [] w'
  all_calls w e f k =
      let (w1, e1, v1) = asks-Does.does w (e, f, k) in
      let (w2, e2, v2) = hears-Does.does w1 (v1.1, v1.0, v1.2) in
      let (w3, e3, v3) = answers-Does.does w2 v2 in
      let (w4, e4, v4) = learns-Does.does w3 (v3.1, v3.0, v3.2) in
      let (w5, e5, v5) = begins-Does.does w4 v4 in
      let (w6, e6, v6) = starts-Does.does w5 (v5.1, v5.0, v5.2) in
      (
        w6,
        next_ok _ _ (ap (of_client requesting) e1) (
            next_ok _ _ (ap (of_server asked) e2) (
              next_ok _ _ (ap (of_server asked) e3) (
                next_ok _ _ (ap (of_client answered) e4)
                  (next_ok _ _ (ap (of_client answered) e5) (ap (of_server starting) e6))))),
        (v6.1, v6.0, v6.2),
      )
    where
      requesting : DataDump
      requesting = in_state FsmState.request s

  -- Over a line that carries one message at a time, an idle server that waits and a client that has
  -- been told to start come, with any settings that fit a header, a number other than 0 and data
  -- that fits the server's array, to the transfer of blocks: the six calls of the two loops that
  -- send and read the request, the response and the start of the transfer return, the transfer is
  -- opened with the storage's data and the terms negotiated from what the two offered, and nothing
  -- is left on the line.
  pub handshake_agrees :
      (w : W)
      → to_server w ≡ []
      → to_client w ≡ []
      → kept w
      → (c' : DataDump) × (s' : DataDump) × (w' : W) × (opening_calls client server
            (suc rounds)
            (in_state FsmState.request c, in_state FsmState.request s, w)
          ≡ ok (c', s', w'))
        × Opened c s start bytes c' s'
        × (to_server w' ≡ [])
        × (to_client w' ≡ [])
        × kept w'
  unfolding started starting answered told requested asked
  handshake_agrees w e f k =
      let (w', run, empty) = all_calls w e f k in
      (starting, started, w', run, opened, empty.0, empty.1, empty.2)
    where
      opened : Opened c s start bytes starting started
      opened = record {
        client_blocks = refl;
        server_blocks = refl;
        client_agrees = client-Agreed;
        server_agrees = server-Agreed;
        filled = refl;
        at_index = stores.at_index;
        len = refl;
        counter = refl;
        server_packets = refl;
        client_packets = refl;
        client_memory = refl;
        client_buffer = refl;
        client_len = refl;
      }
