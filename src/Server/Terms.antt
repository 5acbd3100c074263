-- ===== src/Server/Terms.antt =====
-- The terms of a transaction, in the state RESPONSE of dataDump/DDServer.cpp.
use data_dump_protocol.Base.{◌≡◌, ◌≤◌, refl, arith, ltb, if◌then◌else◌}
use data_dump_protocol.Packet.Header.{TranscationHeader}

-- The client's number, the smaller count of blocks and packet length, the larger timeout.
unfoldable pub negotiate : TranscationHeader → TranscationHeader → TranscationHeader
negotiate client server = record client {
  max_blocks_per_transaction =
      if ltb client.max_blocks_per_transaction server.max_blocks_per_transaction
      then client.max_blocks_per_transaction
      else server.max_blocks_per_transaction;
  max_packetlen =
      if ltb client.max_packetlen server.max_packetlen
      then client.max_packetlen
      else server.max_packetlen;
  max_ack_timeout =
      if ltb server.max_ack_timeout client.max_ack_timeout
      then client.max_ack_timeout
      else server.max_ack_timeout;
}

-- Neither side is asked for more blocks or longer packets than it offered, or for a shorter timeout;
-- the number is the client's.
pub negotiate_lem :
    (client server : TranscationHeader)
    → let terms = negotiate client server in
      (terms.max_blocks_per_transaction ≤ client.max_blocks_per_transaction)
      × (terms.max_blocks_per_transaction ≤ server.max_blocks_per_transaction)
      × (terms.max_packetlen ≤ client.max_packetlen)
      × (terms.max_packetlen ≤ server.max_packetlen)
      × (client.max_ack_timeout ≤ terms.max_ack_timeout)
      × (server.max_ack_timeout ≤ terms.max_ack_timeout)
      × (terms.transaction_id ≡ client.transaction_id)
unfolding negotiate
negotiate_lem client server =
    (ground arith, ground arith, ground arith, ground arith, ground arith, ground arith, refl)

-- Terms that both sides have agreed on do not change when they are negotiated again.
pub negotiate-negotiate :
    (client server : TranscationHeader)
    → negotiate (negotiate client server) server ≡ negotiate client server
unfolding negotiate
negotiate-negotiate client server = ground arith
