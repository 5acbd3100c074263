-- ===== src/Agreement/Terms.antt =====
-- The terms that dataDump/DDClient.cpp and dataDump/DDServer.cpp agree on, and the headers that
-- carry them.
use data_dump_protocol.Base.{ℕ, ◌<◌, ◌≡◌, arith, List, some, ◌^◌, length}
use data_dump_protocol.Packet.Types.{MsgType}
use data_dump_protocol.Packet.Header.{TranscationHeader}
use data_dump_protocol.Packet.WireTransaction.{IsHeader}
use data_dump_protocol.DataDump.State.{DataDump, FsmState}
use data_dump_protocol.DataDump.Shared.{config_packet, copy_config}
use data_dump_protocol.Client.Storage.{overwritten}
use data_dump_protocol.Server.Terms.{negotiate}

-- The settings of `h` are the terms `t`.
pub record Agreed (h t : TranscationHeader) : Type 0 where
  pub same_id : h.transaction_id ≡ t.transaction_id
  pub same_blocks : h.max_blocks_per_transaction ≡ t.max_blocks_per_transaction
  pub same_packetlen : h.max_packetlen ≡ t.max_packetlen
  pub same_timeout : h.max_ack_timeout ≡ t.max_ack_timeout

-- What the opening of a transfer makes of a client `c` and a server `s`: both ask for BLOCK and
-- hold the negotiated terms; the server's buffer holds `bytes` at `start`, and its first block is
-- the next; the client's array, pointer and room are as they were.
pub record Opened (c s : DataDump) (start : ℕ) (bytes : List ℕ) (c' s' : DataDump) : Type 0 where
  pub client_blocks : c'.next_state ≡ FsmState.block
  pub server_blocks : s'.next_state ≡ FsmState.block
  pub client_agrees : Agreed c'.server_config (negotiate c.client_config s.server_config)
  pub server_agrees : Agreed s'.client_config (negotiate c.client_config s.server_config)
  pub filled : s'.internal_memory ≡ overwritten s.internal_memory start bytes
  pub at_index : s'.internal_buffer ≡ some start
  pub len : s'.internal_buffer_len ≡ length bytes
  pub counter : s'.internal_counter ≡ 1
  pub server_packets : s'.max_packet_size ≡ s.max_packet_size
  pub client_packets : c'.max_packet_size ≡ c.max_packet_size
  pub client_memory : c'.internal_memory ≡ c.internal_memory
  pub client_buffer : c'.internal_buffer ≡ c.internal_buffer
  pub client_len : c'.internal_buffer_len ≡ c.internal_buffer_len

-- Settings that fit the fields of a header.
pub record AreTerms (h : TranscationHeader) : Type 0 where
  pub id_fits : h.transaction_id < 2 ^ 32
  pub blocks_fit : h.max_blocks_per_transaction < 256
  pub packetlen_fits : h.max_packetlen < 256
  pub timeout_fits : h.max_ack_timeout < 256

pub packet-IsHeader :
    (kind : MsgType) (config : TranscationHeader)
    → AreTerms config
    → IsHeader (config_packet kind config).header
packet-IsHeader kind config v = record {
  id_fits = v.id_fits;
  blocks_fit = v.blocks_fit;
  packetlen_fits = v.packetlen_fits;
  timeout_fits = v.timeout_fits;
  crc_fits = omega arith;
  size_fits = omega arith;
}

pub copied-AreTerms : (config h : TranscationHeader) → AreTerms h → AreTerms (copy_config config h)
copied-AreTerms config h v = record {
  id_fits = v.id_fits;
  blocks_fit = v.blocks_fit;
  packetlen_fits = v.packetlen_fits;
  timeout_fits = v.timeout_fits;
}

pub packet-AreTerms :
    (kind : MsgType) (config : TranscationHeader)
    → AreTerms config
    → AreTerms (config_packet kind config).header
packet-AreTerms kind config v = record {
  id_fits = v.id_fits;
  blocks_fit = v.blocks_fit;
  packetlen_fits = v.packetlen_fits;
  timeout_fits = v.timeout_fits;
}

pub negotiate-AreTerms :
    (h t : TranscationHeader) → AreTerms h → AreTerms t → AreTerms (negotiate h t)
unfolding negotiate
negotiate-AreTerms h t v u = record {
  id_fits = v.id_fits;
  blocks_fit = ground arith;
  packetlen_fits = ground arith;
  timeout_fits = ground arith;
}
