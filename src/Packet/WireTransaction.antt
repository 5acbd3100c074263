-- ===== src/Packet/WireTransaction.antt =====
-- The wire format of `TransactionPacket` (dataDump/DDPacket.cpp): `serialize` and `deserialize`
-- against a plain list of bytes.
use data_dump_protocol.Base.{
  ℕ, ◌+◌, ◌^◌, ◌≤◌, ◌<◌, ◌≡◌, ◌≢◌, sym, ◌∙◌, subst, List, [], ◌∷◌, ◌++◌, some, get_or, length, drop,
  take, length-drop, le→ltb, lt→ltb, le→leb, false, ok, arith,
}
use data_dump_protocol.Packet.Types.{MsgType}
use data_dump_protocol.Packet.Memory.{Memory, get_word, put_word}
use data_dump_protocol.Packet.Words.{
  byte, byte_stored, byte_read, two_bytes_read, four_bytes_read, type_read, type_byte, type_stored,
  type_byte-code, eleven_cells, u8_lem,
}
use data_dump_protocol.Packet.Header.{TranscationHeader}
use data_dump_protocol.Packet.Transaction.{
  TransactionPacket, header_size, serialize, serialize_buffer, deserialize, get_packet_size,
}

-- The eleven header bytes, over an array whose first byte was `old`.
abbrev pub header_bytes : ℕ → TranscationHeader → List ℕ
header_bytes old h =
    type_byte old h.msg_type
    ∷ byte 0 h.transaction_id
    ∷ byte 1 h.transaction_id
    ∷ byte 2 h.transaction_id
    ∷ byte 3 h.transaction_id
    ∷ byte 0 h.max_blocks_per_transaction
    ∷ byte 0 h.max_packetlen
    ∷ byte 0 h.max_ack_timeout
    ∷ byte 0 h.crc
    ∷ byte 1 h.crc
    ∷ byte 0 h.data_buffer_size
    ∷ []

-- A header whose fields fit their types.
pub record IsHeader (h : TranscationHeader) : Type 0 where
  pub id_fits : h.transaction_id < 2 ^ 32
  pub blocks_fit : h.max_blocks_per_transaction < 256
  pub packetlen_fits : h.max_packetlen < 256
  pub timeout_fits : h.max_ack_timeout < 256
  pub crc_fits : h.crc < 2 ^ 16
  pub size_fits : h.data_buffer_size < 256

header_written_cells :
    (p : TransactionPacket) (a b c d e f g h i j k len : ℕ) (rest : List ℕ)
    → get_packet_size p ≤ len
    → serialize p (a ∷ b ∷ c ∷ d ∷ e ∷ f ∷ g ∷ h ∷ i ∷ j ∷ k ∷ rest) (some 0) len
      ≡ serialize_buffer p (header_bytes a p.header ++ rest) header_size (get_packet_size p)
unfolding serialize put_word
header_written_cells p a b c d e f g h i j k len rest room = rw (
  le→ltb len (get_packet_size p) room,
  type_stored p.header.msg_type a (b ∷ c ∷ d ∷ e ∷ f ∷ g ∷ h ∷ i ∷ j ∷ k ∷ rest),
  byte_stored 0 p.header.transaction_id,
  byte_stored 1 p.header.transaction_id,
  byte_stored 2 p.header.transaction_id,
  byte_stored 3 p.header.transaction_id,
  byte_stored 0 p.header.max_blocks_per_transaction,
  byte_stored 0 p.header.max_packetlen,
  byte_stored 0 p.header.max_ack_timeout,
  byte_stored 0 p.header.crc,
  byte_stored 1 p.header.crc,
  byte_stored 0 p.header.data_buffer_size,
)

-- What the array holds once the header is written.
abbrev pub with_header : TranscationHeader → Memory → Memory
with_header h mem = header_bytes (get_or mem 0 0) h ++ drop header_size mem

header_written :
    (p : TransactionPacket) (mem : Memory) (len : ℕ)
    → get_packet_size p ≤ len
    → header_size ≤ length mem
    → serialize p mem (some 0) len
      ≡ serialize_buffer p (with_header p.header mem) header_size (get_packet_size p)
header_written p mem len room fits =
    let (a, b, c, d, e, f, g, h, i, j, k, cells) = eleven_cells mem fits in
    subst
      (λ m.
        serialize p m (some 0) len
        ≡ serialize_buffer p (with_header p.header m) header_size (get_packet_size p))
      (sym cells) (header_written_cells p a b c d e f g h i j k len (drop header_size mem) room)

-- A packet with the data size 0 has its header written in full, the rest of the array is left alone,
-- and `serialize` still returns 0; `len` and the array hold the header.
pub serialize_header :
    (p : TransactionPacket) (mem : Memory) (len : ℕ)
    → p.header.data_buffer_size ≡ 0
    → header_size ≤ len
    → header_size ≤ length mem
    → serialize p mem (some 0) len ≡ ok (0, p, with_header p.header mem)
serialize_header p mem len nodata room fits =
    header_written p mem len (unfold get_packet_size in omega arith) fits
    ∙ unfold serialize_buffer in rw (le→ltb 0 p.header.data_buffer_size (omega arith))

-- If the header counts some data, the bytes behind the header in the array replace the packet's own
-- buffer, and nothing of that buffer reaches the array; the fields fit their types, and `len` and
-- the array hold the packet.
pub serialize_loses_payload :
    (p : TransactionPacket) (mem : Memory) (len : ℕ)
    → IsHeader p.header
    → 0 < p.header.data_buffer_size
    → get_packet_size p ≤ len
    → get_packet_size p ≤ length mem
    → serialize p mem (some 0) len
      ≡ ok (
        get_packet_size p,
        record p { buffer = some (take p.header.data_buffer_size (drop header_size mem)) },
        with_header p.header mem,
      )
unfolding get_packet_size serialize_buffer
serialize_loses_payload p mem len v pos room fits =
    header_written p mem len room (omega arith)
    ∙ rw (
      lt→ltb 0 p.header.data_buffer_size pos,
      u8_lem p.header.data_buffer_size v.size_fits,
      lt→ltb 0 p.header.data_buffer_size pos,
      le→leb (header_size + p.header.data_buffer_size) (length (with_header p.header mem))
          (omega (arith, length-drop header_size mem)),
    )

-- A header whose fields fit their types, of any type but BLOCK_ACKNOT and with the data size 0, is
-- read back as it was written; `deserialize` returns false and keeps the buffer of the packet it
-- reads into.
pub deserialize-header :
    (q : TransactionPacket) (h : TranscationHeader) (mem : Memory) (n : ℕ)
    → IsHeader h
    → h.msg_type ≢ MsgType.block_acknot
    → h.data_buffer_size ≡ 0
    → deserialize q (with_header h mem) (some 0) n ≡ ok (false, record q { header = h })
unfolding deserialize get_word
deserialize-header q h mem n v known nodata = rw (
  byte_read h.data_buffer_size v.size_fits,
  u8_lem h.data_buffer_size v.size_fits,
  le→ltb 0 h.data_buffer_size (omega arith),
  four_bytes_read h.transaction_id v.id_fits,
  byte_read h.max_blocks_per_transaction v.blocks_fit,
  byte_read h.max_packetlen v.packetlen_fits,
  byte_read h.max_ack_timeout v.timeout_fits,
  two_bytes_read h.crc v.crc_fits,
  type_byte-code h.msg_type (get_or mem 0 0) known,
  type_read h.msg_type,
)
