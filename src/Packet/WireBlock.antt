-- ===== src/Packet/WireBlock.antt =====
-- The wire format of `blockTxRxPacket` (dataDump/DDPacket.cpp): `serialize` and `deserialize` against
-- a plain list of bytes.
use data_dump_protocol.Base.{
  ℕ, ◌^◌, ◌≤◌, ◌<◌, ◌≡◌, ◌≢◌, refl, List, [], ◌∷◌, ◌++◌, some, arith, subst, drop-drop, get_or,
  length-drop, sym, ap, ◌∙◌, Option, ◌+◌, length, drop, le→ltb, lt→ltb, true, ok, append-nil,
}
use data_dump_protocol.Packet.Types.{MsgType}
use data_dump_protocol.Packet.Memory.{Memory, load_bytes, get_word, put_word}
use data_dump_protocol.Packet.Words.{
  byte, byte_stored, byte_read, two_bytes_read, type_read, type_byte, type_stored, type_byte-code,
  five_cells, u8_lem, load_bytes_seam, store_bytes_seam,
}
use data_dump_protocol.Packet.BlockHeader.{BlockHeader}
use data_dump_protocol.Packet.Block.{
  BlockTxRxPacket, header_size, serialize, serialize_buffer, deserialize, get_packet_size,
}

-- The five header bytes, over an array whose first byte was `old`.
abbrev pub block_header_bytes : ℕ → BlockHeader → List ℕ
block_header_bytes old h =
    type_byte old h.msg_type
    ∷ byte 0 h.block_metadata
    ∷ byte 0 h.crc
    ∷ byte 1 h.crc
    ∷ byte 0 h.data_buffer_size
    ∷ []

-- A packet whose fields fit their types and whose buffer is what its header says.
pub record IsBlock (p : BlockTxRxPacket) (payload : List ℕ) : Type 0 where
  pub metadata_fits : p.header.block_metadata < 256
  pub crc_fits : p.header.crc < 2 ^ 16
  pub size_fits : p.header.data_buffer_size < 256
  pub nonempty : 0 < p.header.data_buffer_size
  pub held : p.buffer ≡ some payload
  pub sized : length payload ≡ p.header.data_buffer_size

header_written :
    (p : BlockTxRxPacket) (a b c d e len : ℕ) (rest : List ℕ)
    → get_packet_size p ≤ len
    → serialize p (a ∷ b ∷ c ∷ d ∷ e ∷ rest) (some 0) len
      ≡ serialize_buffer p (block_header_bytes a p.header ++ rest) header_size (get_packet_size p)
unfolding serialize put_word
header_written p a b c d e len rest room = rw (
  le→ltb len (get_packet_size p) room,
  type_stored p.header.msg_type a (b ∷ c ∷ d ∷ e ∷ rest),
  byte_stored 0 p.header.block_metadata,
  byte_stored 0 p.header.crc,
  byte_stored 1 p.header.crc,
  byte_stored 0 p.header.data_buffer_size,
)

buffer_written :
    (p : BlockTxRxPacket) (payload front rest : List ℕ) (size : ℕ)
    → IsBlock p payload
    → length front ≡ header_size
    → p.header.data_buffer_size ≤ length rest
    → serialize_buffer p (front ++ rest) header_size size
      ≡ ok (size, tt, front ++ (payload ++ drop p.header.data_buffer_size rest))
unfolding serialize_buffer
buffer_written p payload front rest size b hf room = rw (
  lt→ltb 0 p.header.data_buffer_size b.nonempty,
  b.held,
  whole,
  store_bytes_seam header_size p.header.data_buffer_size front payload rest hf b.sized room,
)
  where
    whole : load_bytes payload 0 p.header.data_buffer_size ≡ ok payload
    whole =
        rw append-nil at (load_bytes_seam 0 p.header.data_buffer_size [] payload [] refl b.sized)

pub read_back :
    (q : BlockTxRxPacket) (h : BlockHeader) (payload rest : List ℕ) (old len : ℕ)
    → h.msg_type ≢ MsgType.block_acknot
    → h.block_metadata < 256
    → h.crc < 2 ^ 16
    → h.data_buffer_size < 256
    → 0 < h.data_buffer_size
    → length payload ≡ h.data_buffer_size
    → deserialize q (block_header_bytes old h ++ (payload ++ rest)) (some 0) len
      ≡ ok (true, record { header = h; buffer = some payload })
unfolding deserialize get_word
read_back q h payload rest old len known hm hc hs pos sized = rw (
  byte_read h.data_buffer_size hs,
  u8_lem h.data_buffer_size hs,
  lt→ltb 0 h.data_buffer_size pos,
  load_bytes_seam header_size h.data_buffer_size (block_header_bytes old h) payload rest refl sized,
  byte_read h.block_metadata hm,
  two_bytes_read h.crc hc,
  type_byte-code h.msg_type old known,
  type_read h.msg_type,
)

-- The array after `serialize`: header, payload, and what stood behind them.
abbrev pub block_bytes : BlockTxRxPacket → List ℕ → Memory → Memory
block_bytes p payload mem =
    block_header_bytes (get_or mem 0 0) p.header
    ++ (payload ++ drop (header_size + p.header.data_buffer_size) mem)

module _ (p : BlockTxRxPacket) (payload : List ℕ) (v : IsBlock p payload) where
  -- A well-formed block packet serializes to its header bytes followed by its payload, reports the
  -- packet's size, and leaves the rest of the array alone; `len` and the array hold the packet.
  pub serialize_writes :
      (mem : Memory) (len : ℕ)
      → get_packet_size p ≤ len
      → get_packet_size p ≤ length mem
      → serialize p mem (some 0) len ≡ ok (get_packet_size p, tt, block_bytes p payload mem)
  unfolding get_packet_size
  serialize_writes mem len room fits =
      let (a, b, c, d, e, cells) = five_cells mem (omega arith) in
      subst (λ m. serialize p m (some 0) len ≡ ok (get_packet_size p, tt, block_bytes p payload m))
        (sym cells)
        (header_written p a b c d e len (drop 5 mem) room
          ∙ buffer_written p payload (block_header_bytes a p.header) (drop 5 mem)
              (get_packet_size p) v refl (omega (arith, length-drop 5 mem))
          ∙ ap (λ t. ok (get_packet_size p, tt, block_header_bytes a p.header ++ (payload ++ t)))
              (drop-drop 5 p.header.data_buffer_size (header_size + p.header.data_buffer_size)
                (a ∷ b ∷ c ∷ d ∷ e ∷ drop 5 mem) refl))

  -- A well-formed packet of any type but BLOCK_ACKNOT is serialized if `len` and the array hold it,
  -- and reading back what was written gives the packet again, whatever packet is read into.
  pub deserialize-serialize :
      (q : BlockTxRxPacket) (mem : Memory) (len n : ℕ)
      → p.header.msg_type ≢ MsgType.block_acknot
      → get_packet_size p ≤ len
      → get_packet_size p ≤ length mem
      → (mem' : Memory) × (serialize p mem (some 0) len ≡ ok (get_packet_size p, tt, mem'))
        × (deserialize q mem' (some 0) n ≡ ok (true, p))
  deserialize-serialize q mem len n known room fits = (
    block_bytes p payload mem,
    serialize_writes mem len room fits,
    read_back q p.header payload _ (get_or mem 0 0) n known v.metadata_fits v.crc_fits v.size_fits
          v.nonempty v.sized
        ∙ ap (λ (b : Option (List ℕ)). ok (true, record p { buffer = b })) (sym v.held),
  )
