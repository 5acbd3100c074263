-- ===== src/DataDump/Carry.antt =====
-- A block packet through `send` and `receive` of dataDump/DDBase.cpp.
use data_dump_protocol.Base.{
  ℕ, zero, suc, ◌+◌, ◌≤◌, ◌<◌, ◌≡◌, ◌≢◌, ◌==◌, ==_self, refl, sym, ap, ◌∙◌, List, ◌++◌, Option,
  some, true, Bool, ok, arith, length, take, drop, replicate, get_or, le→ltb, le→leb, append_assoc,
  length-replicate, take-append,
}
use data_dump_protocol.Packet.Types.{MsgType, code}
use data_dump_protocol.Packet.Memory.{Memory, store_bytes}
use data_dump_protocol.Packet.Words.{u8_lem}
use data_dump_protocol.Packet.Block.{BlockTxRxPacket, get_packet_size}
use data_dump_protocol.Packet.WireBlock.{IsBlock, block_header_bytes, serialize_writes, block_bytes}
use data_dump_protocol.DataDump.State.{DataDump, Host}
use data_dump_protocol.DataDump.Monad.{M, ◌>>=◌, lift, pure}
use data_dump_protocol.DataDump.Accept.{accept_block}
use data_dump_protocol.DataDump.Checks.{accept_block_lem}
use data_dump_protocol.DataDump.Ops.{send_block, receive_block}

-- The bytes of a block packet in a buffer of zeros.
abbrev pub wire : BlockTxRxPacket → List ℕ → List ℕ
wire b payload = block_header_bytes 0 b.header ++ payload

pub first_zero : (n : ℕ) → ◌≡◌ {A = ℕ} (get_or (replicate n 0) 0 0) 0
first_zero zero = refl
first_zero (suc n) = refl

zero_add : (n : ℕ) → 0 + n ≡ n
zero_add n = omega arith

pub wire-length :
    (b : BlockTxRxPacket) (payload : List ℕ)
    → IsBlock b payload
    → length (wire b payload) ≡ get_packet_size b
unfolding get_packet_size
wire-length b payload v = omega (arith, v.sized)

-- A well-formed packet that fits the packets of the object is handed to the callback whole, header
-- and data and nothing more; the answer is the callback's.
pub send_block_lem :
    {W : Type 0} (host : Host W) (f : List ℕ → W → Bool × W) (b : BlockTxRxPacket)
    (payload : List ℕ) (len : ℕ) (d : DataDump) (w : W)
    → host.send_cb ≡ some f
    → IsBlock b payload
    → len ≤ d.max_packet_size
    → get_packet_size b ≤ d.max_packet_size
    → d.max_packet_size < 256
    → send_block host b len d w ≡ ok ((f (wire b payload) w).0, d, (f (wire b payload) w).1)
unfolding send_block
send_block_lem host f b payload len d w callback v fits whole small = rw (
  le→ltb d.max_packet_size len fits,
  serialize_writes b payload v (replicate d.max_packet_size 0) d.max_packet_size whole
      (omega (arith, whole, length-replicate {A = ℕ} d.max_packet_size 0)),
  u8_lem (get_packet_size b) (omega arith),
  le→leb (get_packet_size b) d.max_packet_size whole,
  callback,
  cut,
)
  where
    cut :
        take (get_packet_size b) (block_bytes b payload (replicate d.max_packet_size 0))
        ≡ wire b payload
    cut = rw (first_zero d.max_packet_size) (
        ap (take (get_packet_size b)) (sym (append_assoc (block_header_bytes 0 b.header) payload _))
        ∙ take-append (get_packet_size b) (wire b payload) _ (wire-length b payload v))

-- What `receive` does once the bytes are there.
abbrev pub counted : {W : Type 0} → DataDump → List ℕ → M W (ℕ × Memory)
counted d bytes = lift (store_bytes (replicate d.max_packet_size 0) 0 bytes) >>= λ buffer.
    pure (length bytes, buffer)

abbrev pub taken :
    {W : Type 0} → BlockTxRxPacket → MsgType → DataDump → List ℕ → M W (ℕ × BlockTxRxPacket)
taken q wanted d bytes = counted d bytes >>= λ r. lift (accept_block q wanted r.0 r.1)

pub taken_lem :
    {W : Type 0} (host : Host W) (g : ℕ → W → List ℕ × W) (q : BlockTxRxPacket) (wanted : MsgType)
    (d : DataDump) (w : W)
    → host.recv_cb ≡ some g
    → receive_block host q wanted d w
      ≡ taken q wanted d (g d.max_packet_size w).0 d (g d.max_packet_size w).1
unfolding receive_block data_dump_protocol.DataDump.Ops.receive_bytes
taken_lem host g q wanted d w callback = rw callback refl

-- If the callback gives the bytes of a well-formed block packet of the type waited for, which is any
-- but BLOCK_ACKNOT, with the check sum field 0, then `receive` gives the packet and the number of
-- its bytes, if it fits the packets of the object.
pub receive_block_lem :
    {W : Type 0} (host : Host W) (g : ℕ → W → List ℕ × W) (q b : BlockTxRxPacket) (payload : List ℕ)
    (wanted : MsgType) (d : DataDump) (w : W)
    → host.recv_cb ≡ some g
    → (g d.max_packet_size w).0 ≡ wire b payload
    → IsBlock b payload
    → b.header.msg_type ≡ wanted
    → wanted ≢ MsgType.block_acknot
    → b.header.crc ≡ 0
    → get_packet_size b ≤ d.max_packet_size
    → receive_block host q wanted d w ≡ ok ((get_packet_size b, b), d, (g d.max_packet_size w).1)
receive_block_lem host g q b payload wanted d w callback came v kind known nocrc fits =
    taken_lem host g q wanted d w callback
    ∙ ap (λ (bytes : List ℕ). taken q wanted d bytes d (g d.max_packet_size w).1) came
    ∙ rw
        (
          wire-length b payload v,
          zero_add (get_packet_size b),
          le→leb (get_packet_size b) (length {A = ℕ} (replicate d.max_packet_size 0))
              (omega (arith, fits, length-replicate {A = ℕ} d.max_packet_size 0)),
          append_assoc (block_header_bytes 0 b.header) payload
              (drop (get_packet_size b) (replicate d.max_packet_size 0)),
          accept_block_lem q b.header payload
              (drop (get_packet_size b) (replicate {A = ℕ} d.max_packet_size 0)) wanted 0
              (get_packet_size b) (rw kind known) v.metadata_fits nocrc v.size_fits v.nonempty
              v.sized (unfold get_packet_size in omega arith),
          same_code,
        )
        (ap
          (λ (t : Option (List ℕ)).
            ok ((get_packet_size b, record b { buffer = t }), d, (g d.max_packet_size w).1))
          (sym v.held))
  where
    same_code : (code b.header.msg_type == code wanted) ≡ true
    same_code = rw kind (==_self (code wanted))
