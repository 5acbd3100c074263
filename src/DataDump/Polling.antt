-- ===== src/DataDump/Polling.antt =====
-- `send` of a header (dataDump/DDBase.cpp).
use data_dump_protocol.Base.{
  ℕ, ◌≤◌, ◌≡◌, refl, List, some, Bool, ok, arith, take, replicate, le→ltb, length-replicate,
}
use data_dump_protocol.Packet.Transaction.{TransactionPacket, header_size}
use data_dump_protocol.Packet.WireTransaction.{header_bytes, with_header, serialize_header}
use data_dump_protocol.DataDump.Carry.{first_zero}
use data_dump_protocol.DataDump.State.{DataDump, Host}
use data_dump_protocol.DataDump.Ops.{send_transaction}

-- A packet with the data size 0 is handed to the callback as its eleven header bytes, if the
-- object's packets hold them; the packet stays as it was and the answer is the callback's.
pub send_transaction_lem :
    {W : Type 0} (host : Host W) (f : List ℕ → W → Bool × W) (p : TransactionPacket) (d : DataDump)
    (w : W)
    → host.send_cb ≡ some f
    → p.header.data_buffer_size ≡ 0
    → header_size ≤ d.max_packet_size
    → send_transaction host p header_size d w
      ≡ ok (((f (header_bytes 0 p.header) w).0, p), d, (f (header_bytes 0 p.header) w).1)
unfolding send_transaction
send_transaction_lem host f p d w callback nodata fits = rw (
  le→ltb d.max_packet_size header_size fits,
  serialize_header p (replicate d.max_packet_size 0) header_size nodata (omega arith)
      (omega (arith, length-replicate {A = ℕ} d.max_packet_size 0)),
  callback,
  cut,
)
  where
    cut :
        take header_size (with_header p.header (replicate d.max_packet_size 0))
        ≡ header_bytes 0 p.header
    cut = rw (first_zero d.max_packet_size) refl
