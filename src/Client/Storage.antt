-- ===== src/Client/Storage.antt =====
-- Where dataDump/DDClient.cpp puts the blocks that it receives.
use data_dump_protocol.Base.{
  ℕ, zero, suc, ◌+◌, ◌-◌, ◌^◌, ◌≤◌, ◌<◌, ◌≡◌, refl, sym, List, [], ◌++◌, some, true, false, ok,
  arith, length, take, drop, lt→ltb, le→leb, gt→leb, append-nil, length-append, length-take,
  length-drop,
}
use data_dump_protocol.Packet.Memory.{Memory, load_bytes}
use data_dump_protocol.Packet.Words.{load_bytes_seam}
use data_dump_protocol.Packet.Block.{BlockTxRxPacket}
use data_dump_protocol.DataDump.State.{DataDump, Host, size_sub}
use data_dump_protocol.Client.States.{store_block}

-- `room` bytes of the application's array are free from index `start` on.
pub record HasRoom (d : DataDump) (start room : ℕ) : Type 0 where
  pub at_index : d.internal_buffer ≡ some start
  pub len : d.internal_buffer_len ≡ room
  pub inside : start + room ≤ length d.internal_memory
  pub small : room < 2 ^ 64

-- The array with `bytes` written over it from `start` on.
abbrev pub overwritten : Memory → ℕ → List ℕ → Memory
overwritten mem start bytes = take start mem ++ (bytes ++ drop (start + length bytes) mem)

abbrev pub with_stored : DataDump → ℕ → List ℕ → DataDump
with_stored d start bytes = record d {
  internal_memory = overwritten d.internal_memory start bytes;
  internal_buffer = some (start + length bytes);
  internal_buffer_len = d.internal_buffer_len - length bytes;
}

-- A block that was received with data of the size that its header counts, and that fits the room
-- left, is written behind what is stored, to the byte; pointer and room move by its size, and
-- nothing else of the object changes.
pub store_block_lem :
    {W : Type 0} (host : Host W) (d : DataDump) (w : W) (start room len : ℕ) (b : BlockTxRxPacket)
    (received : List ℕ)
    → HasRoom d start room
    → 0 < len
    → b.buffer ≡ some received
    → length received ≡ b.header.data_buffer_size
    → length received ≤ room
    → store_block host len b d w ≡ ok (true, with_stored d start received, w)
unfolding store_block
store_block_lem host d w start room len b received r some_bytes held sized fits = rw (
  lt→ltb 0 len some_bytes,
  r.at_index,
  held,
  sym sized,
  le→leb (length received) d.internal_buffer_len (omega (arith, r.len)),
  whole,
  le→leb (start + length received) (length d.internal_memory) (omega (arith, r.inside)),
  exact,
)
  where
    whole : load_bytes received 0 (length received) ≡ ok received
    whole = rw append-nil at (load_bytes_seam 0 (length received) [] received [] refl refl)

    exact :
        size_sub d.internal_buffer_len (length received) ≡ d.internal_buffer_len - length received
    exact = omega (arith, r.len, r.small)

-- A block that is longer than the room left is refused and changes nothing.
pub store_block_refuses :
    {W : Type 0} (host : Host W) (d : DataDump) (w : W) (start room len : ℕ) (b : BlockTxRxPacket)
    (received : List ℕ)
    → HasRoom d start room
    → b.buffer ≡ some received
    → room < b.header.data_buffer_size
    → store_block host len b d w ≡ ok (false, d, w)
unfolding store_block
store_block_refuses host d w start room zero b received r held long = refl
store_block_refuses host d w start room (suc len) b received r held long = rw (
  lt→ltb 0 (suc len) (omega arith),
  r.at_index,
  held,
  gt→leb b.header.data_buffer_size d.internal_buffer_len (omega (arith, r.len)),
)

pub with_stored-HasRoom :
    (d : DataDump) (start room : ℕ) (bytes : List ℕ)
    → HasRoom d start room
    → length bytes ≤ room
    → HasRoom (with_stored d start bytes) (start + length bytes) (room - length bytes)
with_stored-HasRoom d start room bytes r fits = record {
  at_index = refl;
  len = omega (arith, r.len);
  inside = omega (
    arith,
    r.inside,
    length-append (take start d.internal_memory)
        (bytes ++ drop (start + length bytes) d.internal_memory),
    length-append bytes (drop (start + length bytes) d.internal_memory),
    length-take start d.internal_memory,
    length-drop (start + length bytes) d.internal_memory,
  );
  small = omega (arith, r.small);
}
