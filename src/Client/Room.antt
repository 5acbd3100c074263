-- ===== src/Client/Room.antt =====
-- What dataDump/DDClient.cpp may write to of the array that the application lends.
use data_dump_protocol.Base.{
  gt→leb, ℕ, zero, suc, ◌+◌, ◌^◌, ◌≤◌, ◌<◌, ◌≡◌, refl, sym, ap, ◌∙◌, List, ◌++◌, some, true, false,
  ok, arith, length, take, drop, leb, length-take, length-append, length-drop, append_assoc,
  take-append-take, drop-append-drop, if◌then◌else◌, ◌||◌, subst,
}
use data_dump_protocol.Packet.Memory.{Memory, Pointer, store_bytes}
use data_dump_protocol.Packet.Block.{copy_out}
use data_dump_protocol.DataDump.State.{DataDump, Host, FsmState, size_sub}
use data_dump_protocol.DataDump.Phase.{
  Leaves, Takes, Keeps, known-Takes, tested-Takes, bind-Takes, pure-Keeps, then-Takes, modify-Takes,
  skip-Keeps,
}
use data_dump_protocol.DataDump.Switching.{set_next-Keeps, again-Keeps, enter-Keeps}
use data_dump_protocol.Client.Moves.{dispatch-Takes}
use data_dump_protocol.Client.Steady.{ClientSteady}
use data_dump_protocol.Client.Loop.{client_dispatch, client_loop, start_new_transfer}
use data_dump_protocol.DataDump.Monad.{◌>>◌, pure, modify}
use data_dump_protocol.DataDump.Ops.{set_next_fsm_state}
use data_dump_protocol.Client.Refines.{client_taskloop}
use data_dump_protocol.Client.Storage.{overwritten}

-- A write that does not fault stays inside the array.
pub store_bytes_ok :
    (mem : Memory) (at_index : ℕ) (bytes : List ℕ) (mem' : Memory)
    → store_bytes mem at_index bytes ≡ ok mem'
    → (at_index + length bytes ≤ length mem) × (mem' ≡ overwritten mem at_index bytes)
store_bytes_ok mem at_index bytes mem' e = ground arith

copied :
    (own : List ℕ) (size : ℕ) (mem : Memory) (at_index : ℕ) (mem' : Memory)
    → copy_out (some own) size mem at_index ≡ ok mem'
    → (bytes : List ℕ) × (length bytes ≡ size) × (store_bytes mem at_index bytes ≡ ok mem')
copied own size mem at_index mem' e =
    (take size own, ground (arith, length-take size own), ground arith)

-- `array` is `mem` outside the indices from `lo` to `hi`, and the pointer, if it is not NULL, stands
-- between them: behind it there is the room that is counted.
pub record InRoom (mem : Memory) (lo hi : ℕ) (array : Memory) (pointer : Pointer) (room : ℕ)
    : Type 0 where
  pub same_length : length array ≡ length mem
  pub below : take lo array ≡ take lo mem
  pub above : drop hi array ≡ drop hi mem
  pub counted : (start : ℕ) → pointer ≡ some start → (lo ≤ start) × (start + room ≡ hi)

-- The client has written to `mem` between `lo` and `hi` only.
abbrev pub Confined : Memory → ℕ → ℕ → DataDump → Type 0
Confined mem lo hi d = InRoom mem lo hi d.internal_memory d.internal_buffer d.internal_buffer_len

room_left :
    (start n len hi : ℕ)
    → n ≤ len
    → start + len ≡ hi
    → hi < 2 ^ 64
    → start + n + size_sub len n ≡ hi
room_left start n len hi fits all small = omega arith

module _ (mem : Memory) (lo hi : ℕ) (small : hi < 2 ^ 64) where
  overwritten-Confined :
      (d : DataDump) (start len : ℕ) (bytes : List ℕ)
      → start + length bytes ≤ length d.internal_memory
      → lo ≤ start
      → start + length bytes + len ≡ hi
      → Confined mem lo hi d
      → Confined mem lo hi (record d {
        internal_memory = overwritten d.internal_memory start bytes;
        internal_buffer = some (start + length bytes);
        internal_buffer_len = len;
      })
  overwritten-Confined d start len bytes inside behind room k = record {
    same_length = omega (
      arith,
      length-append (take start d.internal_memory)
          (bytes ++ drop (start + length bytes) d.internal_memory),
      length-append bytes (drop (start + length bytes) d.internal_memory),
      length-drop (start + length bytes) d.internal_memory,
      k.same_length,
      head_length,
    );
    below =
        take-append-take lo start d.internal_memory
          (bytes ++ drop (start + length bytes) d.internal_memory) behind (omega arith)
        ∙ k.below;
    above =
        ap (drop hi) (
          sym (
            append_assoc (take start d.internal_memory) bytes
              (drop (start + length bytes) d.internal_memory)))
        ∙ (drop-append-drop (start + length bytes) hi (take start d.internal_memory ++ bytes)
              d.internal_memory
              (omega (arith, length-append (take start d.internal_memory) bytes, head_length))
              (omega arith)
            ∙ k.above);
    counted = λ start' e. ground arith;
  }
    where
      head_length : length (take start d.internal_memory) ≡ start
      head_length = omega (arith, length-take start d.internal_memory)

  stored-Confined :
      (d : DataDump) (start size : ℕ) (received mem' : List ℕ)
      → d.internal_buffer ≡ some start
      → leb size d.internal_buffer_len ≡ true
      → copy_out (some received) size d.internal_memory start ≡ ok mem'
      → Confined mem lo hi d
      → Confined mem lo hi (record d {
        internal_memory = mem';
        internal_buffer = some (start + size);
        internal_buffer_len = size_sub d.internal_buffer_len size;
      })
  stored-Confined d start size received mem' at_index room e k =
      let (bytes, sized, stored) = copied received size d.internal_memory start mem' e in
      let (inside, written) = store_bytes_ok d.internal_memory start bytes mem' stored in
      let (behind, all) = k.counted start at_index in
      subst
        (λ n. Confined mem lo hi (record d {
          internal_memory = mem';
          internal_buffer = some (start + n);
          internal_buffer_len = size_sub d.internal_buffer_len n;
        }))
        sized
        (subst
          (λ m. Confined mem lo hi (record d {
            internal_memory = m;
            internal_buffer = some (start + length bytes);
            internal_buffer_len = size_sub d.internal_buffer_len (length bytes);
          }))
          (sym written)
          (overwritten-Confined d start (size_sub d.internal_buffer_len (length bytes)) bytes inside
            behind
            (room_left start (length bytes) d.internal_buffer_len hi (ground arith) all small) k))

  Confined-ClientSteady : ClientSteady (Confined mem lo hi)
  Confined-ClientSteady = record {
    saves = λ d h k. k;
    stores = stored-Confined;
    marks = λ d b k. k;
    clears = λ d k. record {
      same_length = k.same_length;
      below = k.below;
      above = k.above;
      counted = λ start e. absurd (ground arith);
    };
  }

  module _ {W : Type 0} (host : Host W) (rounds : ℕ) where
    dispatch-Confined : (s : FsmState) → Keeps (Confined mem lo hi) (client_dispatch host rounds s)
    dispatch-Confined s =
        dispatch-Takes host FsmState.idle (Confined mem lo hi) (λ s. Confined mem lo hi)
          Confined-ClientSteady (λ d k. k) (λ s t e. set_next-Keeps _ host t (λ d k. k))
          (λ k. again-Keeps _ host k (λ s d k. k)) rounds s

    loops-Confined : (n : ℕ) → Keeps (Confined mem lo hi) (client_taskloop host rounds n)
    unfolding client_taskloop client_loop
    loops-Confined zero = skip-Keeps
    loops-Confined (suc n) =
        then-Takes (bind-Takes (enter-Keeps _ host (λ s d k. k) (λ d k. k)) dispatch-Confined)
          (loops-Confined n)

lent-Confined :
    {W : Type 0} (host : Host W) (d : DataDump) (array : Memory) (size : ℕ)
    → d.is_busy ≡ false
    → 0 < size
    → Takes (λ d'. d' ≡ d) (Confined array 0 size) (start_new_transfer host (some array) size)
unfolding start_new_transfer
lent-Confined host d array size free some_room =
    known-Takes
      {f = λ d'.
        if leb size 0 || d'.is_busy
        then pure false
        else (modify (λ d. record d {
          internal_buffer = some 0;
          internal_memory = array;
          internal_buffer_len = size;
        })
            >> (set_next_fsm_state host FsmState.request >> pure true))}
      λ d' e.
        tested-Takes (leb size 0 || d'.is_busy) (λ busy. absurd (ground (arith, idle d' e)))
          (λ free.
            then-Takes
              (modify-Takes
                (λ d. record d {
                  internal_buffer = some 0;
                  internal_memory = array;
                  internal_buffer_len = size;
                })
                (λ d e. record {
                  same_length = refl;
                  below = refl;
                  above = refl;
                  counted = λ start e. ground arith;
                }))
              (then-Takes (set_next-Keeps _ host FsmState.request (λ d k. k))
                (pure-Keeps {a = true})))
  where
    idle : (d' : DataDump) → d' ≡ d → (leb size 0 || d'.is_busy) ≡ false
    idle d' e = rw (gt→leb size 0 some_room, e) free

-- Once the application has lent an idle client an array with `size` as its size, the client writes to
-- no index from `size` on, and its pointer and the room that it counts stay in step with that size,
-- after any number of calls of the loop that return, whatever the peer, the timer and the mutexes do.
pub start_new_transfer-Confined :
    {W : Type 0} (host : Host W) (rounds n : ℕ) (d : DataDump) (w : W) (array : Memory) (size : ℕ)
    → d.is_busy ≡ false
    → 0 < size
    → size < 2 ^ 64
    → Leaves
        (Confined array 0 size)
        ((start_new_transfer host (some array) size >> client_taskloop host rounds n) d w)
start_new_transfer-Confined host rounds n d w array size free some_room small =
    (bind-Takes (lent-Confined host d array size free some_room)
        (λ _. loops-Confined array 0 size small host rounds n)).takes
      d w refl
