-- ===== src/Server/Settle.antt =====
-- When dataDump/DDServer.cpp holds a transfer for successful, and what its calls of the storage need.
use data_dump_protocol.Base.{
  ℕ, ◌+◌, ◌≤◌, ◌<◌, ◌≡◌, refl, sym, ap, pending, ◌∙◌, List, some, true, false, Bool, Outcome, ok,
  fault, ◌==◌, ◌&&◌, ◌||◌, if◌then◌else◌, length, le→leb, gt→leb,
}
use data_dump_protocol.Packet.Transaction.{TransactionPacket}
use data_dump_protocol.DataDump.State.{DataDump, Host}
use data_dump_protocol.DataDump.Monad.{M, ◌>>=◌, modify, skip}
use data_dump_protocol.DataDump.Shared.{consume}
use data_dump_protocol.Client.Storage.{overwritten}
use data_dump_protocol.Server.States.{settle_ack}

module _ {W : Type 0} (host : Host W) (callback : ℕ → Bool → W → List ℕ × W) (d : DataDump) (w : W)
    (start : ℕ) where
  -- Storage data that the array does not hold from `internal_buffer` on is written past its end.
  pub consume_overrun :
      (max_size : ℕ) (erase : Bool)
      → d.internal_buffer ≡ some start
      → length d.internal_memory < start + length (callback max_size erase w).0
      → consume host callback max_size erase d w ≡ fault
  unfolding consume
  consume_overrun max_size erase at_index long = rw (
    at_index,
    gt→leb (start + length (callback max_size erase w).0) (length d.internal_memory) long,
  )

  pub consume_writes :
      (max_size : ℕ) (erase : Bool)
      → d.internal_buffer ≡ some start
      → start + length (callback max_size erase w).0 ≤ length d.internal_memory
      → consume host callback max_size erase d w
        ≡ ok (
          length (callback max_size erase w).0,
          record d {
            internal_memory = overwritten d.internal_memory start (callback max_size erase w).0;
          },
          (callback max_size erase w).1,
        )
  unfolding consume
  consume_writes max_size erase at_index fits = rw (
    at_index,
    le→leb (start + length (callback max_size erase w).0) (length d.internal_memory) fits,
  )

  or_false : (b : Bool) → (b || false) ≡ b
  or_false true = refl
  or_false false = refl

  or_true : (b : Bool) → (b || true) ≡ true
  or_true true = refl
  or_true false = refl

  abbrev pub Settled : Bool → Outcome (Unit {0} × DataDump × W) → Type 0
  Settled good o =
      (d' : DataDump) × (w' : W) × (o ≡ ok (tt, d', w'))
      × (d'.is_transfer_success ≡ (d.is_transfer_success || good))

  -- What is done with an acknowledgement that has the transaction's number.
  abbrev give_back : M W (Unit {0})
  give_back = consume host callback d.internal_buffer_len true >>= λ n.
      if n == d.internal_buffer_len
      then modify (λ d. record d { is_transfer_success = true })
      else skip

  give_back-Settled :
      d.internal_buffer ≡ some start
      → start + length (callback d.internal_buffer_len true w).0 ≤ length d.internal_memory
      → Settled
          (length (callback d.internal_buffer_len true w).0 == d.internal_buffer_len)
          (give_back d w)
  give_back-Settled at_index fits =
      let (d', w', e, h) = by_count in
      (
        d',
        w',
        ap
              (λ o. elim o [
                | ok r ↦
                    (if r.0 == d.internal_buffer_len
                        then modify (λ d. record d { is_transfer_success = true })
                        else skip)
                      r.1 r.2
                | fault ↦ fault
                | pending ↦ pending
              ])
              (consume_writes d.internal_buffer_len true at_index fits)
            ∙ e,
        h,
      )
    where
      bytes : List ℕ
      bytes = (callback d.internal_buffer_len true w).0

      filled : DataDump
      filled = record d { internal_memory = overwritten d.internal_memory start bytes }

      by_count : Settled (length bytes == d.internal_buffer_len) (
          (if length bytes == d.internal_buffer_len
              then modify (λ d. record d { is_transfer_success = true })
              else skip)
            filled
            (callback d.internal_buffer_len true w).1)
      by_count =
          elim (length bytes == d.internal_buffer_len)
            as (λ b. Settled b (
              (if b then modify (λ d. record d { is_transfer_success = true }) else skip) filled
                (callback d.internal_buffer_len true w).1)) [
                  | true ↦ (
                    record filled { is_transfer_success = true },
                    (callback d.internal_buffer_len true w).1,
                    refl,
                    sym (or_true d.is_transfer_success),
                  )
                  | false ↦ (
                    filled,
                    (callback d.internal_buffer_len true w).1,
                    refl,
                    sym (or_false d.is_transfer_success),
                  )
                ]

  -- With a storage callback whose bytes fit the array where the buffer points, the treatment of an
  -- acknowledgement returns. It marks the transfer successful exactly if the acknowledgement has the
  -- transaction's number and the storage gives back as many bytes as the buffer's length says; a
  -- mark that was set before stays.
  pub settle_ack_lem :
      (ack : TransactionPacket)
      → host.consumer_cb ≡ some callback
      → d.internal_buffer ≡ some start
      → start + length (callback d.internal_buffer_len true w).0 ≤ length d.internal_memory
      → Settled
          (ack.header.transaction_id == d.client_config.transaction_id
            && length (callback d.internal_buffer_len true w).0 == d.internal_buffer_len)
          (settle_ack host ack d w)
  unfolding settle_ack
  settle_ack_lem ack consumer at_index fits =
      let (d', w', e, h) = by_number in (d', w', rw consumer refl ∙ e, h)
    where
      good : Bool
      good = length (callback d.internal_buffer_len true w).0 == d.internal_buffer_len

      by_number : Settled (ack.header.transaction_id == d.client_config.transaction_id && good) (
          (if ack.header.transaction_id == d.client_config.transaction_id then give_back else skip)
            d w)
      by_number =
          elim (ack.header.transaction_id == d.client_config.transaction_id)
            as (λ b. Settled (b && good) ((if b then give_back else skip) d w)) [
              | true ↦ give_back-Settled at_index fits
              | false ↦ (d, w, refl, sym (or_false d.is_transfer_success))
            ]
