-- ===== src/Handler/View.antt =====
-- include/market_data/market_data_handler.h over include/spmc/consumer.h: the handler's queue is
-- what its consumer has still to read of the ring buffer.
use itch_order_book.Common.{
  ℕ, zero, suc, ◌+◌, ◌-◌, ◌≤◌, ◌<◌, ◌≡◌, refl, ap, sym, arith, Bool, true, false, Option, none,
  some, List, [], ◌∷◌, drop, length, length-drop, leb, if◌then◌else◌, update_self, inl, inr,
}
use itch_order_book.Capacity.{IsCapacity}
use itch_order_book.Spmc.{
  SpmcRingBuffer, ConsumeFailure, no_failure, buffer_insufficient, buffer_closed, try_pop_many,
  try_skip_many, Popped,
}
use itch_order_book.Spmc.System.{System}
use itch_order_book.Spmc.Invariant.{IsRunning}
use itch_order_book.Spmc.Pops.{Takes, Declines, try_pop_many_lem, try_skip_many_lem}
use itch_order_book.Handler.Polling.{ByteQueue, without, try_read_from_queue, skip_many}

-- the bytes of the buffer that a consumer has still to read, of those that were sent
abbrev pub unread : List ℕ → ℕ → SpmcRingBuffer ℕ → ByteQueue
unread sent j b = record { bytes = drop (b.read_idx j) sent; is_closed = b.is_closed }

-- a value, where the status is that there is one
abbrev pub where_taken {ℓ} : {A : Type ℓ} → ConsumeFailure → A → Option A
where_taken no_failure a = some a
where_taken buffer_insufficient a = none
where_taken buffer_closed a = none

drop-drop {ℓ} : {A : Type ℓ} (m n : ℕ) (xs : List A) → drop n (drop m xs) ≡ drop (m + n) xs
drop-drop zero n xs = ap (λ k. drop k xs) (omega arith)
drop-drop (suc m) zero [] = let e : suc m + 0 ≡ suc m = omega arith in rw e refl
drop-drop (suc m) (suc n) [] = let e : suc m + suc n ≡ suc (m + suc n) = omega arith in rw e refl
drop-drop (suc m) n (x ∷ xs) =
    let e : suc m + n ≡ suc (m + n) = omega arith in rw e (drop-drop m n xs)

unavailable {ℓ} :
    {A : Type ℓ} (closed : Bool) (a : A)
    → where_taken (if closed then buffer_closed else buffer_insufficient) a ≡ none
unavailable true a = refl
unavailable false a = refl

module _ (cap : ℕ) (capacity : IsCapacity cap) (s : System ℕ) (h : IsRunning cap s) (j : ℕ)
    (registered : j < s.shared.consumers) where
  abbrev held : ByteQueue
  held = unread s.sent j s.shared

  held-length : length held.bytes ≡ s.shared.write_idx - s.shared.read_idx j
  held-length = omega (arith, length-drop (s.shared.read_idx j) s.sent, h.publishing.counted)

  -- the two outcomes of a call, seen from the queue
  taken-unread :
      (n : ℕ) (items : List ℕ) (p : Popped ℕ)
      → Takes s j n items p
      → (leb n (length held.bytes) ≡ true) × (without n held ≡ unread s.sent j p.buffer)
  taken-unread n items p t =
      let enough : n ≤ length held.bytes = omega (arith, held-length, t.enough) in
      (
        ground arith,
        rw t.moved (
            rw
              (
                update_self s.shared.read_idx j (s.shared.read_idx j + n),
                drop-drop (s.shared.read_idx j) n s.sent,
              )
              refl),
      )

  declined-unread :
      (n : ℕ) (p : Popped ℕ)
      → Declines s j n p
      → (leb n (length held.bytes) ≡ false)
        × (where_taken {A = List ℕ × ByteQueue} p.failure (p.items, held) ≡ none)
  declined-unread n p d =
      let lacking : length held.bytes < n = omega (
        arith,
        held-length,
        d.lacking,
        (h.consuming j registered).seen,
        (h.consuming j registered).published,
      ) in
      (ground arith, rw d.answers (unavailable s.shared.is_closed (p.items, held)))

  -- In a state that satisfies the invariant, `try_read_from_queue` on the bytes that a consumer has
  -- still to read gives what `try_pop_many` gives on the ring buffer, on each of its branches, and
  -- leaves the bytes that the consumer then has still to read.
  pub try_read_from_queue-try_pop_many :
      (n : ℕ)
      → let p = try_pop_many cap j n (s.consumer j).cached_write_idx s.shared in
        try_read_from_queue n (unread s.sent j s.shared)
        ≡ where_taken p.failure (p.items, unread s.sent j p.buffer)
  unfolding try_read_from_queue
  try_read_from_queue-try_pop_many n =
      let p = try_pop_many cap j n (s.consumer j).cached_write_idx s.shared in
      elim (try_pop_many_lem cap capacity s h j registered n) [
        | inl t ↦ let u = taken-unread n _ p t in rw (t.answers, t.returned, sym u.1, u.0) refl
        | inr d ↦
            let u = declined-unread n p d in
            rw
              (
                d.answers,
                unavailable {A = List ℕ × ByteQueue} s.shared.is_closed
                    (p.items, unread s.sent j p.buffer),
                u.0,
              )
              refl
      ]

  -- In a state that satisfies the invariant, `try_skip_many` on the ring buffer leaves a consumer
  -- the bytes that skipping leaves of those it had still to read, whether it succeeds or fails.
  pub skip_many-try_skip_many :
      (n : ℕ)
      → let p = try_skip_many cap j n (s.consumer j).cached_write_idx s.shared in
        skip_many n (unread s.sent j s.shared) ≡ unread s.sent j p.buffer
  unfolding skip_many
  skip_many-try_skip_many n =
      let p = try_skip_many cap j n (s.consumer j).cached_write_idx s.shared in
      elim (try_skip_many_lem cap capacity s h j registered n) [
        | inl t ↦ let u = taken-unread n _ p t in rw (sym u.1, u.0) refl
        | inr d ↦ let u = declined-unread n p d in rw (d.untouched, u.0) refl
      ]
