-- ===== src/Spmc/Pops.antt =====
-- include/spmc/consumer.h: what a consumer's calls return, by the items that were sent.
use itch_order_book.Common.{
  ℕ, zero, suc, ◌+◌, ◌≤◌, ◌<◌, ◌≡◌, ◌⊎◌, inl, inr, refl, ap, ◌∙◌, arith, Bool, List, [], ◌∷◌, take,
  drop, drop-cons, leb, update, add64, add64_exact, sub64_exact, word_mod, if◌then◌else◌, dec_lt,
}
use itch_order_book.Capacity.{IsCapacity}
use itch_order_book.Spmc.{
  ConsumeFailure, no_failure, buffer_insufficient, buffer_closed, slot_of, check_pop_status,
  read_items, try_pop_many, try_skip_many, try_pop, Popped, finish,
}
use itch_order_book.Spmc.System.{System}
use itch_order_book.Spmc.Invariant.{IsRunning}
use itch_order_book.Spmc.Frames.{sent_at}

-- The status is a matter of the write index and the closing flag alone; the cached index is only a
-- way to know it without a load, and becomes the write index where it is not enough.
pub check_pop_status-cases :
    (r count c w : ℕ) (closed : Bool)
    → r ≤ c
    → c ≤ w
    → w < word_mod
    → ((r + count ≤ w)
        × (check_pop_status r count c w closed ≡ (no_failure, if leb (r + count) c then c else w)))
      ⊎ ((w < r + count)
          × (check_pop_status r count c w closed
              ≡ (if closed then buffer_closed else buffer_insufficient, w)))
unfolding check_pop_status
check_pop_status-cases r count c w closed rc cw fits =
    let e = sub64_exact c r (omega arith) rc in
    let f = sub64_exact w r fits (omega arith) in
    elim (dec_lt w (r + count)) [
      | yes short ↦ inr (short, ground (arith, e, f))
      | no enough ↦ inl (omega arith, ground (arith, e, f))
    ]

-- What a call that asks for `count` items returns and does. The cached write index is loaded anew
-- where it is behind what is asked for.
pub record Takes {T : Type 0} (s : System T) (j count : ℕ) (items : List T) (p : Popped T)
    : Type 0 where
  pub enough : s.shared.read_idx j + count ≤ s.shared.write_idx
  pub answers : p.failure ≡ no_failure
  pub returned : p.items ≡ items
  pub cached : p.cached ≡ (
      if leb (s.shared.read_idx j + count) (s.consumer j).cached_write_idx
      then (s.consumer j).cached_write_idx
      else s.shared.write_idx)
  pub moved :
      p.buffer
      ≡ record s.shared { read_idx = update s.shared.read_idx j (s.shared.read_idx j + count) }

pub record Declines {T : Type 0} (s : System T) (j count : ℕ) (p : Popped T) : Type 0 where
  pub cached : p.cached ≡ s.shared.write_idx
  pub lacking : s.shared.write_idx < s.shared.read_idx j + count
  pub answers : p.failure ≡ (if s.shared.is_closed then buffer_closed else buffer_insufficient)
  pub nothing : p.items ≡ []
  pub untouched : p.buffer ≡ s.shared

module _ (cap : ℕ) (capacity : IsCapacity cap) {T : Type 0} (s : System T) (h : IsRunning cap s)
    (j : ℕ) (registered : j < s.shared.consumers) where
  read_items-sent :
      (n i : ℕ)
      → s.shared.read_idx j + i + n ≤ s.shared.write_idx
      → read_items cap (s.shared.read_idx j) i n s.shared.buffer
        ≡ take n (drop (s.shared.read_idx j + i) s.sent)
  unfolding read_items
  read_items-sent zero i near = refl
  read_items-sent (suc n) i near =
      let at =
        drop-cons s.sent (s.shared.read_idx j + i) _
          (sent_at cap capacity s h j i registered (omega arith)) in
      let rest = read_items-sent n (i + 1) (omega arith) in
      let next_index : s.shared.read_idx j + (i + 1) ≡ s.shared.read_idx j + i + 1 = omega arith in
      rw (at, rest, next_index) refl

  abbrev asked : ℕ → ConsumeFailure × ℕ
  asked count =
      check_pop_status (s.shared.read_idx j) count (s.consumer j).cached_write_idx
        s.shared.write_idx s.shared.is_closed

  abbrev Outcome : ConsumeFailure × ℕ → ℕ → List T → List T → Type 0
  Outcome status count items items' =
      Takes s j count items' (finish cap j status count items s.shared)
      ⊎ Declines s j count (finish cap j status count items s.shared)

  declines :
      (count : ℕ) (f : ConsumeFailure) (p : Popped T)
      → s.shared.write_idx < s.shared.read_idx j + count
      → f ≡ (if s.shared.is_closed then buffer_closed else buffer_insufficient)
      → p.failure ≡ f
      → p.items ≡ []
      → p.cached ≡ s.shared.write_idx
      → p.buffer ≡ s.shared
      → Declines s j count p
  declines count f p short e a b k c = record {
    cached = k;
    lacking = short;
    answers = a ∙ e;
    nothing = b;
    untouched = c;
  }

  finish-Outcome :
      (count : ℕ) (items items' : List T) (status : ConsumeFailure × ℕ)
      → (s.shared.read_idx j + count ≤ s.shared.write_idx → items ≡ items')
      → ((s.shared.read_idx j + count ≤ s.shared.write_idx)
          × (status ≡ (
            no_failure,
            if leb (s.shared.read_idx j + count) (s.consumer j).cached_write_idx
                then (s.consumer j).cached_write_idx
                else s.shared.write_idx,
          )))
        ⊎ ((s.shared.write_idx < s.shared.read_idx j + count)
            × (status ≡ (
              if s.shared.is_closed then buffer_closed else buffer_insufficient,
              s.shared.write_idx,
            )))
      → Outcome status count items items'
  finish-Outcome count items items' (no_failure, c) same (inl q) = inl (record {
    enough = q.0;
    answers = refl;
    returned = same q.0;
    cached = ap (λ x. x.1) q.1;
    moved =
        ap (λ n. record s.shared { read_idx = update s.shared.read_idx j n })
          (add64_exact (s.shared.read_idx j) count (omega (arith, q.0, h.publishing.bounded)));
  })
  finish-Outcome count items items' (no_failure, c) same (inr q) =
      let e = ap (λ x. x.0) q.1 in absurd (ground (arith, e))
  finish-Outcome count items items' (buffer_insufficient, c) same (inl q) =
      let e = ap (λ x. x.0) q.1 in absurd (cc e)
  finish-Outcome count items items' (buffer_insufficient, c) same (inr q) = inr (
      declines count buffer_insufficient _ q.0 (ap (λ x. x.0) q.1) refl refl (ap (λ x. x.1) q.1)
        refl)
  finish-Outcome count items items' (buffer_closed, c) same (inl q) =
      let e = ap (λ x. x.0) q.1 in absurd (cc e)
  finish-Outcome count items items' (buffer_closed, c) same (inr q) =
      inr
        (declines count buffer_closed _ q.0 (ap (λ x. x.0) q.1) refl refl (ap (λ x. x.1) q.1) refl)

  asked-Outcome :
      (count : ℕ) (items items' : List T)
      → (s.shared.read_idx j + count ≤ s.shared.write_idx → items ≡ items')
      → Outcome (asked count) count items items'
  asked-Outcome count items items' same =
      let c = h.consuming j registered in
      finish-Outcome count items items' (asked count) same (
        check_pop_status-cases (s.shared.read_idx j) count (s.consumer j).cached_write_idx
          s.shared.write_idx s.shared.is_closed c.seen c.published
          (omega (arith, h.publishing.bounded)))

  -- In a state that satisfies the invariant, `try_pop_many` returns the items that were sent from
  -- the read index on, and moves the read index past them, where so many were published; otherwise
  -- it reports whether the buffer is closed, returns no item and leaves the buffer as it was. The
  -- consumer's cached write index stays where it covers what is asked for; in every other case, a
  -- refusal among them, it becomes the write index.
  pub try_pop_many_lem :
      (count : ℕ)
      → let p = try_pop_many cap j count (s.consumer j).cached_write_idx s.shared in
        Takes s j count (take count (drop (s.shared.read_idx j) s.sent)) p ⊎ Declines s j count p
  unfolding try_pop_many
  try_pop_many_lem count = asked-Outcome count _ _ (λ enough.
      let whole : s.shared.read_idx j + 0 ≡ s.shared.read_idx j = omega arith in
      read_items-sent count 0 (omega arith) ∙ ap (λ k. take count (drop k s.sent)) whole)

  -- In a state that satisfies the invariant, `try_skip_many` moves the read index past as many
  -- items as are asked for, where so many were published; otherwise it reports whether the buffer
  -- is closed and leaves the buffer as it was. The consumer's cached write index stays where it
  -- covers what is asked for; in every other case, a refusal among them, it becomes the write
  -- index.
  pub try_skip_many_lem :
      (count : ℕ)
      → let p = try_skip_many cap j count (s.consumer j).cached_write_idx s.shared in
        Takes s j count [] p ⊎ Declines s j count p
  unfolding try_skip_many
  try_skip_many_lem count = asked-Outcome count [] [] (λ enough. refl)

  -- On the same conditions `try_pop` is `try_pop_many` of one item.
  pub try_pop-try_pop_many :
      try_pop cap j (s.consumer j).cached_write_idx s.shared
      ≡ try_pop_many cap j 1 (s.consumer j).cached_write_idx s.shared
  unfolding try_pop try_pop_many read_items
  try_pop-try_pop_many =
      let at : s.shared.read_idx j ≡ add64 (s.shared.read_idx j) 0 = omega (
        arith,
        (h.consuming j registered).seen,
        (h.consuming j registered).published,
        h.publishing.bounded,
      ) in
      ap (λ n. finish cap j (asked 1) 1 (s.shared.buffer (slot_of cap n) ∷ []) s.shared) at
