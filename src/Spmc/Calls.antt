-- ===== src/Spmc/Calls.antt =====
-- include/spmc/producer.h, include/spmc/consumer.h: a call that no other thread interrupts is a run
-- of the step relation.
use itch_order_book.Common.{
  ℕ, zero, suc, ◌+◌, ◌<◌, ◌≡◌, refl, ap, subst, ◌∙◌, arith, Bool, true, false, some, List, [], ◌∷◌,
  ◌++◌, drop, length, get_elem?, add64, word_mod, ltb, ltb→le, le→ltb, sub64, Bool-cases, inl, inr,
}
use itch_order_book.Spmc.{
  SpmcRingBuffer, ProduceResponse, success, failed_buffer_full, failed_payload_too_large,
  get_first_read_idx, final_write_idx, is_valid_write_idx, write_items, try_push, try_push_many,
}
use itch_order_book.Spmc.System.{
  idle, writing, System, Reach, begin, full, write, publish, here, next,
}

pub Reach-trans :
    {cap : ℕ} {T : Type 0} {s t u : System T} → Reach cap s t → Reach cap t u → Reach cap s u
Reach-trans r here = r
Reach-trans r (next q step) = next (Reach-trans r q) step

item_at {ℓ} :
    {A : Type ℓ} (items : List A) (k : ℕ) (x : A) (rest : List A)
    → drop k items ≡ x ∷ rest
    → (get_elem? items k ≡ some x) × (drop (k + 1) items ≡ rest)
item_at [] zero x rest e = absurd (cc e)
item_at [] (suc k) x rest e = absurd (cc e)
item_at (y ∷ items) zero x rest e = ground arith
item_at (y ∷ items) (suc k) x rest e = ground (arith, item_at items k x rest e)

module _ (cap : ℕ) {T : Type 0} where
  -- the state after the loop
  abbrev filled : System T → List T → ℕ → List T → System T
  filled s items k rest = record s {
    shared = record s.shared { buffer = write_items cap s.shared.write_idx k rest s.shared.buffer };
    producer = record s.producer { work = writing items (length items) };
  }

  write_items-Reach :
      (rest items : List T) (k : ℕ) (s : System T)
      → s.producer.work ≡ writing items k
      → drop k items ≡ rest
      → k + length rest ≡ length items
      → Reach cap s (filled s items k rest)
  unfolding write_items
  write_items-Reach [] items k s working e all =
      subst (λ w. Reach cap s (record s { producer = record s.producer { work = w } }))
        (working ∙ ap (writing items) (omega arith)) here
  write_items-Reach (x ∷ rest) items k s working e all =
      let i = item_at items k x rest e in
      Reach-trans (next here (write items k x working i.0))
        (write_items-Reach rest items (k + 1) _ refl i.1 (omega arith))

  -- the state after a call
  abbrev pub pushed : System T → List T → ProduceResponse × ℕ × SpmcRingBuffer T → System T
  pushed s items (response, cached, b) = record s {
    shared = b;
    producer = record { cached_read_idx = cached; work = idle };
    sent = elim response [ success ↦ s.sent ++ items | _ ↦ s.sent ];
  }

  -- the three branches of `try_push_many`
  module _ (items : List T) (cached : ℕ) (b : SpmcRingBuffer T) where
    abbrev validity : Bool × ℕ
    validity =
        is_valid_write_idx cap (final_write_idx (length items) b.write_idx) cached
          (get_first_read_idx b.consumers b.read_idx)

    pub too_large :
        ltb cap (length items) ≡ true
        → try_push_many cap items cached b ≡ (failed_payload_too_large, cached, b)
    unfolding try_push_many
    too_large large = rw large refl

    pub succeeds :
        (cached' : ℕ)
        → ltb cap (length items) ≡ false
        → validity ≡ (true, cached')
        → try_push_many cap items cached b ≡ (
          success,
          cached',
          record b {
            buffer = write_items cap b.write_idx 0 items b.buffer;
            write_idx = add64 (final_write_idx (length items) b.write_idx) 1;
          },
        )
    unfolding try_push_many
    succeeds cached' small valid = rw (small, valid) refl

    pub overruns :
        (cached' : ℕ)
        → ltb cap (length items) ≡ false
        → validity ≡ (false, cached')
        → try_push_many cap items cached b ≡ (failed_buffer_full, cached', b)
    unfolding try_push_many
    overruns cached' small valid = rw (small, valid) refl

  -- Between two calls of the producer, and while indices fit their word, `try_push_many` is a run
  -- of the producer's steps: it sends all the items if it succeeds, and none if it fails.
  pub try_push_many-Reach :
      (s : System T) (items : List T)
      → s.producer.work ≡ idle
      → s.shared.write_idx + length items < word_mod
      → Reach cap s (pushed s items (try_push_many cap items s.producer.cached_read_idx s.shared))
  try_push_many-Reach s items rests fits =
      let cached = s.producer.cached_read_idx in
      let r = validity items cached s.shared in
      elim (Bool-cases (ltb cap (length items))) [
        | inl large ↦ rw (too_large items cached s.shared large) (
            subst (λ w. Reach cap s (record s { producer = record s.producer { work = w } })) rests
              here)
        | inr small ↦ elim (Bool-cases r.0) [
          | inl valid ↦ rw (succeeds items cached s.shared r.1 small (ap (λ v. (v, r.1)) valid)) (
              next
                (Reach-trans
                  (next here (
                    begin items s.shared.read_idx r.1 rests (λ j lt. omega arith)
                      (ltb→le cap (length items) small) fits (ap (λ v. (v, r.1)) valid)))
                  (write_items-Reach items items 0 _ refl refl (omega arith)))
                (publish items refl))
          | inr invalid ↦
              rw (overruns items cached s.shared r.1 small (ap (λ v. (v, r.1)) invalid)) (
                next here (
                  full items s.shared.read_idx r.1 rests (λ j lt. omega arith)
                    (ap (λ v. (v, r.1)) invalid)))
        ]
      ]

  -- For a capacity that is not zero and a write index that fits its word, `try_push` is
  -- `try_push_many` of one item.
  pub try_push-try_push_many :
      (item : T) (cached : ℕ) (b : SpmcRingBuffer T)
      → 0 < cap
      → b.write_idx + 1 < word_mod
      → try_push cap item cached b ≡ try_push_many cap (item ∷ []) cached b
  unfolding try_push try_push_many write_items final_write_idx
  try_push-try_push_many item cached b some_room fits =
      let last : add64 (sub64 1 1) b.write_idx ≡ b.write_idx = omega arith in
      let first : add64 b.write_idx 0 ≡ b.write_idx = omega arith in
      let small : ltb cap 1 ≡ false = le→ltb cap 1 some_room in rw (small, last, first) refl
