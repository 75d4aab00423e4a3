-- ===== src/RingBuffer/Recent.antt =====
-- include/util/ring_buffer.h: the buffer has the last items that were pushed.
use mathlib.Core.List.{append_assoc, append-nil}
use itch_order_book.Common.{
  ℕ, ◌+◌, ◌-◌, ◌≤◌, ◌<◌, ◌≡◌, ◌%◌, refl, ap, sym, subst, ◌∙◌, arith, some, List, [], ◌∷◌, ◌++◌,
  update_self, update-ne, word_mod, length, get_elem?, length-append, get_elem?-append_left,
  get_elem?-append_right, dec_lt, min,
}
use itch_order_book.Capacity.{IsCapacity, masked, mod_ne}
use itch_order_book.RingBuffer.{RingBuffer, new_ring, push, push_all, size}

module _ (cap : ℕ) (capacity : IsCapacity cap) {T : Type 0} where
  -- `items` are all that were pushed
  pub record Holds (items : List T) (r : RingBuffer T) : Type 0 where
    pub counted : r.pushed ≡ length items
    pub recent :
        (i : ℕ)
        → i < length items
        → length items ≤ i + cap
        → get_elem? items i ≡ some (r.buffer (i % cap))

  pub push-Holds :
      (items : List T) (x : T) (r : RingBuffer T)
      → length items + 1 < word_mod
      → Holds items r
      → Holds (items ++ x ∷ []) (push cap x r)
  unfolding push
  push-Holds items x r fits h =
      let at = masked cap capacity r.pushed in
      let long = length-append items (x ∷ []) in
      record {
        counted = omega (arith, h.counted, long);
        recent = λ i lt near. elim (dec_lt i (length items)) [
          | yes q ↦
              get_elem?-append_left items (x ∷ []) i q
              ∙ h.recent i q (omega (arith, long))
              ∙ ap some (
                  sym (
                    update-ne r.buffer _ x (i % cap) (λ e.
                      mod_ne cap i r.pushed (omega (arith, h.counted))
                        (omega (arith, h.counted, long)) (sym e ∙ at))))
          | no q ↦
              let last : i ≡ r.pushed = omega (arith, h.counted, long) in
              let offset : i - length items ≡ 0 = omega (arith, h.counted) in
              get_elem?-append_right items (x ∷ []) i (omega arith)
              ∙ rw (offset, last, sym at) (ap some (sym (update_self r.buffer _ x)))
        ];
      }

  push_all-Holds :
      (xs items : List T) (r : RingBuffer T)
      → length items + length xs < word_mod
      → Holds items r
      → Holds (items ++ xs) (push_all cap xs r)
  unfolding push_all
  push_all-Holds [] items r fits h = subst (λ l. Holds l r) (sym (append-nil items)) h
  push_all-Holds (x ∷ xs) items r fits h =
      subst (λ l. Holds l (push_all cap xs (push cap x r))) (append_assoc items (x ∷ []) xs)
        (push_all-Holds xs (items ++ x ∷ []) (push cap x r)
          (omega (arith, length-append items (x ∷ []))) (push-Holds items x r (omega arith) h))

  -- After fewer than 2 ^ 64 pushes the buffer reports as many items as were pushed, at most its
  -- capacity, and each of the last `cap` items that were pushed is in its slot.
  pub push_all-recent :
      (xs : List T) (default : T)
      → length xs < word_mod
      → (size cap (push_all cap xs (new_ring default)) ≡ min cap (length xs))
        × ((i : ℕ)
            → i < length xs
            → length xs ≤ i + cap
            → get_elem? xs i ≡ some ((push_all cap xs (new_ring default)).buffer (i % cap)))
  unfolding size new_ring
  push_all-recent xs default fits =
      let h =
        push_all-Holds xs [] (new_ring default) (omega arith)
          (record { counted = refl; recent = λ i lt near. absurd (omega arith) }) in
      (ap (min cap) h.counted, h.recent)
