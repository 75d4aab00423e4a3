-- ===== src/RingBuffer/Quartile/Window.antt =====
-- include/util/ring_buffer.h, quartile_buffer.h: the samples in the buffer are the last ones, in
-- any order.
use native.Mathlib.Nat.{mod-eq-sub-mod, mod-eq_of_lt, mod-lt}
use itch_order_book.Common.{
  ℕ, zero, suc, ◌+◌, ◌-◌, ◌%◌, ◌≤◌, ◌<◌, ◌≡◌, refl, sym, ap, ◌∙◌, subst, arith, List, [], ◌∷◌, ◌++◌,
  length, length-append, drop, drop-cons, some, update, get_elem?, min, total, total-update,
  total_beyond, update_self, dec_lt, word_mod,
}
use mathlib.Core.List.{append_assoc, append-nil}
use itch_order_book.Capacity.{IsCapacity, IsCapacity-pos, masked}
use itch_order_book.RingBuffer.{RingBuffer, new_ring, push, push_all, size, get_buffer, buffer_from}
use itch_order_book.RingBuffer.Recent.{Holds, push-Holds, push_all-recent}
use itch_order_book.RingBuffer.Quartile.Sorted.{tally}

total-first :
    (w : ℕ → ℕ) (n : ℕ) (f : ℕ → ℕ) → total w (suc n) f ≡ w (f 0) + total w n (λ j. f (suc j))
unfolding total
total-first w zero f = omega arith
total-first w (suc n) f = let rest = total-first w n f in omega (arith, rest)

tally-buffer_from :
    (w : ℕ → ℕ) (n i : ℕ) (f : ℕ → ℕ) → tally w (buffer_from i n f) ≡ total w n (λ j. f (i + j))
unfolding tally buffer_from total
tally-buffer_from w zero i f = refl
tally-buffer_from w (suc n) i f =
    let here : i + 0 ≡ i = omega arith in
    let rest : tally w (buffer_from (i + 1) n f) ≡ total w n (λ j. f (i + suc j)) =
      tally-buffer_from w n (i + 1) f ∙ ap (λ g. total w n g) (λ k j. f (next i j k)) in
    omega (arith, rest, total-first w n (λ j. f (i + j)), ap (λ a. w (f a)) here)
  where
    next : (i j : ℕ) → i + 1 + j ≡ i + suc j
    next i j = omega arith

tally-append : (w : ℕ → ℕ) (xs ys : List ℕ) → tally w (xs ++ ys) ≡ tally w xs + tally w ys
unfolding tally
tally-append w [] ys = omega arith
tally-append w (x ∷ xs) ys = omega (arith, tally-append w xs ys)

drop-append : (k : ℕ) (xs ys : List ℕ) → k ≤ length xs → drop k (xs ++ ys) ≡ drop k xs ++ ys
drop-append zero xs ys h = refl
drop-append (suc k) [] ys h = absurd (omega arith)
drop-append (suc k) (x ∷ xs) ys h = drop-append k xs ys (omega arith)

module _ (cap : ℕ) (capacity : IsCapacity cap) where
  -- the weights in the buffer are those of the last `m` items
  abbrev Tallies : List ℕ → RingBuffer ℕ → Type 0
  Tallies items r =
      (w : ℕ → ℕ) (m : ℕ)
      → m ≡ min cap (length items)
      → total w m r.buffer ≡ tally w (drop (length items - m) items)

  -- a push to a buffer that is not full
  push-Tallies_short :
      (items : List ℕ) (x : ℕ) (buffer : ℕ → ℕ) (w : ℕ → ℕ)
      → total w (length items) buffer ≡ tally w (drop (length items - length items) items)
      → total w (suc (length items)) (update buffer (length items) x) ≡ tally w (items ++ x ∷ [])
  unfolding tally total
  push-Tallies_short items x buffer w old =
      let all : length items - length items ≡ 0 = omega arith in
      omega (
        arith,
        ap w (update_self buffer (length items) x),
        total_beyond w buffer (length items) x (length items) (omega arith),
        old,
        ap (λ k. tally w (drop k items)) all,
        tally-append w items (x ∷ []),
      )

  -- a push to a full one replaces the oldest item
  push-Tallies_full :
      (items : List ℕ) (x k : ℕ) (buffer : ℕ → ℕ) (w : ℕ → ℕ)
      → length items ≡ k + cap
      → get_elem? items k ≡ some (buffer (k % cap))
      → total w cap buffer ≡ tally w (drop k items)
      → total w cap (update buffer (k % cap) x) ≡ tally w (drop (k + 1) (items ++ x ∷ []))
  unfolding tally total
  push-Tallies_full items x k buffer w long oldest old =
      let pos = IsCapacity-pos cap capacity in
      let window = drop-cons items k (buffer (k % cap)) oldest in
      rw (drop-append (k + 1) items (x ∷ []) (omega (arith, pos))) (
        omega (
          arith,
          total-update w cap buffer (k % cap) x (mod-lt k pos),
          old,
          ap (tally w) window,
          tally-append w (drop (k + 1) items) (x ∷ []),
        ))

  push-Tallies :
      (items : List ℕ) (x : ℕ) (r : RingBuffer ℕ)
      → Holds cap capacity items r
      → Tallies items r
      → Tallies (items ++ x ∷ []) (push cap x r)
  unfolding push
  push-Tallies items x r h t w m e =
      let long : length (items ++ x ∷ []) ≡ length items + 1 = length-append items (x ∷ []) in
      let at = masked cap capacity r.pushed in
      elim (dec_lt (length items) cap) [
        | yes short ↦
            let slot : r.pushed % cap ≡ length items =
              mod-eq_of_lt (omega (arith, h.counted)) ∙ h.counted in
            let last : m ≡ suc (length items) = omega (arith, e, long) in
            let first : length (items ++ x ∷ []) - m ≡ 0 = omega (arith, last, long) in
            rw (first, last, at, slot)
              (push-Tallies_short items x r.buffer w (t w (length items) (omega arith)))
        | no full ↦
            let k : ℕ = length items - cap in
            let slot : r.pushed % cap ≡ k % cap =
              ap (λ a. a % cap) h.counted ∙ mod-eq-sub-mod (omega arith) in
            let last : m ≡ cap = omega (arith, e, long) in
            let first : length (items ++ x ∷ []) - cap ≡ k + 1 = omega (arith, long) in
            let pos = IsCapacity-pos cap capacity in
            rw (last, first, at, slot)
              (push-Tallies_full items x k r.buffer w (omega arith)
                (h.recent k (omega (arith, pos)) (omega arith)) (t w cap (omega arith)))
      ]

  push_all-Tallies :
      (xs items : List ℕ) (r : RingBuffer ℕ)
      → length items + length xs < word_mod
      → Holds cap capacity items r
      → Tallies items r
      → Tallies (items ++ xs) (push_all cap xs r)
  unfolding push_all
  push_all-Tallies [] items r fits h t = subst (λ l. Tallies l r) (sym (append-nil items)) t
  push_all-Tallies (x ∷ xs) items r fits h t =
      subst (λ l. Tallies l (push_all cap xs (push cap x r))) (append_assoc items (x ∷ []) xs)
        (push_all-Tallies xs (items ++ x ∷ []) (push cap x r)
          (omega (arith, length-append items (x ∷ [])))
          (push-Holds cap capacity items x r (omega arith) h) (push-Tallies items x r h t))

  -- the items in the buffer after some pushes weigh what the last of them weigh
  pub get_buffer-tally :
      (w : ℕ → ℕ) (items : List ℕ) (default : ℕ)
      → length items < word_mod
      → let r = push_all cap items (new_ring default) in
        (size cap r ≡ min cap (length items))
        × (tally w (get_buffer cap r) ≡ tally w (drop (length items - size cap r) items))
  unfolding get_buffer size new_ring total tally
  get_buffer-tally w items default fits =
      let r = push_all cap items (new_ring default) in
      let (counted, _) = push_all-recent cap capacity items default fits in
      let all =
        push_all-Tallies items [] (new_ring default) (omega arith)
          (record { counted = refl; recent = λ i lt near. absurd (omega arith) })
          (λ w' m e. let nothing : m ≡ 0 = omega (arith, e) in rw nothing refl) in
      (
        counted,
        tally-buffer_from w (size cap r) 0 r.buffer
            ∙ ap (λ f. total w (size cap r) f) (λ k j. r.buffer (from_zero j k))
            ∙ all w (size cap r) counted,
      )
    where
      from_zero : (j : ℕ) → 0 + j ≡ j
      from_zero j = omega arith
