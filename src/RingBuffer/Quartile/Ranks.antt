-- ===== src/RingBuffer/Quartile/Ranks.antt =====
-- include/util/quartile_buffer.h: what `report` reports.
use itch_order_book.Common.{
  ℕ, zero, suc, ◌-◌, ◌≤◌, ◌<◌, ◌≡◌, refl, sym, ap, ◌∙◌, arith, false, some, List, [], ◌∷◌, map,
  length, drop, get_elem?, length-drop, min, word_mod, ◌==◌,
}
use mathlib.Core.Option
use itch_order_book.Capacity.{IsCapacity}
use itch_order_book.RingBuffer.{RingBuffer, new_ring, push_all, size, get_buffer}
use itch_order_book.RingBuffer.Quartile.{sort, quartile_at, report}
use itch_order_book.RingBuffer.Quartile.Sorted.{
  tally, tally-sort, sort-IsSorted, at_most, below, sorted_rank,
}
use itch_order_book.RingBuffer.Quartile.Window.{get_buffer-tally}

length-tally : (xs : List ℕ) → length xs ≡ tally (λ x. 1) xs
unfolding tally
length-tally [] = refl
length-tally (x ∷ xs) = omega (arith, length-tally xs)

elem_inside {ℓ} :
    {A : Type ℓ} (xs : List A) (k : ℕ) → k < length xs → (v : A) × (get_elem? xs k ≡ some v)
elem_inside [] k h = absurd (omega arith)
elem_inside (x ∷ xs) zero h = (x, refl)
elem_inside (x ∷ xs) (suc k) h = elem_inside xs k (omega arith)

get_elem?-map {ℓ κ} :
    {A : Type ℓ} {B : Type κ} (f : A → B) (xs : List A) (i : ℕ) (x : A)
    → get_elem? xs i ≡ some x
    → get_elem? (map f xs) i ≡ some (f x)
get_elem?-map f [] i x h = absurd (cc h)
get_elem?-map f (y ∷ xs) zero x h = ap (λ o. Option.map f o) h
get_elem?-map f (y ∷ xs) (suc i) x h = get_elem?-map f xs i x h

module _ (cap : ℕ) (capacity : IsCapacity cap) (items : List ℕ) (default : ℕ)
    (fits : length items < word_mod) where
  abbrev samples : RingBuffer ℕ
  samples = push_all cap items (new_ring default)

  abbrev count : ℕ
  count = min cap (length items)

  -- the last `count` items
  abbrev pub recent : List ℕ
  recent = drop (length items - count) items

  sorted_tally : (w : ℕ → ℕ) → tally w (sort (get_buffer cap samples)) ≡ tally w recent
  sorted_tally w =
      let (counted, weighs) = get_buffer-tally cap capacity w items default fits in
      tally-sort w (get_buffer cap samples)
      ∙ weighs
      ∙ ap (λ k. tally w (drop (length items - k) items)) counted

  sorted_length : length (sort (get_buffer cap samples)) ≡ count
  sorted_length =
      length-tally (sort (get_buffer cap samples))
      ∙ sorted_tally (λ x. 1)
      ∙ sym (length-tally recent)
      ∙ omega (arith, length-drop (length items - count) items)

  -- After any number of samples, one at least and fewer than 2 ^ 64, `report` gives for a quartile
  -- whose index is below the count a sample value of that rank among the last N samples: more than
  -- the index of them do not exceed it, and at most the index of them are below it, in the order of
  -- signed words.
  pub report-rank :
      (quartiles : List (ℕ → ℕ)) (i : ℕ) (quartile : ℕ → ℕ)
      → 0 < length items
      → get_elem? quartiles i ≡ some quartile
      → quartile (count - 1) < count
      → (v : ℕ) × (get_elem? (report cap quartiles samples) i ≡ some (some v))
        × (quartile (count - 1) < tally (at_most v) recent)
        × (tally (below v) recent ≤ quartile (count - 1))
  unfolding report
  report-rank quartiles i quartile some_items at inside =
      let results = sort (get_buffer cap samples) in
      let k = quartile (count - 1) in
      let (v, there) = elem_inside results k (omega (arith, sorted_length, inside)) in
      let (more, fewer) = sorted_rank results k v (sort-IsSorted (get_buffer cap samples)) there in
      let counted = (get_buffer-tally cap capacity (λ x. 1) items default fits).0 in
      let full : (size cap samples == 0) ≡ false = ground (arith, counted, inside) in
      (
        v,
        rw (report, full, counted)
            (get_elem?-map (quartile_at results count) quartiles i quartile at ∙ ap some there),
        omega (arith, more, sorted_tally (at_most v)),
        omega (arith, fewer, sorted_tally (below v)),
      )
