-- ===== src/RingBuffer/Quartile/Sorted.antt =====
-- include/util/quartile_buffer.h: the sorted samples, and the rank of each.
use itch_order_book.Common.{
  ℕ, zero, suc, ◌+◌, ◌≤◌, ◌<◌, ◌≡◌, refl, arith, some, List, [], ◌∷◌, get_elem?, if◌then◌else◌,
  Bool-cases, inl, inr,
}
use mathlib.Core.Option.{some-injective}
use itch_order_book.RingBuffer.Quartile.{biased, signed_leb, insert, sort}

-- the sum of the weights of the samples
unfoldable pub tally : (ℕ → ℕ) → List ℕ → ℕ
tally w [] = 0
tally w (x ∷ xs) = w x + tally w xs

tally-insert : (w : ℕ → ℕ) (x : ℕ) (ys : List ℕ) → tally w (insert x ys) ≡ w x + tally w ys
unfolding tally insert
tally-insert w x [] = refl
tally-insert w x (y ∷ ys) = let rest = tally-insert w x ys in ground arith

-- sorting keeps the samples
pub tally-sort : (w : ℕ → ℕ) (xs : List ℕ) → tally w (sort xs) ≡ tally w xs
unfolding tally sort
tally-sort w [] = refl
tally-sort w (x ∷ xs) = omega (arith, tally-insert w x (sort xs), tally-sort w xs)

abbrev AtLeast : ℕ → List ℕ → Type 0
AtLeast b [] = Unit
AtLeast b (x ∷ xs) = (b ≤ biased x) × AtLeast b xs

abbrev pub IsSorted : List ℕ → Type 0
IsSorted [] = Unit
IsSorted (x ∷ xs) = AtLeast (biased x) xs × IsSorted xs

AtLeast-lower : (b c : ℕ) (xs : List ℕ) → b ≤ c → AtLeast c xs → AtLeast b xs
AtLeast-lower b c [] le h = tt
AtLeast-lower b c (x ∷ xs) le h = (omega (arith, h.0), AtLeast-lower b c xs le h.1)

insert-AtLeast : (b x : ℕ) (ys : List ℕ) → b ≤ biased x → AtLeast b ys → AtLeast b (insert x ys)
unfolding insert
insert-AtLeast b x [] le h = (le, tt)
insert-AtLeast b x (y ∷ ys) le h = elim (Bool-cases (signed_leb x y)) [
  | inl e ↦ rw (insert, e) (le, h)
  | inr e ↦ rw (insert, e) (h.0, insert-AtLeast b x ys le h.1)
]

insert-IsSorted : (x : ℕ) (ys : List ℕ) → IsSorted ys → IsSorted (insert x ys)
unfolding insert
insert-IsSorted x [] h = (tt, tt)
insert-IsSorted x (y ∷ ys) h = elim (Bool-cases (signed_leb x y)) [
  | inl e ↦
      let le : biased x ≤ biased y = ground (arith, e) in
      rw (insert, e) ((le, AtLeast-lower (biased x) (biased y) ys le h.0), h)
  | inr e ↦
      let le : biased y ≤ biased x = ground (arith, e) in
      rw (insert, e) (insert-AtLeast (biased y) x ys le h.0, insert-IsSorted x ys h.1)
]

pub sort-IsSorted : (xs : List ℕ) → IsSorted (sort xs)
unfolding sort
sort-IsSorted [] = tt
sort-IsSorted (x ∷ xs) = insert-IsSorted x (sort xs) (sort-IsSorted xs)

-- one for a sample that is at most another, and for one that is below it
abbrev pub at_most : ℕ → ℕ → ℕ
at_most v x = if signed_leb x v then 1 else 0

abbrev pub below : ℕ → ℕ → ℕ
below v x = if signed_leb v x then 0 else 1

none_below : (v : ℕ) (xs : List ℕ) → AtLeast (biased v) xs → tally (below v) xs ≡ 0
unfolding tally
none_below v [] h = refl
none_below v (x ∷ xs) h = let rest = none_below v xs h.1 in ground (arith, h.0)

elem-AtLeast :
    (b v : ℕ) (xs : List ℕ) (k : ℕ) → AtLeast b xs → get_elem? xs k ≡ some v → b ≤ biased v
elem-AtLeast b v [] k h e = absurd (cc e)
elem-AtLeast b v (x ∷ xs) zero h e = let same : x ≡ v = some-injective _ _ e in rw (← same) h.0
elem-AtLeast b v (x ∷ xs) (suc k) h e = elem-AtLeast b v xs k h.1 e

-- the entry at an index has that many entries below it at most, and more that do not exceed it
pub sorted_rank :
    (xs : List ℕ) (k v : ℕ)
    → IsSorted xs
    → get_elem? xs k ≡ some v
    → (k < tally (at_most v) xs) × (tally (below v) xs ≤ k)
unfolding tally
sorted_rank [] k v h e = absurd (cc e)
sorted_rank (x ∷ xs) zero v h e =
    let same : x ≡ v = some-injective _ _ e in
    let rest : tally (below v) xs ≡ 0 = none_below v xs (rw (← same) h.0) in
    rw same (ground arith, ground (arith, rest))
sorted_rank (x ∷ xs) (suc k) v h e =
    let (more, fewer) = sorted_rank xs k v h.1 e in
    let le = elem-AtLeast (biased x) v xs k h.0 e in
    (ground (arith, le, more), ground (arith, fewer))
