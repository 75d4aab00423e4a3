-- ===== src/Book/PriceMap.antt =====
-- `std::map<price_t, shares_t>` of include/book/order_book.h: entries in ascending order of price.
-- The header names the type; the functions are the standard container's.
use itch_order_book.Common.{
  ℕ, ◌<◌, ◌≡◌, refl, Option, none, some, List, [], ◌∷◌, arith, ltb, ◌==◌, if◌then◌else◌,
}

abbrev pub Levels : Type 0
Levels = List (ℕ × ℕ)

-- `find(price)`, with the entry's shares
unfoldable pub lookup : ℕ → Levels → Option ℕ
lookup p [] = none
lookup p ((q, n) ∷ m) = if p == q then some n else lookup p m

-- `m[price] = shares`: the entry is made if it is missing
unfoldable pub assign : ℕ → ℕ → Levels → Levels
assign p n [] = (p, n) ∷ []
assign p n ((q, k) ∷ m) =
    if p == q then (p, n) ∷ m else if ltb p q then (p, n) ∷ (q, k) ∷ m else (q, k) ∷ assign p n m

-- `erase(entry)`
unfoldable pub erase : ℕ → Levels → Levels
erase p [] = []
erase p ((q, k) ∷ m) = if p == q then m else (q, k) ∷ erase p m

-- every price of the map is above `p`
abbrev pub Above : ℕ → Levels → Type 0
Above p [] = Unit
Above p ((q, n) ∷ m) = (p < q) × Above p m

-- ascending prices, each at most once
abbrev pub IsSorted : Levels → Type 0
IsSorted [] = Unit
IsSorted ((q, n) ∷ m) = Above q m × IsSorted m

lookup-eq-none : (p q : ℕ) (m : Levels) → Above q m → p < q → lookup p m ≡ none
unfolding lookup
lookup-eq-none p q [] a h = refl
lookup-eq-none p q ((r, n) ∷ m) a h = ground (arith, lookup-eq-none p q m)

pub lookup_self : (p : ℕ) (m : Levels) → Above p m → lookup p m ≡ none
unfolding lookup
lookup_self p [] a = refl
lookup_self p ((r, n) ∷ m) a = ground (arith, lookup_self p m)

pub lookup-assign :
    (p n q : ℕ) (m : Levels) → lookup q (assign p n m) ≡ (if q == p then some n else lookup q m)
unfolding lookup assign
lookup-assign p n q [] = refl
lookup-assign p n q ((r, k) ∷ m) = ground (arith, lookup-assign p n q m)

pub lookup-erase :
    (p q : ℕ) (m : Levels)
    → IsSorted m
    → lookup q (erase p m) ≡ (if q == p then none else lookup q m)
unfolding lookup erase
lookup-erase p q [] s = ground arith
lookup-erase p q ((r, k) ∷ m) s = ground (arith, lookup-erase p q m s.1, lookup_self r m s.0)

Above-assign : (p q n : ℕ) (m : Levels) → p < q → Above p m → Above p (assign q n m)
unfolding assign
Above-assign p q n [] h a = (h, tt)
Above-assign p q n ((r, k) ∷ m) h a = ground (arith, Above-assign p q n m h a.1)

Above-erase : (p q : ℕ) (m : Levels) → Above p m → Above p (erase q m)
unfolding erase
Above-erase p q [] a = tt
Above-erase p q ((r, k) ∷ m) a = ground (arith, Above-erase p q m a.1)

Above-lt : (p q : ℕ) (m : Levels) → p < q → Above q m → Above p m
Above-lt p q [] h a = tt
Above-lt p q ((r, k) ∷ m) h a = (omega arith, Above-lt p q m h a.1)

pub assign-IsSorted : (p n : ℕ) (m : Levels) → IsSorted m → IsSorted (assign p n m)
unfolding assign
assign-IsSorted p n [] s = (tt, tt)
assign-IsSorted p n ((r, k) ∷ m) s =
    ground (arith, assign-IsSorted p n m s.1, Above-assign r p n m, Above-lt p r m)

pub erase-IsSorted : (p : ℕ) (m : Levels) → IsSorted m → IsSorted (erase p m)
unfolding erase
erase-IsSorted p [] s = tt
erase-IsSorted p ((r, k) ∷ m) s = ground (arith, erase-IsSorted p m s.1, Above-erase r p m s.0)

pub erase-assign : (p n : ℕ) (m : Levels) → lookup p m ≡ none → erase p (assign p n m) ≡ m
unfolding lookup assign erase
erase-assign p n [] h = ground arith
erase-assign p n ((r, k) ∷ m) h = ground (arith, erase-assign p n m)

pub assign-assign :
    (p n k : ℕ) (m : Levels) → IsSorted m → lookup p m ≡ some k → assign p k (assign p n m) ≡ m
unfolding lookup assign
assign-assign p n k [] s h = ground arith
assign-assign p n k ((r, j) ∷ m) s h =
    ground (arith, assign-assign p n k m s.1, lookup-eq-none p r m s.0)
