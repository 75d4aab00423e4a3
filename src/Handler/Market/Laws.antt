-- ===== src/Handler/Market/Laws.antt =====
-- include/market_data/market_data_handler.h: the list of open orders as a finite map.
use itch_order_book.Common.{
  ℕ, ◌+◌, ◌-◌, min, ◌≡◌, refl, sym, ◌∙◌, subst, arith, none, some, [], ◌∷◌, length, ◌==◌, ==_iff,
  if◌then◌else◌, Bool-cases, inl, inr,
}
use mathlib.Core.Option.{some-injective}
use itch_order_book.Book.{Side}
use itch_order_book.Handler.{OrderRecord}
use itch_order_book.Handler.Resting.{weight_of}
use itch_order_book.Handler.Fills.{rest_of}
use itch_order_book.Handler.Market.{OpenOrders, find_order, remove_order, lower_order, shares_of}

-- no two orders have one reference
abbrev pub AreDistinct : OpenOrders → Type 0
AreDistinct [] = Unit
AreDistinct ((k, r) ∷ m) = (find_order k m ≡ none) × AreDistinct m

pub find_order-remove_order :
    (q key : ℕ) (m : OpenOrders)
    → find_order q (remove_order key m) ≡ (if q == key then none else find_order q m)
unfolding find_order remove_order
find_order-remove_order q key [] = ground arith
find_order-remove_order q key ((k, r) ∷ m) = ground (arith, find_order-remove_order q key m)

remove_order_absent : (key : ℕ) (m : OpenOrders) → find_order key m ≡ none → remove_order key m ≡ m
unfolding find_order remove_order
remove_order_absent key [] h = refl
remove_order_absent key ((k, r) ∷ m) h = elim (Bool-cases (k == key)) [
  | inl e ↦ cc
  | inr e ↦ rw (remove_order, e) (rw (remove_order_absent key m (sym (ground (arith, e)) ∙ h)) refl)
]

pub AreDistinct-remove_order :
    (key : ℕ) (m : OpenOrders) → AreDistinct m → AreDistinct (remove_order key m)
unfolding remove_order
AreDistinct-remove_order key [] d = tt
AreDistinct-remove_order key ((k, r) ∷ m) d = elim (Bool-cases (k == key)) [
  | inl e ↦ rw (remove_order, e) (AreDistinct-remove_order key m d.1)
  | inr e ↦
      rw (remove_order, e)
        (ground (arith, find_order-remove_order k key m, d.0), AreDistinct-remove_order key m d.1)
]

-- removing an open order takes one entry and its shares off the list
pub remove_order-present :
    (key : ℕ) (r : OrderRecord) (m : OpenOrders)
    → AreDistinct m
    → find_order key m ≡ some r
    → (length (remove_order key m) + 1 ≡ length m)
      × ((s : Side) (p : ℕ)
          → shares_of s p (remove_order key m) + weight_of s p r ≡ shares_of s p m)
unfolding find_order remove_order shares_of
remove_order-present key r [] d h = cc
remove_order-present key r ((k, r') ∷ m) d h = elim (Bool-cases (k == key)) [
  | inl e ↦
      let same = (==_iff k key).0 e in
      let gone : remove_order key m ≡ m =
        remove_order_absent key m (subst (λ x. find_order x m ≡ none) same d.0) in
      let found : r' ≡ r = some-injective _ _ (sym (ground (arith, e)) ∙ h) in
      rw (remove_order, e, gone, found) (omega arith, λ s p. omega arith)
  | inr e ↦
      let (count, held) = remove_order-present key r m d.1 (sym (ground (arith, e)) ∙ h) in
      rw (remove_order, e) (omega (arith, count), λ s p. omega (arith, held s p))
]

-- what lowering the shares of an open order does to the list
pub record Reduced (key : ℕ) (r : OrderRecord) (n : ℕ) (m m' : OpenOrders) : Type 0 where
  pub distinct : AreDistinct m'
  pub found : (q : ℕ) → find_order q m' ≡ (if q == key then rest_of r n else find_order q m)
  pub counts : length m' + (if r.shares - n == 0 then 1 else 0) ≡ length m
  pub held :
      (s : Side) (p : ℕ)
      → shares_of s p m' + weight_of s p (record r { shares = min n r.shares }) ≡ shares_of s p m

pub lower_order-Reduced :
    (key : ℕ) (r : OrderRecord) (n : ℕ) (m : OpenOrders)
    → AreDistinct m
    → find_order key m ≡ some r
    → Reduced key r n m (lower_order key r n m)
unfolding lower_order find_order shares_of
lower_order-Reduced key r n m d there =
    let (count, held) = remove_order-present key r m d there in
    elim (Bool-cases (r.shares - n == 0)) [
      | inl e ↦ rw e (record {
        distinct = AreDistinct-remove_order key m d;
        found = λ q. ground (arith, e, find_order-remove_order q key m);
        counts = ground (arith, e, count);
        held = λ s p. ground (arith, e, held s p);
      })
      | inr e ↦ rw e (record {
        distinct =
            (ground (arith, find_order-remove_order key key m), AreDistinct-remove_order key m d);
        found = λ q. ground (arith, e, find_order-remove_order q key m);
        counts = ground (arith, e, count);
        held = λ s p. ground (arith, e, held s p);
      })
    ]

-- with all its shares gone, an order is closed
pub lower_order_all :
    (key : ℕ) (r : OrderRecord) (m : OpenOrders) → lower_order key r r.shares m ≡ remove_order key m
unfolding lower_order
lower_order_all key r m = ground arith
