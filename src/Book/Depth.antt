-- ===== src/Book/Depth.antt =====
-- include/book/order_book.h and src/book/order_book.cpp: the depth that each call leaves.
use itch_order_book.Common.{
  ℕ, ◌+◌, ◌-◌, ◌≤◌, ◌<◌, ◌≡◌, refl, none, some, arith, ◌==◌, if◌then◌else◌, add64, add64_exact,
  sub64, word_mod, Bool-cases, Option-cases, inl, inr, ◌&&◌, Bool, true, false, ◌↔◌,
}
use itch_order_book.Book.{
  Levels, IsSorted, lookup, assign, erase, lookup-assign, lookup-erase, assign-IsSorted,
  erase-IsSorted, Side, buy, sell, OrderBook, get_order_side, set_order_side, shares_at, add_shares,
  remove_shares,
}

-- the equality of `side_t`
abbrev pub same_side : Side → Side → Bool
same_side buy buy = true
same_side sell sell = true
same_side _ _ = false

-- the total shares that the book shows at a side and a price
unfoldable pub depth : OrderBook → Side → ℕ → ℕ
depth b side price = shares_at price (get_order_side side b)

same_side_eq : (s t : Side) → same_side s t ≡ true → s ≡ t
same_side_eq buy buy h = refl
same_side_eq buy sell h = cc
same_side_eq sell buy h = cc
same_side_eq sell sell h = refl

-- one level of the book under two names
pub depth-same :
    (b : OrderBook) (s t : Side) (p q : ℕ)
    → (same_side s t && (p == q)) ≡ true
    → depth b s p ≡ depth b t q
depth-same b s t p q h =
    let e : same_side s t ≡ true = ground arith in
    let f : p ≡ q = ground arith in rw (same_side_eq s t e, f)

-- A side of the book: sorted, no empty level, every level fits its word.
pub record IsLevels (m : Levels) : Type 0 where
  pub sorted : IsSorted m
  pub shown : (p n : ℕ) → lookup p m ≡ some n → (0 < n) × (n < word_mod)

pub record IsValid (b : OrderBook) : Type 0 where
  pub buys : IsLevels b.buys
  pub sells : IsLevels b.sells

pub side-IsLevels : (s : Side) (b : OrderBook) → IsValid b → IsLevels (get_order_side s b)
side-IsLevels buy b v = v.buys
side-IsLevels sell b v = v.sells

pub set_order_side-IsValid :
    (s : Side) (m : Levels) (b : OrderBook)
    → IsValid b
    → IsLevels m
    → IsValid (set_order_side s m b)
set_order_side-IsValid buy m b v l = record { buys = l; sells = v.sells }
set_order_side-IsValid sell m b v l = record { buys = v.buys; sells = l }

pub shares_at-set_order_side :
    (s t : Side) (q : ℕ) (m : Levels) (b : OrderBook)
    → shares_at q (get_order_side t (set_order_side s m b))
      ≡ (if same_side t s then shares_at q m else shares_at q (get_order_side t b))
shares_at-set_order_side buy buy q m b = refl
shares_at-set_order_side buy sell q m b = refl
shares_at-set_order_side sell buy q m b = refl
shares_at-set_order_side sell sell q m b = refl

shares_at-assign :
    (p n q : ℕ) (m : Levels) → shares_at q (assign p n m) ≡ (if q == p then n else shares_at q m)
unfolding shares_at
shares_at-assign p n q m = ground (arith, lookup-assign p n q m)

shares_at-erase :
    (p q : ℕ) (m : Levels)
    → IsSorted m
    → shares_at q (erase p m) ≡ (if q == p then 0 else shares_at q m)
unfolding shares_at
shares_at-erase p q m s = ground (arith, lookup-erase p q m s)

assign-IsLevels :
    (p n : ℕ) (m : Levels) → IsLevels m → 0 < n → n < word_mod → IsLevels (assign p n m)
assign-IsLevels p n m v pos lt = record {
  sorted = assign-IsSorted p n m v.sorted;
  shown = λ q k h. ground (arith, lookup-assign p n q m, v.shown q k);
}

erase-IsLevels : (p : ℕ) (m : Levels) → IsLevels m → IsLevels (erase p m)
erase-IsLevels p m v = record {
  sorted = erase-IsSorted p m v.sorted;
  shown = λ q k h. ground (arith, lookup-erase p q m v.sorted, v.shown q k);
}

pub add_shares-IsLevels :
    (p n : ℕ) (m : Levels)
    → IsLevels m
    → 0 < n
    → shares_at p m + n < word_mod
    → IsLevels (add_shares p n m)
unfolding add_shares
add_shares-IsLevels p n m v pos lt =
    assign-IsLevels p (add64 (shares_at p m) n) m v (omega arith) (omega arith)

pub shares_at-add_shares :
    (p n q : ℕ) (m : Levels)
    → shares_at p m + n < word_mod
    → shares_at q (add_shares p n m) ≡ (if q == p then shares_at p m + n else shares_at q m)
unfolding add_shares
shares_at-add_shares p n q m lt = rw (shares_at-assign, add64_exact (shares_at p m) n lt)

-- what a removal leaves
pub record Removes (p n : ℕ) (m m' : Levels) : Type 0 where
  pub levels : IsLevels m'
  pub left : (q : ℕ) → shares_at q m' ≡ (if q == p then shares_at p m - n else shares_at q m)

left_over-Removes :
    (p n held : ℕ) (m : Levels)
    → IsLevels m
    → 0 < n
    → lookup p m ≡ some held
    → n ≤ held
    → Removes p n m (if sub64 held n == 0 then erase p m else assign p (sub64 held n) m)
left_over-Removes p n held m v pos e le =
    let lt = (v.shown p held e).1 in
    let here : shares_at p m ≡ held = unfold shares_at in rw (e, shares_at) in
    elim (Bool-cases (sub64 held n == 0)) [
      | inl gone ↦ rw gone (record {
        levels = erase-IsLevels p m v;
        left = λ q. ground (arith, shares_at-erase p q m v.sorted);
      })
      | inr kept ↦ rw kept (record {
        levels = assign-IsLevels p (sub64 held n) m v (ground arith) (omega arith);
        left = λ q. ground (arith, shares_at-assign p (sub64 held n) q m);
      })
    ]

pub remove_shares-Removes :
    (p n : ℕ) (m : Levels)
    → IsLevels m
    → 0 < n
    → n ≤ shares_at p m
    → (m' : Levels) × (remove_shares p n m ≡ some m') × Removes p n m m'
unfolding remove_shares shares_at
remove_shares-Removes p n m v pos le = elim (Option-cases (lookup p m)) [
  | inl e ↦ absurd (ground arith)
  | inr (held, e) ↦ (_, rw (e, remove_shares), left_over-Removes p n held m v pos e (ground arith))
]

pub remove_shares-none :
    (p n : ℕ) (m : Levels) → IsLevels m → (remove_shares p n m ≡ none) ↔ (shares_at p m ≡ 0)
unfolding remove_shares shares_at
remove_shares-none p n m v = elim (Option-cases (lookup p m)) [
  | inl e ↦ ground arith
  | inr (held, e) ↦ ground (arith, v.shown p held e)
]
