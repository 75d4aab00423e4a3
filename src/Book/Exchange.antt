-- ===== src/Book/Exchange.antt =====
-- src/book/order_book.cpp: calls in a row, and the two halves of `replace_order`.
use itch_order_book.Common.{
  ℕ, ◌+◌, ◌-◌, ◌≤◌, ◌<◌, ◌≡◌, refl, some, arith, ◌==◌, if◌then◌else◌, add64, word_mod, Option-cases,
  inl, inr, ap,
}
use itch_order_book.Book.{
  Levels, lookup, lookup-assign, erase-assign, assign-assign, Side, buy, sell, OrderBook,
  get_order_side, set_order_side, shares_at, add_shares, remove_shares, add_order, cancel_order,
  replace_order,
}
use itch_order_book.Book.Depth.{
  same_side, depth, IsLevels, IsValid, side-IsLevels, set_order_side-IsValid, add_shares-IsLevels,
  shares_at-add_shares, remove_shares-Removes,
}

-- what a replacement does at its side; the two prices may be the same
pub record Moves (s : Side) (p n p' n' : ℕ) (b b' : OrderBook) : Type 0 where
  pub valid : IsValid b'
  pub moved :
      (t : Side) (q : ℕ)
      → depth b' t q ≡ (
          if same_side t s
          then (if q == p then depth b t q - n else depth b t q) + (if q == p' then n' else 0)
          else depth b t q)

replaced-depth :
    (s t : Side) (p n p' n' q : ℕ) (m : Levels) (b : OrderBook)
    → ((r : ℕ)
        → shares_at r m ≡ (
            if r == p
            then shares_at p (get_order_side s b) - n
            else shares_at r (get_order_side s b)))
    → shares_at p' m + n' < word_mod
    → shares_at q (get_order_side t (set_order_side s (add_shares p' n' m) b)) ≡ (
        if same_side t s
        then (if q == p
            then shares_at q (get_order_side t b) - n
            else shares_at q (get_order_side t b))
          + (if q == p' then n' else 0)
        else shares_at q (get_order_side t b))
replaced-depth buy buy p n p' n' q m b left lt =
    ground (arith, shares_at-add_shares p' n' q m lt, left q)
replaced-depth buy sell p n p' n' q m b left lt = refl
replaced-depth sell buy p n p' n' q m b left lt = refl
replaced-depth sell sell p n p' n' q m b left lt =
    ground (arith, shares_at-add_shares p' n' q m lt, left q)

pub replace_order_lem :
    (s : Side) (p n p' n' : ℕ) (b : OrderBook)
    → IsValid b
    → 0 < n
    → n ≤ depth b s p
    → 0 < n'
    → depth b s p' + n' < word_mod
    → (b' : OrderBook) × (replace_order s p n p' n' b ≡ some b') × Moves s p n p' n' b b'
unfolding replace_order depth
replace_order_lem s p n p' n' b v pos le pos' lt =
    let (m, e, r) = remove_shares-Removes p n (get_order_side s b) (side-IsLevels s b v) pos le in
    let fits : shares_at p' m + n' < word_mod = ground (arith, r.left p') in
    (
      _,
      rw e,
      record {
        valid = set_order_side-IsValid s _ b v (add_shares-IsLevels p' n' m r.levels pos' fits);
        moved = λ t q. replaced-depth s t p n p' n' q m b r.left fits;
      },
    )

remove_shares-add_shares :
    (p n : ℕ) (m : Levels)
    → IsLevels m
    → 0 < n
    → shares_at p m + n < word_mod
    → remove_shares p n (add_shares p n m) ≡ some m
unfolding remove_shares add_shares shares_at
remove_shares-add_shares p n m v pos lt = elim (Option-cases (lookup p m)) [
  | inl e ↦ ground (arith, lookup-assign p n p m, erase-assign p n m e)
  | inr (held, e) ↦ ground (
    arith,
    lookup-assign p (add64 held n) p m,
    v.shown p held e,
    assign-assign p (add64 held n) held m v.sorted e,
  )
]

set-set_order_side :
    (s : Side) (m : Levels) (b : OrderBook)
    → (get_order_side s (set_order_side s m b) ≡ m)
      × (set_order_side s (get_order_side s b) (set_order_side s m b) ≡ b)
set-set_order_side buy m b = (refl, refl)
set-set_order_side sell m b = (refl, refl)

-- Adding a positive number of shares that fits its level, and cancelling them again, gives back the
-- same book, entry for entry: a level that was made for them is gone.
pub cancel_order-add_order :
    (s : Side) (p n : ℕ) (b : OrderBook)
    → IsValid b
    → 0 < n
    → depth b s p + n < word_mod
    → cancel_order s p n (add_order s p n b) ≡ some b
unfolding cancel_order add_order depth
cancel_order-add_order s p n b v pos lt =
    rw
      (
        (set-set_order_side s _ b).0,
        remove_shares-add_shares p n (get_order_side s b) (side-IsLevels s b v) pos lt,
      )
      (ap some (set-set_order_side s _ b).1)
