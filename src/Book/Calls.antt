-- ===== src/Book/Calls.antt =====
-- include/book/order_book.h and src/book/order_book.cpp: what each call does to the depth.
use mathlib.Core.Option
use itch_order_book.Common.{
  ℕ, ◌+◌, ◌-◌, ◌≤◌, ◌<◌, ◌≡◌, refl, none, some, arith, ◌==◌, if◌then◌else◌, word_mod, ◌&&◌, Bool,
  ◌↔◌,
}
use itch_order_book.Book.{
  Levels, Side, buy, sell, OrderBook, get_order_side, set_order_side, shares_at, add_shares,
  remove_shares, add_order, execute_order, cancel_order, delete_order,
}
use itch_order_book.Book.Depth.{
  same_side, depth, IsValid, side-IsLevels, set_order_side-IsValid, shares_at-set_order_side,
  add_shares-IsLevels, shares_at-add_shares, Removes, remove_shares-Removes, remove_shares-none,
}

-- two nested tests, the inner one met only on the same side, as one
pub same_side_if :
    (s t : Side) (c : Bool) (f : Side → ℕ) (x : ℕ)
    → (if same_side t s then (if c then x else f s) else f t)
      ≡ (if same_side t s && c then x else f t)
same_side_if buy buy c f x = refl
same_side_if buy sell c f x = refl
same_side_if sell buy c f x = refl
same_side_if sell sell c f x = refl

pub added-depth :
    (s t : Side) (p n q : ℕ) (b : OrderBook)
    → shares_at p (get_order_side s b) + n < word_mod
    → shares_at q (get_order_side t (set_order_side s (add_shares p n (get_order_side s b)) b)) ≡ (
        if same_side t s && (q == p)
        then shares_at p (get_order_side s b) + n
        else shares_at q (get_order_side t b))
added-depth s t p n q b lt =
    rw (shares_at-set_order_side, shares_at-add_shares p n q (get_order_side s b) lt)
      (same_side_if s t (q == p) (λ z. shares_at q (get_order_side z b)) _)

removed-depth :
    (s t : Side) (p n q : ℕ) (m' : Levels) (b : OrderBook)
    → Removes p n (get_order_side s b) m'
    → shares_at q (get_order_side t (set_order_side s m' b)) ≡ (
        if same_side t s && (q == p)
        then shares_at p (get_order_side s b) - n
        else shares_at q (get_order_side t b))
removed-depth s t p n q m' b r =
    rw (shares_at-set_order_side, r.left q)
      (same_side_if s t (q == p) (λ z. shares_at q (get_order_side z b)) _)

-- what a call that adds shares does: the depth at its side and price grows by them
pub record Deepens (s : Side) (p n : ℕ) (b b' : OrderBook) : Type 0 where
  pub valid : IsValid b'
  pub deeper :
      (t : Side) (q : ℕ)
      → depth b' t q ≡ (if same_side t s && (q == p) then depth b s p + n else depth b t q)

-- what a call that removes shares does: the depth at its side and price falls by them
pub record Thins (s : Side) (p n : ℕ) (b b' : OrderBook) : Type 0 where
  pub valid : IsValid b'
  pub thinner :
      (t : Side) (q : ℕ)
      → depth b' t q ≡ (if same_side t s && (q == p) then depth b s p - n else depth b t q)

-- For a positive number of shares with which the level still fits its word, `add_order` keeps a
-- valid book valid, adds the shares to the depth at its side and price, and leaves the depth
-- everywhere else.
pub add_order_lem :
    (s : Side) (p n : ℕ) (b : OrderBook)
    → IsValid b
    → 0 < n
    → depth b s p + n < word_mod
    → Deepens s p n b (add_order s p n b)
unfolding add_order depth
add_order_lem s p n b v pos lt = record {
  valid =
      set_order_side-IsValid s _ b v
        (add_shares-IsLevels p n (get_order_side s b) (side-IsLevels s b v) pos lt);
  deeper = λ t q. added-depth s t p n q b lt;
}

set_order_side-Thins :
    (s : Side) (p n : ℕ) (m' : Levels) (b : OrderBook)
    → IsValid b
    → Removes p n (get_order_side s b) m'
    → Thins s p n b (set_order_side s m' b)
unfolding depth
set_order_side-Thins s p n m' b v r = record {
  valid = set_order_side-IsValid s m' b v r.levels;
  thinner = λ t q. removed-depth s t p n q m' b r;
}

-- Where the book shows at least a positive number of shares, `execute_order`, `cancel_order` and
-- `delete_order` of that number do not fault, return the same book, keep it valid, take the shares
-- off the depth at that side and price, and leave the depth everywhere else.
pub removal_lem :
    (s : Side) (p n : ℕ) (b : OrderBook)
    → IsValid b
    → 0 < n
    → n ≤ depth b s p
    → (b' : OrderBook) × (execute_order s p n b ≡ some b')
      × (cancel_order s p n b ≡ some b')
      × (delete_order s p n b ≡ some b')
      × Thins s p n b b'
unfolding execute_order cancel_order delete_order depth
removal_lem s p n b v pos le =
    let (m', e, r) = remove_shares-Removes p n (get_order_side s b) (side-IsLevels s b v) pos le in
    (_, rw e, rw e, rw e, set_order_side-Thins s p n m' b v r)

-- In a valid book `execute_order`, `cancel_order` and `delete_order` each reach undefined behaviour
-- exactly when no shares are shown at that side and price.
pub removal_faults :
    (s : Side) (p n : ℕ) (b : OrderBook)
    → IsValid b
    → ((execute_order s p n b ≡ none) ↔ (depth b s p ≡ 0))
      × ((cancel_order s p n b ≡ none) ↔ (depth b s p ≡ 0))
      × ((delete_order s p n b ≡ none) ↔ (depth b s p ≡ 0))
unfolding execute_order cancel_order delete_order depth
removal_faults s p n b v =
    let f = remove_shares-none p n (get_order_side s b) (side-IsLevels s b v) in
    let g : (Option.map (λ m. set_order_side s m b) (remove_shares p n (get_order_side s b)) ≡ none)
        ↔ (shares_at p (get_order_side s b) ≡ 0) =
      (λ h. f.0 (ground arith), λ h. rw (f.1 h)) in
    (g, g, g)
