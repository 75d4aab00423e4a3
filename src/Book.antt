-- ===== src/Book.antt =====
-- include/book/order_book.h and src/book/order_book.cpp: the price levels of one symbol.
-- `none` is undefined behaviour: `entry->second` at the end iterator.
mod PriceMap
pub mod Depth
pub mod Calls
pub mod Exchange
mod Tests
pub use PriceMap.{
  Levels, Above, IsSorted, lookup_self, lookup-assign, lookup-erase, assign-IsSorted,
  erase-IsSorted, erase-assign, assign-assign,
}
unfoldable pub use PriceMap.{lookup, assign, erase}
use mathlib.Core.Option
use itch_order_book.Common.{ℕ, Option, none, some, [], ◌==◌, if◌then◌else◌, add64, sub64}

-- `enum class side_t`
pub data Side : Type 0 where
  buy sell : Side

-- `buy_` and `sell_`
pub record OrderBook : Type 0 where
  pub buys : Levels
  pub sells : Levels

abbrev pub empty_book : OrderBook
empty_book = record { buys = []; sells = [] }

-- `get_order_side`, read
abbrev pub get_order_side : Side → OrderBook → Levels
get_order_side buy b = b.buys
get_order_side sell b = b.sells

-- what is written through the reference that `get_order_side` returns
abbrev pub set_order_side : Side → Levels → OrderBook → OrderBook
set_order_side buy m b = record b { buys = m }
set_order_side sell m b = record b { sells = m }

-- the shares at a price; `m[price]` value-initialises a missing entry to 0
unfoldable pub shares_at : ℕ → Levels → ℕ
shares_at p m = elim (lookup p m) [ none ↦ 0 | some n ↦ n ]

-- `m[price] += shares`
unfoldable pub add_shares : ℕ → ℕ → Levels → Levels
add_shares price shares m = assign price (add64 (shares_at price m) shares) m

unfoldable pub remove_shares : ℕ → ℕ → Levels → Option Levels
remove_shares price shares m = elim (lookup price m) [
  | none ↦ none
  | some held ↦
      let left = sub64 held shares in
      some (if left == 0 then erase price m else assign price left m)
]

unfoldable pub add_order : Side → ℕ → ℕ → OrderBook → OrderBook
add_order side price shares b =
    set_order_side side (add_shares price shares (get_order_side side b)) b

-- the three calls that only remove shares
abbrev pub remove_order : Side → ℕ → ℕ → OrderBook → Option OrderBook
remove_order side price shares b =
    Option.map (λ m. set_order_side side m b) (remove_shares price shares (get_order_side side b))

unfoldable pub execute_order : Side → ℕ → ℕ → OrderBook → Option OrderBook
execute_order side price executed_shares b = remove_order side price executed_shares b

unfoldable pub cancel_order : Side → ℕ → ℕ → OrderBook → Option OrderBook
cancel_order side price cancelled_shares b = remove_order side price cancelled_shares b

unfoldable pub delete_order : Side → ℕ → ℕ → OrderBook → Option OrderBook
delete_order side price deleted_shares b = remove_order side price deleted_shares b

unfoldable pub replace_order : Side → ℕ → ℕ → ℕ → ℕ → OrderBook → Option OrderBook
replace_order side old_price old_shares new_price new_shares b =
    Option.map (λ m. set_order_side side (add_shares new_price new_shares m) b)
      (remove_shares old_price old_shares (get_order_side side b))
