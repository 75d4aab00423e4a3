-- ===== src/Handler/Adds.antt =====
-- include/market_data/market_data_handler.h: `add_order`.
use itch_order_book.Common.{
  ℕ, ◌+◌, ◌<◌, ◌≡◌, refl, arith, none, some, word_mod, true, false, ◌==◌, if◌then◌else◌, ◌&&◌,
}
use itch_order_book.Book
use itch_order_book.Book.{Side, buy, sell}
use itch_order_book.Book.Depth.{depth, same_side, depth-same}
use itch_order_book.Book.Calls.{add_order_lem}
use itch_order_book.AddressMap.{OpenAddressMap}
use itch_order_book.Messages.{Stock, AddOrderMessage}
use itch_order_book.Handler.{OrderRecord, Orders, ok, same_stock, side_of, add_order}
use itch_order_book.Handler.Resting.{order_of, open_count}
use itch_order_book.Handler.Consistent.{IsConsistent}
use itch_order_book.Handler.Insert.{HasRoom, Inserts, assign-Inserts}

-- the record that an add message opens: to buy where the indicator is 'B', and to sell otherwise
abbrev pub order_in : AddOrderMessage → OrderRecord
order_in message = record {
  side = if message.buy_sell_indicator == b'B' then buy else sell;
  price = message.price;
  shares = message.shares;
}

-- A new order `r` stands under `key`; no other order changes, the book gains its shares at its side
-- and price alone, and the state stays consistent.
pub record Opens (key : ℕ) (r : OrderRecord) (o o' : Orders) : Type 0 where
  pub consistent : IsConsistent o'
  pub orders :
      (q : ℕ)
      → order_of o'.order_records q ≡ (if q == key then some r else order_of o.order_records q)
  pub deeper :
      (s : Side) (p : ℕ)
      → depth o'.order_book s p ≡ (
          if same_side s r.side && (p == r.price)
          then depth o.order_book r.side r.price + r.shares
          else depth o.order_book s p)
  pub counts : open_count o'.order_records.table ≡ open_count o.order_records.table + 1

add_order-run :
    (target : Stock) (locate : ℕ) (message : AddOrderMessage) (o : Orders)
    (m' : OpenAddressMap OrderRecord)
    → same_stock message.stock target ≡ true
    → Inserts message.order_reference_number (order_in message) o.order_records m'
    → add_order target locate message o
      ≡ ok (record {
        order_book =
            Book.add_order
              (side_of message.buy_sell_indicator)
              message.price
              message.shares
              o.order_book;
        order_records = m';
        cache_stock_locate = locate;
      })
unfolding add_order
add_order-run target locate message o m' same i = rw (same, i.runs)

-- An order for the target stock under a reference that is not open, with shares that fit the level,
-- and room in the table: `add_order` does not fault. It opens the order, to buy where the indicator
-- is 'B' and to sell otherwise, adds its shares to the book at that side, remembers the stock's
-- locate code and keeps the state consistent.
pub add_order-Opens :
    (target : Stock) (locate : ℕ) (message : AddOrderMessage) (o : Orders)
    → IsConsistent o
    → same_stock message.stock target ≡ true
    → order_of o.order_records message.order_reference_number ≡ none
    → HasRoom o.order_records
    → 0 < message.shares
    → depth o.order_book (order_in message).side message.price + message.shares < word_mod
    → (o' : Orders) × (add_order target locate message o ≡ ok o')
      × Opens message.order_reference_number (order_in message) o o'
      × (o'.cache_stock_locate ≡ locate)
add_order-Opens target locate message o c same fresh room pos fits =
    let r = order_in message in
    let (m', i) =
      assign-Inserts message.order_reference_number r o.order_records c.table fresh room in
    let d = add_order_lem r.side r.price r.shares o.order_book c.book pos fits in
    (
      _,
      add_order-run target locate message o m' same i,
      record {
        consistent = record {
          table = i.table;
          book = d.valid;
          live = i.live c.live pos;
          agrees = λ s p. ground (
            arith,
            i.rests s p,
            d.deeper s p,
            c.agrees s p,
            depth-same o.order_book s r.side p r.price,
          );
        };
        orders = i.orders;
        deeper = d.deeper;
        counts = i.counts;
      },
      refl,
    )

-- A message for another stock changes nothing.
pub add_order-other :
    (target : Stock) (locate : ℕ) (message : AddOrderMessage) (o : Orders)
    → same_stock message.stock target ≡ false
    → add_order target locate message o ≡ ok o
unfolding add_order
add_order-other target locate message o other = rw other
