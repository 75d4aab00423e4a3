-- ===== src/Handler.antt =====
-- include/market_data/market_data_handler.h: the order messages against the records of open orders
-- and the book. The latency recorders are left out: they read the clock and change nothing else.
pub mod Resting
pub mod Consistent
pub mod Reduce
pub mod Lookup
pub mod Fills
pub mod Insert
pub mod Adds
pub mod Replaces
pub mod Polling
pub mod Framing
pub mod View
pub mod Unknown
pub mod Replay
pub mod Market
mod Tests
pub mod PacketTests
mod ViewTests
use mathlib.Core.List.{List}
use itch_order_book.Common.{
  ℕ, zero, suc, ◌+◌, ◌^◌, Bool, true, false, ◌&&◌, Option, none, some, [], ◌∷◌, ◌==◌, if◌then◌else◌,
  sub64,
}
use itch_order_book.Book
use itch_order_book.Book.{Side, buy, sell, OrderBook, empty_book}
use itch_order_book.AddressMap
use itch_order_book.AddressMap.{OpenAddressMap, Slot, Result, linear_next, new_map}
use itch_order_book.Messages.{
  Stock, AddOrderMessage, OrderExecutedMessage, OrderCancelMessage, OrderDeleteMessage,
  OrderReplaceMessage,
}

-- a handler's step: it returns, dereferences a null handle or a missing price level, throws
-- MapSaturatedException, or uses up the rounds of a probe
pub data Run {ℓ} (A : Type ℓ) : Type ℓ where
  ok : A → Run A
  undefined : Run A
  saturated : Run A
  spinning : Run A

infixl 5 ◌>>=◌
abbrev pub ◌>>=◌ {ℓ κ} : {A : Type ℓ} {B : Type κ} → Run A → (A → Run B) → Run B
ok a >>= f = f a
undefined >>= f = undefined
saturated >>= f = saturated
spinning >>= f = spinning

-- a call of the map, and a call of the book
abbrev pub of_map {ℓ} : {A : Type ℓ} → Result A → Run A
of_map (Result.done a) = ok a
of_map Result.saturated = saturated
of_map Result.spinning = spinning

abbrev pub of_option {ℓ} : {A : Type ℓ} → Option A → Run A
of_option none = undefined
of_option (some a) = ok a

-- `OrderRecord`
pub record OrderRecord : Type 0 where
  pub side : Side
  pub price : ℕ
  pub shares : ℕ

-- the members that the order messages change
pub record Orders : Type 0 where
  pub order_book : OrderBook
  pub order_records : OpenAddressMap OrderRecord
  pub cache_stock_locate : ℕ

-- the table's Capacity, `1 << 16`
unfoldable pub capacity : ℕ
capacity = 2 ^ 16

-- the equality of `std::array<char, 8>`
unfoldable pub same_stock : Stock → Stock → Bool
same_stock [] [] = true
same_stock [] (d ∷ ds) = false
same_stock (c ∷ cs) [] = false
same_stock (c ∷ cs) (d ∷ ds) = (c == d) && same_stock cs ds

-- `'B' ? BUY : SELL`
abbrev pub side_of : ℕ → Side
side_of indicator = if indicator == b'B' then buy else sell

-- `auto& [side, price, shares] = *order_entry` after `find`: the slot and the table
unfoldable pub dereference : ℕ → OpenAddressMap OrderRecord → Run (ℕ × OpenAddressMap OrderRecord)
dereference key m =
    of_map (AddressMap.find capacity linear_next key m) >>= λ r. of_option r.0 >>= λ i. ok (i, r.1)

unfoldable pub add_order : Stock → ℕ → AddOrderMessage → Orders → Run Orders
add_order target stock_locate message o =
    let side = side_of message.buy_sell_indicator in
    let placed =
      of_map (
        AddressMap.assign capacity linear_next message.order_reference_number
          (record { side = side; price = message.price; shares = message.shares }) o.order_records)
      >>= λ records. ok (record {
        order_book = Book.add_order side message.price message.shares o.order_book;
        order_records = records;
        cache_stock_locate = stock_locate;
      }) in
    if same_stock message.stock target then placed else ok o

unfoldable pub execute_order : OrderExecutedMessage → Orders → Run Orders
execute_order message o = do
  (i, found) ← dereference message.order_reference_number o.order_records
  let entry = (found.table i).value
  let left = sub64 entry.shares message.executed_shares
  let records = AddressMap.write_at i (record entry { shares = left }) found
  book ← of_option (Book.execute_order entry.side entry.price message.executed_shares o.order_book)
  ok (record o {
    order_book = book;
    order_records = if left == 0 then AddressMap.erase_at capacity i records else records;
  })

-- the record is erased before the book changes; the erased slot still holds side and price
unfoldable pub cancel_order : OrderCancelMessage → Orders → Run Orders
cancel_order message o = do
  (i, found) ← dereference message.order_reference_number o.order_records
  let entry = (found.table i).value
  let left = sub64 entry.shares message.cancelled_shares
  let records = AddressMap.write_at i (record entry { shares = left }) found
  let records' = if left == 0 then AddressMap.erase_at capacity i records else records
  let entry' = (records'.table i).value
  book ←
      of_option (Book.cancel_order entry'.side entry'.price message.cancelled_shares o.order_book)
  ok (record o { order_book = book; order_records = records' })

unfoldable pub delete_order : OrderDeleteMessage → Orders → Run Orders
delete_order message o = do
  (i, found) ← dereference message.order_reference_number o.order_records
  let entry = (found.table i).value
  let records = AddressMap.erase_at capacity i found
  book ← of_option (Book.cancel_order entry.side entry.price entry.shares o.order_book)
  ok (record o { order_book = book; order_records = records })

unfoldable pub replace_order : OrderReplaceMessage → Orders → Run Orders
replace_order message o = do
  (i, found) ← dereference message.original_order_reference_number o.order_records
  let entry = (found.table i).value
  let records = AddressMap.erase_at capacity i found
  records' ← of_map (
      AddressMap.assign capacity linear_next message.new_order_reference_number
        (record { side = entry.side; price = message.price; shares = message.shares }) records)
  book ← of_option (
      Book.replace_order entry.side entry.price entry.shares message.price message.shares
        o.order_book)
  ok (record o { order_book = book; order_records = records' })
