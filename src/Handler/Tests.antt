-- ===== src/Handler/Tests.antt =====
-- include/market_data/market_data_handler.h: the theorems on one order, from an empty book.
use itch_order_book.Common.{ℕ, ◌≡◌, refl, ◌∙◌, arith, some, none, [], ◌∷◌, inr}
use itch_order_book.Book.{buy, empty_book, shares_at, lookup}
use itch_order_book.Book.Depth.{depth}
use itch_order_book.AddressMap.{new_map}
use itch_order_book.AddressMap.Probe.{Holds}
use itch_order_book.AddressMap.Find.{IsTable-new_map}
use itch_order_book.AddressMap.View.{view-eq-some, view-eq-none}
use itch_order_book.Messages.{
  Stock, AddOrderMessage, OrderExecutedMessage, OrderCancelMessage, OrderDeleteMessage,
  OrderReplaceMessage,
}
use itch_order_book.Handler.{
  OrderRecord, Orders, ok, capacity, same_stock, add_order, execute_order, cancel_order,
  delete_order, replace_order,
}
use itch_order_book.Handler.Resting.{walk, order_of}
use itch_order_book.Handler.Consistent.{IsConsistent, IsConsistent-start}
use itch_order_book.Handler.Insert.{HasRoom}
use itch_order_book.Handler.Adds.{order_in, Opens, add_order-Opens}
use itch_order_book.Handler.Fills.{Lowers, execute_order_lem, cancel_order_lem}
use itch_order_book.Handler.Lookup.{NullHandle}
use itch_order_book.Handler.Unknown.{unknown-NullHandle}
use itch_order_book.Handler.Replaces.{
  Replaces, order_after, delete_order_lem, replace_order-Replaces,
}

abbrev tsla : Stock
tsla = b'T' ∷ b'S' ∷ b'L' ∷ b'A' ∷ b' ' ∷ b' ' ∷ b' ' ∷ b' ' ∷ []

abbrev blank : OrderRecord
blank = record { side = buy; price = 0; shares = 0 }

abbrev start : Orders
start = record { order_book = empty_book; order_records = new_map blank; cache_stock_locate = 0 }

start-IsConsistent : IsConsistent start
start-IsConsistent = IsConsistent-start blank 0

start-none : (key : ℕ) → order_of start.order_records key ≡ none
unfolding new_map
start-none key =
    view-eq-none walk (new_map blank) key (IsTable-new_map walk blank) (λ i h. absurd (cc h.1))

start-HasRoom : HasRoom start.order_records
unfolding new_map capacity
start-HasRoom = record { slot = 0; inside = omega arith; free = λ h. cc }

-- 300 shares of an order 7 to buy at 1000
abbrev bid : AddOrderMessage
bid = record {
  order_reference_number = 7;
  buy_sell_indicator = b'B';
  shares = 300;
  stock = tsla;
  price = 1000;
}

add_order-Opens_example :
    (o : Orders) × (add_order tsla 5 bid start ≡ ok o)
    × Opens 7 (order_in bid) start o
    × (o.cache_stock_locate ≡ 5)
unfolding same_stock depth shares_at lookup
add_order-Opens_example =
    add_order-Opens tsla 5 bid start start-IsConsistent refl (start-none 7) start-HasRoom
      (omega arith) (omega arith)

-- the state with the bid
abbrev resting_bid : Orders
resting_bid = add_order-Opens_example.0

bid-Opens : Opens 7 (order_in bid) start resting_bid
bid-Opens = add_order-Opens_example.2

bid_open : order_of resting_bid.order_records 7 ≡ some (order_in bid)
bid_open = bid-Opens.orders 7

abbrev trade : OrderExecutedMessage
trade = record { order_reference_number = 7; executed_shares = 300 }

execute_order_lem_example :
    (o : Orders) × (execute_order trade resting_bid ≡ ok o)
    × Lowers 7 300 (order_in bid) resting_bid o
execute_order_lem_example =
    execute_order_lem resting_bid trade (order_in bid) bid-Opens.consistent bid_open (omega arith)
      (omega arith)

abbrev partial_cancel : OrderCancelMessage
partial_cancel = record { order_reference_number = 7; cancelled_shares = 100 }

cancel_order_lem_example :
    (o : Orders) × (cancel_order partial_cancel resting_bid ≡ ok o)
    × Lowers 7 100 (order_in bid) resting_bid o
cancel_order_lem_example =
    cancel_order_lem resting_bid partial_cancel (order_in bid) bid-Opens.consistent bid_open
      (omega arith) (omega arith)

delete_order_lem_example :
    (o : Orders) × (delete_order (record { order_reference_number = 7 }) resting_bid ≡ ok o)
    × Lowers 7 300 (order_in bid) resting_bid o
delete_order_lem_example =
    delete_order_lem resting_bid (record { order_reference_number = 7 }) (order_in bid)
      bid-Opens.consistent bid_open

abbrev amendment : OrderReplaceMessage
amendment = record {
  original_order_reference_number = 7;
  new_order_reference_number = 8;
  shares = 50;
  price = 990;
}

bid_only : order_of resting_bid.order_records 8 ≡ none
bid_only = bid-Opens.orders 8 ∙ start-none 8

bid_depth : depth resting_bid.order_book buy 990 ≡ 0
unfolding depth shares_at lookup
bid_depth = bid-Opens.deeper buy 990

replace_order-Replaces_example :
    (o : Orders) × (replace_order amendment resting_bid ≡ ok o)
    × Replaces 7 8 (order_in bid) (order_after (order_in bid) amendment) resting_bid o
replace_order-Replaces_example =
    replace_order-Replaces resting_bid amendment (order_in bid) bid-Opens.consistent bid_open
      (inr bid_only) (omega arith) (omega (arith, bid_depth))

bid_only_slot : (i : ℕ) → ¬ Holds walk resting_bid.order_records.table i 8
bid_only_slot i h =
    let there = view-eq-some walk resting_bid.order_records 8 i bid-Opens.consistent.table h in
    cc (there, bid_only)

unknown-NullHandle_example :
    ((message : OrderExecutedMessage)
      → message.order_reference_number ≡ 8
      → NullHandle resting_bid 8 (execute_order message resting_bid))
    × ((message : OrderCancelMessage)
        → message.order_reference_number ≡ 8
        → NullHandle resting_bid 8 (cancel_order message resting_bid))
    × ((message : OrderDeleteMessage)
        → message.order_reference_number ≡ 8
        → NullHandle resting_bid 8 (delete_order message resting_bid))
    × ((message : OrderReplaceMessage)
        → message.original_order_reference_number ≡ 8
        → NullHandle resting_bid 8 (replace_order message resting_bid))
unknown-NullHandle_example = unknown-NullHandle resting_bid 8 bid-Opens.consistent bid_only_slot
