-- ===== src/Handler/Market.antt =====
-- include/market_data/market_data_handler.h: what the handler promises, without a table or a book:
-- a list of the open orders, and what each message does to it.
pub mod Laws
pub mod Shows
pub mod Refines
pub mod Session
pub mod Work
pub mod Tests
use itch_order_book.Common.{
  ℕ, ◌+◌, ◌-◌, ◌≤◌, ◌<◌, ◌≡◌, ◌⊎◌, Option, none, some, true, false, List, [], ◌∷◌, length, word_mod,
  ◌==◌, if◌then◌else◌,
}
use itch_order_book.Book.{Side}
use itch_order_book.Messages.{
  Stock, AddOrderMessage, OrderExecutedMessage, OrderCancelMessage, OrderDeleteMessage,
  OrderReplaceMessage,
}
use itch_order_book.Handler.{
  OrderRecord, Orders, Run, capacity, same_stock, add_order, execute_order, cancel_order,
  delete_order, replace_order,
}
use itch_order_book.Handler.Resting.{weight_of}
use itch_order_book.Handler.Adds.{order_in}
use itch_order_book.Handler.Replaces.{order_after}

-- the open orders, each under its reference number
abbrev pub OpenOrders : Type 0
OpenOrders = List (ℕ × OrderRecord)

unfoldable pub find_order : ℕ → OpenOrders → Option OrderRecord
find_order key [] = none
find_order key ((k, r) ∷ m) = if k == key then some r else find_order key m

unfoldable pub remove_order : ℕ → OpenOrders → OpenOrders
remove_order key [] = []
remove_order key ((k, r) ∷ m) =
    let rest = remove_order key m in if k == key then rest else (k, r) ∷ rest

-- the order `r` under `key` with `n` shares fewer, which closes it if none are left
unfoldable pub lower_order : ℕ → OrderRecord → ℕ → OpenOrders → OpenOrders
lower_order key r n m =
    if r.shares - n == 0
    then remove_order key m
    else (key, record r { shares = r.shares - n }) ∷ remove_order key m

-- the shares of the open orders at a side and a price
unfoldable pub shares_of : Side → ℕ → OpenOrders → ℕ
shares_of s p [] = 0
shares_of s p ((k, r) ∷ m) = weight_of s p r + shares_of s p m

-- the open orders of the target stock, and the stock's locate code
pub record Market : Type 0 where
  pub orders : OpenOrders
  pub locate : ℕ

-- the messages of `simulate_message`, an add message with the locate code of its header
pub data Message : Type 0 where
  add : ℕ → AddOrderMessage → Message
  execute : OrderExecutedMessage → Message
  cancel : OrderCancelMessage → Message
  delete : OrderDeleteMessage → Message
  replace : OrderReplaceMessage → Message

-- the handler of each message
unfoldable pub act : Stock → Message → Orders → Run Orders
act target (add locate message) o = add_order target locate message o
act target (execute message) o = execute_order message o
act target (cancel message) o = cancel_order message o
act target (delete message) o = delete_order message o
act target (replace message) o = replace_order message o

-- what an exchange's message may do: it names an order that is open, or opens one whose reference
-- is new, takes no more shares than the order has, and fits the words and the table of the handler
pub data Changes (target : Stock) : Message → Market → Market → Type 0 where
  opens :
      {locate : ℕ} {message : AddOrderMessage} {m : Market}
      → same_stock message.stock target ≡ true
      → find_order message.order_reference_number m.orders ≡ none
      → length m.orders < capacity
      → 0 < message.shares
      → shares_of (order_in message).side message.price m.orders + message.shares < word_mod
      → Changes target (add locate message) m (record {
        orders = (message.order_reference_number, order_in message) ∷ m.orders;
        locate = locate;
      })
  other_stock :
      {locate : ℕ} {message : AddOrderMessage} {m : Market}
      → same_stock message.stock target ≡ false
      → Changes target (add locate message) m m
  executes :
      {message : OrderExecutedMessage} {m : Market} (r : OrderRecord)
      → find_order message.order_reference_number m.orders ≡ some r
      → 0 < message.executed_shares
      → message.executed_shares ≤ r.shares
      → Changes target (execute message) m (record m {
        orders = lower_order message.order_reference_number r message.executed_shares m.orders;
      })
  cancels :
      {message : OrderCancelMessage} {m : Market} (r : OrderRecord)
      → find_order message.order_reference_number m.orders ≡ some r
      → 0 < message.cancelled_shares
      → message.cancelled_shares ≤ r.shares
      → Changes target (cancel message) m (record m {
        orders = lower_order message.order_reference_number r message.cancelled_shares m.orders;
      })
  deletes :
      {message : OrderDeleteMessage} {m : Market} (r : OrderRecord)
      → find_order message.order_reference_number m.orders ≡ some r
      → Changes target
          (delete message)
          m
          (record m { orders = remove_order message.order_reference_number m.orders })
  replaces :
      {message : OrderReplaceMessage} {m : Market} (r : OrderRecord)
      → find_order message.original_order_reference_number m.orders ≡ some r
      → (message.new_order_reference_number ≡ message.original_order_reference_number)
        ⊎ (find_order message.new_order_reference_number m.orders ≡ none)
      → 0 < message.shares
      → shares_of r.side message.price m.orders + message.shares < word_mod
      → Changes target (replace message) m (record m {
        orders =
            (message.new_order_reference_number, order_after r message)
            ∷ remove_order message.original_order_reference_number m.orders;
      })
