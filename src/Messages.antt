-- ===== src/Messages.antt =====
-- include/market_data/messages.h: the messages that the handler acts on, with their fields as
-- numbers (the value of a BigEndian field) and a stock as its eight characters.
pub mod Decode
pub mod Endian
pub mod Layouts
pub mod Deserialize
mod Tests
use itch_order_book.Common.{ℕ, List}

-- `Stock`, `short_string<8>`
abbrev pub Stock : Type 0
Stock = List ℕ

pub record AddOrderMessage : Type 0 where
  pub order_reference_number : ℕ
  pub buy_sell_indicator : ℕ
  pub shares : ℕ
  pub stock : Stock
  pub price : ℕ

pub record OrderExecutedMessage : Type 0 where
  pub order_reference_number : ℕ
  pub executed_shares : ℕ

pub record OrderCancelMessage : Type 0 where
  pub order_reference_number : ℕ
  pub cancelled_shares : ℕ

pub record OrderDeleteMessage : Type 0 where
  pub order_reference_number : ℕ

pub record OrderReplaceMessage : Type 0 where
  pub original_order_reference_number : ℕ
  pub new_order_reference_number : ℕ
  pub shares : ℕ
  pub price : ℕ

-- `HeaderView`; the tracking number and the timestamp are marked stse::ignore
pub record HeaderView : Type 0 where
  pub message_type : ℕ
  pub stock_locate : ℕ
