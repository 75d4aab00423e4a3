-- ===== src/Handler/Consistent.antt =====
-- include/market_data/market_data_handler.h: the book shows exactly what the open orders hold.
use itch_order_book.Common.{ℕ, ◌≤◌, ◌<◌, ◌≡◌, refl, sym, ◌∙◌}
use itch_order_book.Book.{Side, buy, sell, empty_book, lookup, shares_at}
use itch_order_book.Book.Depth.{depth, IsLevels}
use itch_order_book.Book.Depth
use itch_order_book.AddressMap.{OpenAddressMap, new_map}
use itch_order_book.AddressMap.Probe.{Holds}
use itch_order_book.AddressMap.Valid.{IsTable}
use itch_order_book.AddressMap.Find.{IsTable-new_map}
use itch_order_book.Handler.{OrderRecord, Orders}
use itch_order_book.Handler.Resting.{walk, resting, resting-eq-zero, shares-le-resting}

-- every open order has shares left
abbrev pub AllOpen : OpenAddressMap OrderRecord → Type 0
AllOpen m = (i key : ℕ) → Holds walk m.table i key → 0 < (m.table i).value.shares

-- The table and the book are valid, every open order has shares left, and at each side and price
-- the book shows the sum of the shares of the open orders there.
pub record IsConsistent (o : Orders) : Type 0 where
  pub table : IsTable walk o.order_records.table
  pub book : Depth.IsValid o.order_book
  pub live : AllOpen o.order_records
  pub agrees : (s : Side) (p : ℕ) → depth o.order_book s p ≡ resting s p o.order_records.table

-- the book shows at least the shares of each open order at its side and price
pub shares-le-depth :
    (o : Orders) (i key : ℕ)
    → IsConsistent o
    → Holds walk o.order_records.table i key
    → let r = (o.order_records.table i).value in r.shares ≤ depth o.order_book r.side r.price
shares-le-depth o i key c h =
    let r = (o.order_records.table i).value in
    rw (c.agrees r.side r.price) (shares-le-resting o.order_records i key h)

pub empty_depth : (s : Side) (p : ℕ) → depth empty_book s p ≡ 0
unfolding depth shares_at lookup
empty_depth buy p = refl
empty_depth sell p = refl

-- The handler starts consistent: no open order and an empty book.
pub IsConsistent-start :
    (v : OrderRecord) (locate : ℕ)
    → IsConsistent
        (record { order_book = empty_book; order_records = new_map v; cache_stock_locate = locate })
unfolding new_map depth shares_at lookup
IsConsistent-start v locate = record {
  table = IsTable-new_map walk v;
  book = record {
    buys = record { sorted = tt; shown = λ p n h. cc };
    sells = record { sorted = tt; shown = λ p n h. cc };
  };
  live = λ i key h. absurd (cc h.1);
  agrees = λ s p. empty_depth s p ∙ sym (resting-eq-zero s p _ (λ i. refl));
}
