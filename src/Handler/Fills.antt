-- ===== src/Handler/Fills.antt =====
-- include/market_data/market_data_handler.h: `execute_order` and `cancel_order`, which take shares
-- off an open order.
use itch_order_book.Common.{
  ℕ, ◌+◌, ◌-◌, ◌≤◌, ◌<◌, ◌≡◌, refl, ◌∙◌, ap, subst, arith, Option, none, some, ◌==◌, if◌then◌else◌,
  ◌&&◌, sub64,
}
use itch_order_book.Book
use itch_order_book.Book.{Side, OrderBook}
use itch_order_book.Book.Depth.{depth, depth-same, same_side}
use itch_order_book.Book.Calls.{Thins, removal_lem}
use itch_order_book.AddressMap.{OpenAddressMap}
use itch_order_book.Messages.{OrderExecutedMessage, OrderCancelMessage}
use itch_order_book.Handler.{
  OrderRecord, Orders, ok, ◌>>=◌, dereference, execute_order, cancel_order,
}
use itch_order_book.Handler.Resting.{order_of, weight_of, resting, open_count}
use itch_order_book.Handler.Consistent.{IsConsistent}
use itch_order_book.Handler.Reduce.{reduced, Reduces, reduced-Reduces}
use itch_order_book.Handler.Lookup.{Finds, dereference_lem, depth-lt}

-- the order after `n` of its shares are gone
abbrev pub rest_of : OrderRecord → ℕ → Option OrderRecord
rest_of r n = if r.shares - n == 0 then none else some (record r { shares = r.shares - n })

-- The order under `key` loses `n` shares, and is closed if none are left; no other order changes,
-- the book loses them at the order's side and price alone, and the state stays consistent.
pub record Lowers (key n : ℕ) (r : OrderRecord) (o o' : Orders) : Type 0 where
  pub consistent : IsConsistent o'
  pub orders :
      (q : ℕ)
      → order_of o'.order_records q ≡ (if q == key then rest_of r n else order_of o.order_records q)
  pub thinner :
      (s : Side) (p : ℕ)
      → depth o'.order_book s p ≡ (
          if same_side s r.side && (p == r.price)
          then depth o.order_book r.side r.price - n
          else depth o.order_book s p)
  pub counts :
      open_count o'.order_records.table + (if r.shares - n == 0 then 1 else 0)
      ≡ open_count o.order_records.table
  pub locate : o'.cache_stock_locate ≡ o.cache_stock_locate

module _ (o : Orders) (key n i : ℕ) (r : OrderRecord) (found : OpenAddressMap OrderRecord)
    (f : Finds o key r i found) (le : n ≤ r.shares) (b : OrderBook)
    (t : Thins r.side r.price n o.order_book b) where
  abbrev left : ℕ
  left = r.shares - n

  lowered-Reduces : Reduces key left i found (reduced left i found)
  lowered-Reduces = reduced-Reduces key left i found f.table f.holds f.live

  lowered-agrees : (s : Side) (p : ℕ) → depth b s p ≡ resting s p (reduced left i found).table
  lowered-agrees s p =
      let rests =
        subst
          (λ (x : OrderRecord).
            resting s p (reduced left i found).table + weight_of s p x
            ≡ resting s p found.table + weight_of s p (record x { shares = left }))
          f.value (lowered-Reduces.rests s p) in
      ground (
        arith,
        rests,
        t.thinner s p,
        f.agrees s p,
        f.enough,
        f.positive,
        depth-same o.order_book s r.side p r.price,
      )

  lowered-Lowers :
      Lowers key n r o (record o { order_book = b; order_records = reduced left i found })
  lowered-Lowers =
      let d = lowered-Reduces in
      record {
        consistent = record {
          table = d.table;
          book = t.valid;
          live = d.live;
          agrees = lowered-agrees;
        };
        orders = λ q.
            d.orders q
            ∙ ap
                (λ x.
                  if q == key
                  then (if left == 0 then none else some (record x { shares = left }))
                  else order_of found q)
                f.value
            ∙ ap (λ x. if q == key then rest_of r n else x) (f.orders q);
        thinner = t.thinner;
        counts = d.counts ∙ f.counts;
        locate = refl;
      }

-- what `shares -= n` is where the order has that many
exact_left :
    (o : Orders) (key n i : ℕ) (r : OrderRecord) (found : OpenAddressMap OrderRecord)
    → IsConsistent o
    → Finds o key r i found
    → n ≤ r.shares
    → sub64 r.shares n ≡ r.shares - n
exact_left o key n i r found c f le =
    omega (arith, f.enough, depth-lt o.order_book r.side r.price c.book)

execute_order-run :
    (o : Orders) (message : OrderExecutedMessage) (r : OrderRecord) (i : ℕ)
    (found : OpenAddressMap OrderRecord) (b : OrderBook)
    → let n = message.executed_shares in
      dereference message.order_reference_number o.order_records ≡ ok (i, found)
      → (found.table i).value ≡ r
      → sub64 r.shares n ≡ r.shares - n
      → Book.execute_order r.side r.price n o.order_book ≡ some b
      → execute_order message o
        ≡ ok (record o { order_book = b; order_records = reduced (r.shares - n) i found })
unfolding execute_order
execute_order-run o message r i found b run value left book = rw (run, value, left, book)

cancel_order-run :
    (o : Orders) (message : OrderCancelMessage) (r : OrderRecord) (i : ℕ)
    (found : OpenAddressMap OrderRecord) (b : OrderBook)
    → let n = message.cancelled_shares in
      dereference message.order_reference_number o.order_records ≡ ok (i, found)
      → (found.table i).value ≡ r
      → sub64 r.shares n ≡ r.shares - n
      → ((reduced (r.shares - n) i found).table i).value.side ≡ r.side
      → ((reduced (r.shares - n) i found).table i).value.price ≡ r.price
      → Book.cancel_order r.side r.price n o.order_book ≡ some b
      → cancel_order message o
        ≡ ok (record o { order_book = b; order_records = reduced (r.shares - n) i found })
unfolding cancel_order
cancel_order-run o message r i found b run value left side price book =
    rw (run, ◌>>=◌, ap (λ (x : OrderRecord). x.shares) value, left, side, price, book)

-- Executing up to the remaining shares of an open order does not fault: it takes the shares off the
-- order, whose record is dropped when none are left, and off the book at the order's side and
-- price; it changes nothing else and keeps the state consistent.
pub execute_order_lem :
    (o : Orders) (message : OrderExecutedMessage) (r : OrderRecord)
    → IsConsistent o
    → order_of o.order_records message.order_reference_number ≡ some r
    → 0 < message.executed_shares
    → message.executed_shares ≤ r.shares
    → (o' : Orders) × (execute_order message o ≡ ok o')
      × Lowers message.order_reference_number message.executed_shares r o o'
unfolding execute_order
execute_order_lem o message r c e pos le =
    let (i, found, f) = dereference_lem o message.order_reference_number r c e in
    let (b, execute, cancel, delete, thins) =
      removal_lem r.side r.price message.executed_shares o.order_book c.book pos
        (omega (arith, f.enough)) in
    (
      _,
      execute_order-run o message r i found b f.runs f.value
          (exact_left o message.order_reference_number message.executed_shares i r found c f le)
          execute,
      lowered-Lowers o message.order_reference_number message.executed_shares i r found f le b
          thins,
    )

-- Cancelling up to the remaining shares of an open order does not fault: it takes the shares off
-- the order, whose record is dropped when none are left, and off the book at the order's side and
-- price; it changes nothing else and keeps the state consistent.
pub cancel_order_lem :
    (o : Orders) (message : OrderCancelMessage) (r : OrderRecord)
    → IsConsistent o
    → order_of o.order_records message.order_reference_number ≡ some r
    → 0 < message.cancelled_shares
    → message.cancelled_shares ≤ r.shares
    → (o' : Orders) × (cancel_order message o ≡ ok o')
      × Lowers message.order_reference_number message.cancelled_shares r o o'
cancel_order_lem o message r c e pos le =
    let key = message.order_reference_number in
    let n = message.cancelled_shares in
    let (i, found, f) = dereference_lem o key r c e in
    let (b, execute, cancel, delete, thins) =
      removal_lem r.side r.price n o.order_book c.book pos (omega (arith, f.enough)) in
    let (side, price) = (lowered-Reduces o key n i r found f le b thins).side_price in
    (
      _,
      cancel_order-run o message r i found b f.runs f.value (exact_left o key n i r found c f le)
          (side ∙ ap (λ (x : OrderRecord). x.side) f.value)
          (price ∙ ap (λ (x : OrderRecord). x.price) f.value) cancel,
      lowered-Lowers o key n i r found f le b thins,
    )
