-- ===== src/Handler/Replaces.antt =====
-- include/market_data/market_data_handler.h: `delete_order` and `replace_order`.
use itch_order_book.Common.{
  ℕ, ◌+◌, ◌<◌, ◌≡◌, refl, sym, ◌∙◌, ap, subst, arith, none, some, word_mod, ◌==◌, if◌then◌else◌,
  ◌⊎◌,
}
use itch_order_book.Book
use itch_order_book.Book.{Side, OrderBook}
use itch_order_book.Book.Depth.{depth, depth-same}
use itch_order_book.Book.Calls.{removal_lem}
use itch_order_book.Book.Exchange.{Moves, replace_order_lem}
use itch_order_book.AddressMap
use itch_order_book.AddressMap.{OpenAddressMap, occupied, tombstone, linear_next}
use itch_order_book.Messages.{OrderDeleteMessage, OrderReplaceMessage}
use itch_order_book.Handler.{
  OrderRecord, Orders, ok, ◌>>=◌, capacity, dereference, delete_order, replace_order,
}
use itch_order_book.Handler.Resting.{order_of, weight_of, resting, open_count}
use itch_order_book.Handler.Consistent.{IsConsistent}
use itch_order_book.Handler.Reduce.{Erases, erase_at-Erases}
use itch_order_book.Handler.Lookup.{Finds, dereference_lem}
use itch_order_book.Handler.Insert.{HasRoom, Inserts, assign-Inserts}
use itch_order_book.Handler.Fills.{Lowers}

delete_order-run :
    (o : Orders) (message : OrderDeleteMessage) (r : OrderRecord) (i : ℕ)
    (found : OpenAddressMap OrderRecord) (b : OrderBook)
    → dereference message.order_reference_number o.order_records ≡ ok (i, found)
    → (found.table i).value ≡ r
    → Book.cancel_order r.side r.price r.shares o.order_book ≡ some b
    → delete_order message o
      ≡ ok (record o { order_book = b; order_records = AddressMap.erase_at capacity i found })
unfolding delete_order
delete_order-run o message r i found b run value book = rw (run, ◌>>=◌, value, book)

-- Deleting an open order does not fault: it drops the order's record, takes all its remaining
-- shares off the book at its side and price, changes nothing else and keeps the state consistent.
pub delete_order_lem :
    (o : Orders) (message : OrderDeleteMessage) (r : OrderRecord)
    → IsConsistent o
    → order_of o.order_records message.order_reference_number ≡ some r
    → (o' : Orders) × (delete_order message o ≡ ok o')
      × Lowers message.order_reference_number r.shares r o o'
delete_order_lem o message r c e =
    let key = message.order_reference_number in
    let (i, found, f) = dereference_lem o key r c e in
    let (b, execute, cancel, delete, t) =
      removal_lem r.side r.price r.shares o.order_book c.book f.positive f.enough in
    let d = erase_at-Erases key i found f.table f.holds in
    (
      _,
      delete_order-run o message r i found b f.runs f.value cancel,
      record {
        consistent = record {
          table = d.table;
          book = t.valid;
          live = d.live (λ j q _ h. f.live j q h);
          agrees = λ s p.
              let rests =
                subst
                  (λ (x : OrderRecord).
                    resting s p (AddressMap.erase_at capacity i found).table + weight_of s p x
                    ≡ resting s p found.table)
                  f.value (d.rests s p) in
              ground (
                arith,
                rests,
                t.thinner s p,
                f.agrees s p,
                f.enough,
                depth-same o.order_book s r.side p r.price,
              );
        };
        orders = λ q.
            d.orders q ∙ ap (λ x. if q == key then none else x) (f.orders q) ∙ sym (ground arith);
        thinner = t.thinner;
        counts = ground (arith, d.counts, f.counts);
        locate = refl;
      },
    )

-- the record that a replace message opens in place of `r`
abbrev pub order_after : OrderRecord → OrderReplaceMessage → OrderRecord
order_after r message = record { side = r.side; price = message.price; shares = message.shares }

-- The order `r` under `key` gives way to a new one under `key'`; no other order changes, the book
-- loses the old shares and gains the new ones, and the state stays consistent.
pub record Replaces (key key' : ℕ) (r r' : OrderRecord) (o o' : Orders) : Type 0 where
  pub consistent : IsConsistent o'
  pub orders :
      (q : ℕ)
      → order_of o'.order_records q
        ≡ (if q == key' then some r' else if q == key then none else order_of o.order_records q)
  pub moved : Moves r.side r.price r.shares r'.price r'.shares o.order_book o'.order_book
  pub counts : open_count o'.order_records.table ≡ open_count o.order_records.table
  pub locate : o'.cache_stock_locate ≡ o.cache_stock_locate

replace_order-run :
    (o : Orders) (message : OrderReplaceMessage) (r : OrderRecord) (i : ℕ)
    (found records : OpenAddressMap OrderRecord) (b : OrderBook)
    → dereference message.original_order_reference_number o.order_records ≡ ok (i, found)
    → (found.table i).value ≡ r
    → AddressMap.assign capacity linear_next message.new_order_reference_number
        (order_after r message)
        (AddressMap.erase_at capacity i found)
      ≡ AddressMap.done records
    → Book.replace_order r.side r.price r.shares message.price message.shares o.order_book ≡ some b
    → replace_order message o ≡ ok (record o { order_book = b; order_records = records })
unfolding replace_order
replace_order-run o message r i found records b run value write book =
    rw (run, ◌>>=◌, value, write, book)

erased-HasRoom :
    (found : OpenAddressMap OrderRecord) (i : ℕ)
    → i < capacity
    → HasRoom (AddressMap.erase_at capacity i found)
unfolding AddressMap.erase_at
erased-HasRoom found i lt = record { slot = i; inside = lt; free = λ h. ground arith }

replaced-agrees :
    (o : Orders) (key key' i : ℕ) (r r' : OrderRecord)
    (found gone records : OpenAddressMap OrderRecord) (b : OrderBook)
    → Finds o key r i found
    → Erases key i found gone
    → Inserts key' r' gone records
    → r'.side ≡ r.side
    → Moves r.side r.price r.shares r'.price r'.shares o.order_book b
    → (s : Side) (p : ℕ) → depth b s p ≡ resting s p records.table
replaced-agrees o key key' i r r' found gone records b f d n side moved s p =
    let rests =
      subst
        (λ (x : OrderRecord). resting s p gone.table + weight_of s p x ≡ resting s p found.table)
        f.value (d.rests s p) in
    ground (
      arith,
      rests,
      n.rests s p,
      moved.moved s p,
      f.agrees s p,
      f.enough,
      depth-same o.order_book s r.side p r.price,
    )

-- Replacing an open order by a positive number of shares that fit the level at the new price, under
-- a reference that is not that of another open order, does not fault: the new order stands at the
-- side of the old one, whose record and shares are gone, and the state stays consistent.
pub replace_order-Replaces :
    (o : Orders) (message : OrderReplaceMessage) (r : OrderRecord)
    → IsConsistent o
    → order_of o.order_records message.original_order_reference_number ≡ some r
    → (message.new_order_reference_number ≡ message.original_order_reference_number)
      ⊎ (order_of o.order_records message.new_order_reference_number ≡ none)
    → 0 < message.shares
    → depth o.order_book r.side message.price + message.shares < word_mod
    → (o' : Orders) × (replace_order message o ≡ ok o')
      × Replaces message.original_order_reference_number message.new_order_reference_number r
          (order_after r message)
          o
          o'
replace_order-Replaces o message r c e fresh pos fits =
    let key = message.original_order_reference_number in
    let key' = message.new_order_reference_number in
    let r' = order_after r message in
    let (i, found, f) = dereference_lem o key r c e in
    let (b, book, moved) =
      replace_order_lem r.side r.price r.shares message.price message.shares o.order_book c.book
        f.positive f.enough pos fits in
    let gone = AddressMap.erase_at capacity i found in
    let d = erase_at-Erases key i found f.table f.holds in
    let absent : order_of gone key' ≡ none = d.orders key' ∙ ground (arith, f.orders key') in
    let (records, n) =
      assign-Inserts key' r' gone d.table absent (erased-HasRoom found i f.holds.0) in
    (
      _,
      replace_order-run o message r i found records b f.runs f.value n.runs book,
      record {
        consistent = record {
          table = n.table;
          book = moved.valid;
          live = n.live (d.live (λ j q _ h. f.live j q h)) pos;
          agrees = replaced-agrees o key key' i r r' found gone records b f d n refl moved;
        };
        orders = λ q.
            n.orders q
            ∙ ap (λ x. if q == key' then some r' else x)
                (d.orders q ∙ ap (λ x. if q == key then none else x) (f.orders q));
        moved = moved;
        counts = n.counts ∙ d.counts ∙ f.counts;
        locate = refl;
      },
    )
