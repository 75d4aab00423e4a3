-- ===== src/Handler/Market/Shows.antt =====
-- include/market_data/market_data_handler.h: when the table and the book of the handler show a list
-- of open orders.
use itch_order_book.Common.{ℕ, ◌≤◌, ◌≡◌, ◌⊎◌, refl, ◌∙◌, arith, none, some, [], ◌∷◌, length}
use itch_order_book.Book.{Side, empty_book}
use itch_order_book.AddressMap.{new_map}
use itch_order_book.AddressMap.Find.{IsTable-new_map}
use itch_order_book.AddressMap.View.{view-eq-none}
use itch_order_book.Book.Depth.{depth, depth-same}
use itch_order_book.Handler.{OrderRecord, Orders}
use itch_order_book.Handler.Resting.{walk, order_of, open_count, open_count-eq-zero}
use itch_order_book.Handler.Consistent.{IsConsistent, IsConsistent-start, empty_depth}
use itch_order_book.Handler.Adds.{Opens}
use itch_order_book.Handler.Fills.{Lowers}
use itch_order_book.Handler.Replaces.{Replaces}
use itch_order_book.Handler.Market.{Market, find_order, remove_order, lower_order, shares_of}
use itch_order_book.Handler.Market.Laws.{
  AreDistinct, find_order-remove_order, AreDistinct-remove_order, remove_order-present,
  lower_order-Reduced,
}

-- The state is consistent, a reference finds the order that the list has for it, the table holds as
-- many orders as the list, the book shows the sums of the list's shares, and the locate code is the
-- market's.
pub record Shows (m : Market) (o : Orders) : Type 0 where
  pub consistent : IsConsistent o
  pub distinct : AreDistinct m.orders
  pub found : (q : ℕ) → order_of o.order_records q ≡ find_order q m.orders
  pub counts : open_count o.order_records.table ≡ length m.orders
  pub depths : (s : Side) (p : ℕ) → depth o.order_book s p ≡ shares_of s p m.orders
  pub locate : o.cache_stock_locate ≡ m.locate

module _ (m : Market) (o o' : Orders) (h : Shows m o) (key : ℕ) (r : OrderRecord) where
  pub Opens-Shows :
      find_order key m.orders ≡ none
      → Opens key r o o'
      → Shows (record { orders = (key, r) ∷ m.orders; locate = o'.cache_stock_locate }) o'
  unfolding find_order shares_of
  Opens-Shows fresh opened = record {
    consistent = opened.consistent;
    distinct = (fresh, h.distinct);
    found = λ q. ground (arith, opened.orders q, h.found q);
    counts = omega (arith, opened.counts, h.counts);
    depths = λ s p. ground (
      arith,
      opened.deeper s p,
      h.depths s p,
      h.depths r.side r.price,
      depth-same o.order_book s r.side p r.price,
    );
    locate = refl;
  }

  pub Lowers-Shows :
      (n : ℕ)
      → find_order key m.orders ≡ some r
      → n ≤ r.shares
      → Lowers key n r o o'
      → Shows (record m { orders = lower_order key r n m.orders }) o'
  Lowers-Shows n there le lowered =
      let rest = lower_order-Reduced key r n m.orders h.distinct there in
      record {
        consistent = lowered.consistent;
        distinct = rest.distinct;
        found = λ q. ground (arith, lowered.orders q, h.found q, rest.found q);
        counts = omega (arith, lowered.counts, h.counts, rest.counts);
        depths = λ s p. ground (
          arith,
          le,
          lowered.thinner s p,
          rest.held s p,
          h.depths s p,
          depth-same o.order_book s r.side p r.price,
        );
        locate = lowered.locate ∙ h.locate;
      }

  pub Replaces-Shows :
      (key' : ℕ) (r' : OrderRecord)
      → find_order key m.orders ≡ some r
      → (key' ≡ key) ⊎ (find_order key' m.orders ≡ none)
      → r'.side ≡ r.side
      → Replaces key key' r r' o o'
      → Shows (record m { orders = (key', r') ∷ remove_order key m.orders }) o'
  unfolding find_order shares_of
  Replaces-Shows key' r' there fresh side replaced =
      let (count, held) = remove_order-present key r m.orders h.distinct there in
      record {
        consistent = replaced.consistent;
        distinct = (
          ground (arith, find_order-remove_order key' key m.orders),
          AreDistinct-remove_order key m.orders h.distinct,
        );
        found = λ q.
            ground (arith, replaced.orders q, h.found q, find_order-remove_order q key m.orders);
        counts = omega (arith, replaced.counts, h.counts, count);
        depths = λ s p. ground (
          arith,
          replaced.moved.moved s p,
          held s p,
          h.depths s p,
          h.depths r.side r.price,
          depth-same o.order_book s r.side p r.price,
        );
        locate = replaced.locate ∙ h.locate;
      }

-- The handler starts with an empty list, and the locate code that it is made with.
pub Shows-start :
    (v : OrderRecord) (locate : ℕ)
    → Shows
        (record { orders = []; locate = locate })
        (record { order_book = empty_book; order_records = new_map v; cache_stock_locate = locate })
unfolding find_order shares_of new_map
Shows-start v locate = record {
  consistent = IsConsistent-start v locate;
  distinct = tt;
  found = λ q. view-eq-none walk (new_map v) q (IsTable-new_map walk v) (λ i h. absurd (cc h.1));
  counts = open_count-eq-zero _ (λ i. refl);
  depths = λ s p. empty_depth s p;
  locate = refl;
}
