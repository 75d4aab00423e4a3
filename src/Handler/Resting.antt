-- ===== src/Handler/Resting.antt =====
-- include/market_data/market_data_handler.h: the shares that the order records hold at a price, and
-- how a write to one record changes them.
use itch_order_book.Common.{
  ℕ, ◌+◌, ◌≤◌, ◌<◌, ◌≡◌, ◌≢◌, refl, ap, arith, ◌==◌, if◌then◌else◌, ◌&&◌, Option, true, update,
  total, total-update, total-gap, total_nothing, weight-le-total,
}
use itch_order_book.Book.{Side, buy, sell}
use itch_order_book.Book.Depth.{same_side}
use itch_order_book.AddressMap.{empty, occupied, is_occupied, Slot, OpenAddressMap, linear_next}
use itch_order_book.Capacity.{IsCapacity}
use itch_order_book.AddressMap.Sequence.{Sequence, linear_sequence}
use itch_order_book.AddressMap.Probe.{Holds}
use itch_order_book.AddressMap.View.{view}
use itch_order_book.Handler.{OrderRecord, capacity}

pub capacity-IsCapacity : IsCapacity capacity
unfolding capacity
capacity-IsCapacity = record { bits = 16; power = refl; fits = omega arith }

-- the walk of `OpenAddressMap<1 << 16, ...>` with its default LinearProbe
pub walk : Sequence capacity linear_next
walk = linear_sequence capacity capacity-IsCapacity

-- the table of open orders, read as a map
abbrev pub order_of : OpenAddressMap OrderRecord → ℕ → Option OrderRecord
order_of m key = view capacity linear_next m key

-- a slot's share of what rests at a side and a price
abbrev pub weight_of : Side → ℕ → OrderRecord → ℕ
weight_of s p r = if same_side s r.side && (p == r.price) then r.shares else 0

abbrev pub weight : Side → ℕ → Slot OrderRecord → ℕ
weight s p slot = if is_occupied slot.state then weight_of s p slot.value else 0

-- the shares of all open orders at a side and a price
pub resting : Side → ℕ → (ℕ → Slot OrderRecord) → ℕ
resting s p table = total (weight s p) capacity table

pub resting-update :
    (s : Side) (p : ℕ) (table : ℕ → Slot OrderRecord) (i : ℕ) (slot : Slot OrderRecord)
    → i < capacity
    → resting s p (update table i slot) + weight s p (table i) ≡ resting s p table + weight s p slot
unfolding resting
resting-update s p table i slot lt = total-update (weight s p) capacity table i slot lt

-- one for a slot that holds an open order, and the number of open orders
abbrev pub one_open : Slot OrderRecord → ℕ
one_open slot = if is_occupied slot.state then 1 else 0

pub open_count : (ℕ → Slot OrderRecord) → ℕ
open_count table = total one_open capacity table

pub open_count-update :
    (table : ℕ → Slot OrderRecord) (i : ℕ) (slot : Slot OrderRecord)
    → i < capacity
    → open_count (update table i slot) + one_open (table i) ≡ open_count table + one_open slot
unfolding open_count
open_count-update table i slot lt = total-update one_open capacity table i slot lt

pub open_count-eq-zero :
    (table : ℕ → Slot OrderRecord) → ((i : ℕ) → (table i).state ≡ empty) → open_count table ≡ 0
unfolding open_count
open_count-eq-zero table h = total_nothing one_open table (λ i. rw (ap is_occupied (h i))) capacity

-- with fewer open orders than slots, some slot is not taken
pub open_count-gap :
    (table : ℕ → Slot OrderRecord)
    → open_count table < capacity
    → (i : ℕ) × (i < capacity) × ((table i).state ≢ occupied)
unfolding open_count
open_count-gap table h =
    let (i, lt, e) = total-gap one_open capacity table h in (i, lt, λ t. ground (arith, e, t))

same_side_refl : (s : Side) → same_side s s ≡ true
same_side_refl buy = refl
same_side_refl sell = refl

-- an open order's shares are part of what rests at its side and price
pub shares-le-resting :
    (m : OpenAddressMap OrderRecord) (i key : ℕ)
    → Holds walk m.table i key
    → (m.table i).value.shares ≤ resting (m.table i).value.side (m.table i).value.price m.table
unfolding resting
shares-le-resting m i key h =
    let r = (m.table i).value in
    let w = weight-le-total (weight r.side r.price) capacity m.table i h.0 in
    let e : weight r.side r.price (m.table i) ≡ r.shares =
      ground (arith, h.1, same_side_refl r.side) in
    rw (← e) w

pub resting-eq-zero :
    (s : Side) (p : ℕ) (table : ℕ → Slot OrderRecord)
    → ((i : ℕ) → (table i).state ≡ empty)
    → resting s p table ≡ 0
unfolding resting
resting-eq-zero s p table h =
    total_nothing (weight s p) table (λ i. rw (ap is_occupied (h i))) capacity
