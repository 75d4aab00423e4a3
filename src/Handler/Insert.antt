-- ===== src/Handler/Insert.antt =====
-- include/market_data/market_data_handler.h: the record of a new order,
-- `order_records_[reference] = {...}`.
use itch_order_book.Common.{
  ℕ, ◌+◌, ◌<◌, ◌≡◌, ◌≢◌, inl, inr, refl, sym, ◌∙◌, ap, subst, arith, ℕ_discrete, ◌==◌,
  if◌then◌else◌, none, some, update, update_self, update-ne,
}
use itch_order_book.Book.{Side}
use itch_order_book.AddressMap.{
  occupied, Slot, OpenAddressMap, Result, done, saturated, spinning, linear_next, assign,
}
use itch_order_book.AddressMap.Probe.{Holds, Found}
use itch_order_book.AddressMap.Valid.{IsTable, Found-inside, written-Holds_ne}
use itch_order_book.AddressMap.Find.{Assigns, assign-Assigns}
use itch_order_book.AddressMap.View.{view-assign, view-eq-some}
use itch_order_book.Handler.{OrderRecord, capacity}
use itch_order_book.Handler.Resting.{
  walk, order_of, weight_of, resting, resting-update, open_count, open_count-update, open_count-gap,
}
use itch_order_book.Handler.Consistent.{AllOpen}

-- some slot of the table is not taken
pub record HasRoom (m : OpenAddressMap OrderRecord) : Type 0 where
  pub slot : ℕ
  pub inside : slot < capacity
  pub free : (m.table slot).state ≢ occupied

-- what stands in the table once a record is written under a key that had none
pub record Inserts (key : ℕ) (r : OrderRecord) (m m' : OpenAddressMap OrderRecord) : Type 0 where
  pub runs : assign capacity linear_next key r m ≡ done m'
  pub table : IsTable walk m'.table
  pub live : AllOpen m → 0 < r.shares → AllOpen m'
  pub orders : (q : ℕ) → order_of m' q ≡ (if q == key then some r else order_of m q)
  pub rests : (s : Side) (p : ℕ) → resting s p m'.table ≡ resting s p m.table + weight_of s p r
  pub counts : open_count m'.table ≡ open_count m.table + 1

-- a table with fewer orders than slots has room
pub open_count-HasRoom :
    (m : OpenAddressMap OrderRecord) → open_count m.table < capacity → HasRoom m
open_count-HasRoom m h =
    let (i, lt, free) = open_count-gap m.table h in record { slot = i; inside = lt; free = free }

module _ (key : ℕ) (r : OrderRecord) (m : OpenAddressMap OrderRecord) (valid : IsTable walk m.table)
    (fresh : order_of m key ≡ none) where
  abbrev slot : Slot OrderRecord
  slot = record { key = key; value = r; state = occupied }

  was_free : (i : ℕ) → Found walk m.table key i → (m.table i).state ≢ occupied
  was_free i (inl h) = let there = view-eq-some walk m key i valid h in cc
  was_free i (inr v) = v.free

  written-live :
      (i : ℕ)
      → AllOpen m
      → 0 < r.shares
      → (j q : ℕ) → Holds walk (update m.table i slot) j q
      → 0 < (update m.table i slot j).value.shares
  written-live i live pos j q h = elim (ℕ_discrete i j) [
    | yes e ↦
        let at : update m.table i slot j ≡ slot = rw (← e) (update_self m.table i slot) in rw at pos
    | no ne ↦
        rw (update-ne m.table i slot j ne) (live j q (written-Holds_ne walk valid i slot j q ne h))
  ]

  written-rests :
      (i : ℕ)
      → Found walk m.table key i
      → (s : Side) (p : ℕ)
      → resting s p (update m.table i slot) ≡ resting s p m.table + weight_of s p r
  written-rests i f s p =
      ground
        (arith, resting-update s p m.table i slot (Found-inside walk valid key i f), was_free i f)

  written-counts :
      (i : ℕ)
      → Found walk m.table key i
      → open_count (update m.table i slot) ≡ open_count m.table + 1
  written-counts i f =
      ground
        (arith, open_count-update m.table i slot (Found-inside walk valid key i f), was_free i f)

  -- A key with no record gets one, where the table has room.
  pub assign-Inserts : HasRoom m → (m' : OpenAddressMap OrderRecord) × Inserts key r m m'
  assign-Inserts room = go (assign capacity linear_next key r m) refl (assign-Assigns walk m key r)
    where
      go :
          (x : Result (OpenAddressMap OrderRecord))
          → assign capacity linear_next key r m ≡ x
          → Assigns walk m.table key r x
          → (m' : OpenAddressMap OrderRecord) × Inserts key r m m'
      go (done m') e (i, f, w) =
          let (table, orders) = view-assign walk m m' key r valid e in
          (
            m',
            record {
              runs = e;
              table = table;
              live = λ live pos.
                  subst (λ t. (j q : ℕ) → Holds walk t j q → 0 < (t j).value.shares) (sym w)
                    (written-live i live pos);
              orders = orders;
              rests = λ s p. ap (resting s p) w ∙ written-rests i f s p;
              counts = ap open_count w ∙ written-counts i f;
            },
          )
      go saturated e (a, _) = absurd (room.free (a room.slot room.inside).0)
      go spinning e (a, _) = absurd a
