-- ===== src/Handler/Reduce.antt =====
-- include/market_data/market_data_handler.h: the record of an order that loses shares, as
-- `execute_order` and `cancel_order` write it.
use itch_order_book.Common.{
  ℕ, ◌+◌, ◌<◌, ◌≡◌, ◌≢◌, inl, inr, refl, ◌∙◌, ap, subst, arith, ℕ_discrete, Bool-cases, ◌==◌,
  ==_iff, if◌then◌else◌, none, some, true, false, update_self, update-ne,
}
use itch_order_book.Book.{Side}
use itch_order_book.AddressMap.{occupied, tombstone, OpenAddressMap, write_at, erase_at}
use itch_order_book.AddressMap.Probe.{Holds}
use itch_order_book.AddressMap.Valid.{IsTable, grave-Holds, grave_ne}
use itch_order_book.AddressMap.View.{view-erase_at}
use itch_order_book.AddressMap.Contract.{view-write_at}
use itch_order_book.Handler.{OrderRecord, capacity}
use itch_order_book.Handler.Resting.{
  walk, order_of, weight_of, resting, resting-update, open_count, open_count-update,
}
use itch_order_book.Handler.Consistent.{AllOpen}

-- every open order but the one in slot `i` has shares left
abbrev pub OthersOpen : ℕ → OpenAddressMap OrderRecord → Type 0
OthersOpen i m = (j key : ℕ) → i ≢ j → Holds walk m.table j key → 0 < (m.table j).value.shares

-- what stands in the table once the record of `key`, in slot `i`, is erased
pub record Erases (key i : ℕ) (m m' : OpenAddressMap OrderRecord) : Type 0 where
  pub table : IsTable walk m'.table
  pub live : OthersOpen i m → AllOpen m'
  pub orders : (q : ℕ) → order_of m' q ≡ (if q == key then none else order_of m q)
  pub rests :
      (s : Side) (p : ℕ)
      → resting s p m'.table + weight_of s p (m.table i).value ≡ resting s p m.table
  pub counts : open_count m'.table + 1 ≡ open_count m.table
  pub record_kept : (m'.table i).value ≡ (m.table i).value

module _ (key i : ℕ) (m : OpenAddressMap OrderRecord) (valid : IsTable walk m.table)
    (h : Holds walk m.table i key) where
  erased-live : OthersOpen i m → AllOpen (erase_at capacity i m)
  unfolding erase_at
  erased-live live j q g =
      let other = grave_ne walk valid i j q g in
      rw (update-ne m.table i _ j other) (live j q other (grave-Holds walk valid i j q g))

  erased-rests :
      (s : Side) (p : ℕ)
      → resting s p (erase_at capacity i m).table + weight_of s p (m.table i).value
        ≡ resting s p m.table
  unfolding erase_at
  erased-rests s p =
      let u = resting-update s p m.table i (record (m.table i) { state = tombstone }) h.0 in
      ground (arith, u, h.1)

  erased-counts : open_count (erase_at capacity i m).table + 1 ≡ open_count m.table
  unfolding erase_at
  erased-counts =
      let u = open_count-update m.table i (record (m.table i) { state = tombstone }) h.0 in
      ground (arith, u, h.1)

  erased-record : ((erase_at capacity i m).table i).value ≡ (m.table i).value
  unfolding erase_at
  erased-record =
      ap (λ s. s.value) (update_self m.table i (record (m.table i) { state = tombstone }))

  pub erase_at-Erases : Erases key i m (erase_at capacity i m)
  erase_at-Erases = record {
    table = (view-erase_at walk m key i valid h).0;
    live = erased-live;
    orders = (view-erase_at walk m key i valid h).1;
    rests = erased-rests;
    counts = erased-counts;
    record_kept = erased-record;
  }

-- the table after `shares -= n` through the handle and `if (shares == 0) erase(handle)`
abbrev pub reduced : ℕ → ℕ → OpenAddressMap OrderRecord → OpenAddressMap OrderRecord
reduced left i m =
    let m' = write_at i (record (m.table i).value { shares = left }) m in
    if left == 0 then erase_at capacity i m' else m'

-- what stands in the table afterwards
pub record Reduces (key left i : ℕ) (m m' : OpenAddressMap OrderRecord) : Type 0 where
  pub table : IsTable walk m'.table
  pub live : AllOpen m'
  pub orders :
      (q : ℕ)
      → order_of m' q ≡ (
          if q == key
          then (if left == 0 then none else some (record (m.table i).value { shares = left }))
          else order_of m q)
  pub rests :
      (s : Side) (p : ℕ)
      → resting s p m'.table + weight_of s p (m.table i).value
        ≡ resting s p m.table + weight_of s p (record (m.table i).value { shares = left })
  pub counts : open_count m'.table + (if left == 0 then 1 else 0) ≡ open_count m.table
  pub side_price :
      ((m'.table i).value.side ≡ (m.table i).value.side)
      × ((m'.table i).value.price ≡ (m.table i).value.price)

module _ (key left i : ℕ) (m : OpenAddressMap OrderRecord) (valid : IsTable walk m.table)
    (h : Holds walk m.table i key) (live : AllOpen m) where
  abbrev entry : OrderRecord
  entry = record (m.table i).value { shares = left }

  abbrev lowered : OpenAddressMap OrderRecord
  lowered = write_at i entry m

  lowered_at : lowered.table i ≡ record (m.table i) { value = entry }
  unfolding write_at
  lowered_at = update_self m.table i _

  lowered-Holds : Holds walk lowered.table i key
  lowered-Holds = rw lowered_at h

  lowered-rests :
      (s : Side) (p : ℕ)
      → resting s p lowered.table + weight_of s p (m.table i).value
        ≡ resting s p m.table + weight_of s p entry
  unfolding write_at
  lowered-rests s p =
      let u = resting-update s p m.table i (record (m.table i) { value = entry }) h.0 in
      ground (arith, u, h.1)

  lowered-counts : open_count lowered.table ≡ open_count m.table
  unfolding write_at
  lowered-counts =
      let u = open_count-update m.table i (record (m.table i) { value = entry }) h.0 in
      ground (arith, u, h.1)

  lowered_ne : (j : ℕ) → i ≢ j → lowered.table j ≡ m.table j
  unfolding write_at
  lowered_ne j other = update-ne m.table i _ j other

  lowered-shares :
      (j q : ℕ) → i ≢ j → Holds walk lowered.table j q → 0 < (lowered.table j).value.shares
  lowered-shares j q other g =
      let e = lowered_ne j other in
      rw e (live j q (subst (λ s. (j < capacity) × (s.state ≡ occupied) × (s.key ≡ q)) e g))

  kept-Reduces : (left == 0) ≡ false → Reduces key left i m lowered
  kept-Reduces ne = record {
    table = (view-write_at walk m key i entry valid h).0;
    live = λ j q g. elim (ℕ_discrete i j) [
      | yes e ↦
          let at : lowered.table j ≡ record (m.table i) { value = entry } = rw (← e) lowered_at in
          rw at (ground arith)
      | no other ↦ lowered-shares j q other g
    ];
    orders = λ q. rw ne ((view-write_at walk m key i entry valid h).1 q);
    rests = lowered-rests;
    counts = ground (arith, ne, lowered-counts);
    side_price = rw lowered_at (refl, refl);
  }

  gone-Reduces :
      (left == 0) ≡ true
      → Erases key i lowered (erase_at capacity i lowered)
      → Reduces key left i m (erase_at capacity i lowered)
  gone-Reduces e r = record {
    table = r.table;
    live = r.live lowered-shares;
    orders = λ q. rw e (
        r.orders q ∙ elim (Bool-cases (q == key)) [
          | inl same ↦ rw same
          | inr other ↦ rw other ((view-write_at walk m key i entry valid h).1 q ∙ rw other)
        ]);
    rests = λ s p. ground (arith, r.rests s p, lowered-rests s p, lowered_at, (==_iff left 0).0 e);
    counts = ground (arith, e, r.counts, lowered-counts);
    side_price = rw (r.record_kept, lowered_at) (refl, refl);
  }

  -- Lowering the shares of an order, and erasing its record when none are left.
  pub reduced-Reduces : Reduces key left i m (reduced left i m)
  reduced-Reduces = elim (Bool-cases (left == 0)) [
    | inl e ↦ rw e (
        gone-Reduces e (
          erase_at-Erases key i lowered (view-write_at walk m key i entry valid h).0 lowered-Holds))
    | inr ne ↦ rw ne (kept-Reduces ne)
  ]
