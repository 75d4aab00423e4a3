-- ===== src/AddressMap/Rehash.antt =====
-- include/util/open_address_map.h: `rehash`, and `erase(Handle)` where the template's Rehash is
-- true.
use itch_order_book.Common.{
  ℕ, zero, suc, ◌+◌, ◌-◌, ◌*◌, ◌/◌, ltb, if◌then◌else◌, update, ◌≡◌, refl, Option, none, some,
}
use itch_order_book.AddressMap.{
  SlotState, empty, occupied, is_occupied, is_tombstone, Slot, OpenAddressMap, Next, linear_next,
  Result, done, saturated, spinning, hash, advance, note_tombstone, round, probe_from,
  probe_for_slot_idx, find, erase_at,
}

-- the first loop: no slot is a tombstone any more
unfoldable pub clear_tombstones {ℓ} : {V : Type ℓ} → (ℕ → Slot V) → ℕ → Slot V
clear_tombstones table i =
    if is_tombstone (table i).state then record (table i) { state = empty } else table i

module _ {ℓ} {V : Type ℓ} (cap : ℕ) (next : Next) where
  -- `while (table_[idx].state == OCCUPIED)`, for at most the given number of rounds
  unfoldable pub free_from : ℕ → (ℕ → Slot V) → ℕ → ℕ → Result ℕ
  free_from zero table idx attempt = spinning
  free_from (suc rounds) table idx attempt =
      let rest = free_from rounds table (next idx (attempt + 1) (cap - 1)) (attempt + 1) in
      if is_occupied (table idx).state then rest else done idx

  -- one round of the second loop: slot `i` is emptied, and its entry goes to the first free slot
  unfoldable pub resettle : ℕ → (ℕ → Slot V) → Result (ℕ → Slot V)
  resettle i table =
      let evicted = table i in
      let emptied = update table i (record evicted { state = empty }) in
      if is_occupied evicted.state
      then elim (free_from (2 * cap) emptied (hash cap evicted.key) 0) [
        | done idx ↦ done (update emptied idx evicted)
        | saturated ↦ saturated
        | spinning ↦ spinning
      ]
      else done table

  -- the second loop, from slot `i`, with `n` slots to go
  unfoldable pub resettle_from : ℕ → ℕ → (ℕ → Slot V) → Result (ℕ → Slot V)
  resettle_from zero i table = done table
  resettle_from (suc n) i table = elim (resettle i table) [
    | done table' ↦ resettle_from n (i + 1) table'
    | saturated ↦ saturated
    | spinning ↦ spinning
  ]

  unfoldable pub rehash : OpenAddressMap V → Result (OpenAddressMap V)
  rehash m = elim (resettle_from cap 0 (clear_tombstones m.table)) [
    | done table ↦ done (record { table = table; tombstones = 0 })
    | saturated ↦ saturated
    | spinning ↦ spinning
  ]

  -- `erase(Handle)`: more than a quarter of tombstones is cleared out
  unfoldable pub erase_rehash : ℕ → OpenAddressMap V → Result (OpenAddressMap V)
  erase_rehash i m =
      let m' = erase_at cap i m in if ltb (cap / 4) m'.tombstones then rehash m' else done m'

abbrev slot_with : ℕ → Slot ℕ
slot_with key = record { key = key; value = 0; state = occupied }

-- Keys 12 and 4 came to slots 4 and 5, then 6 and 7 to theirs, then 13, whose walk from slot 5
-- wraps round to slot 0; then 12 was erased.
abbrev wrapped : OpenAddressMap ℕ
wrapped = record {
  table =
      update
        (update
          (update
            (update
              (update (λ _. record (slot_with 0) { state = empty }) 4
                (record (slot_with 12) { state = SlotState.tombstone }))
              5 (slot_with 4))
            6 (slot_with 6))
          7 (slot_with 7))
        0 (slot_with 13);
  tombstones = 1;
}

found_in : Result (OpenAddressMap ℕ) → ℕ → Result (Option ℕ)
found_in (done m) key = elim (find 8 linear_next key m) [
  | done (h, _) ↦ done h
  | saturated ↦ saturated
  | spinning ↦ spinning
]
found_in saturated key = saturated
found_in spinning key = spinning

program : Unit {0}
unfolding hash linear_next advance note_tombstone round probe_from probe_for_slot_idx find erase_at
    clear_tombstones free_from resettle resettle_from rehash erase_rehash found_in
program = tt

found_before : found_in (done wrapped) 13 ≡ done (some 0)
unfolding program
found_before = refl

-- After `rehash` the key 13 is still in slot 0, and its walk meets the empty slot 5 first: `find`
-- returns the null handle.
lost_by_rehash : found_in (rehash 8 linear_next wrapped) 13 ≡ done none
unfolding program
lost_by_rehash = refl
