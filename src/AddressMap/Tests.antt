-- ===== src/AddressMap/Tests.antt =====
-- include/util/open_address_map.h: runs on a table of eight slots, and the theorems there.
use itch_order_book.Common.{ℕ, ◌≡◌, ◌^◌, refl, arith, Option, some, update, ◌-◌}
use itch_order_book.AddressMap.{
  empty, occupied, OpenAddressMap, Result, done, saturated, linear_next, quadratic_next, new_map,
  hash, advance, note_tombstone, round, probe_from, probe_for_slot_idx, at_key, assign, find,
  erase_at, erase, write_at,
}
use itch_order_book.Capacity.{IsCapacity}
use itch_order_book.AddressMap.Sequence.{Sequence, linear_sequence}
use itch_order_book.AddressMap.Probe.{Holds, Answer}
use itch_order_book.AddressMap.Rounds.{probe_for_slot_idx-Answer}
use itch_order_book.AddressMap.Valid.{IsTable}
use itch_order_book.AddressMap.Find.{IsTable-new_map}
use itch_order_book.AddressMap.View.{view, view-assign}
use itch_order_book.AddressMap.Contract.{
  FindCase, find_lem, AssignCase, assign_lem, EraseCase, erase_lem,
}

program : Unit {0}
unfolding hash linear_next quadratic_next advance note_tombstone round probe_from probe_for_slot_idx
    at_key assign find erase_at erase new_map view write_at
program = tt

eight : IsCapacity 8
eight = record { bits = 3; power = refl; fits = omega arith }

eight_slots : Sequence 8 linear_next
eight_slots = linear_sequence 8 eight

-- one call after another
abbrev and_then : {A B : Type 0} → Result A → (A → Result B) → Result B
and_then (done a) f = f a
and_then saturated f = saturated
and_then Result.spinning f = Result.spinning

abbrev three : OpenAddressMap ℕ
three = record {
  table =
      update
        (update (λ _. record { key = 0; value = 0; state = empty }) 3
          (record { key = 3; value = 0; state = occupied }))
        3 (record { key = 3; value = 10; state = occupied });
  tombstones = 0;
}

three-written : assign 8 linear_next 3 10 (new_map 0) ≡ done three
unfolding program
three-written = refl

three-IsTable : IsTable eight_slots three.table
three-IsTable =
    (view-assign eight_slots (new_map 0) three 3 10 (IsTable-new_map eight_slots 0) three-written).0

three-Holds : Holds eight_slots three.table 3 3
three-Holds = (omega arith, refl, refl)

-- the keys 3 and 11 meet at slot 3
collision : Result (Option ℕ)
collision =
    and_then (assign 8 linear_next 11 20 three)
      λ m. and_then (find 8 linear_next 11 m) λ r. done r.0

collision_slot : collision ≡ done (some 4)
unfolding program collision
collision_slot = refl

probe_for_slot_idx-Answer_example :
    Answer eight_slots three.table 11 (probe_for_slot_idx 8 linear_next three 11)
probe_for_slot_idx-Answer_example = probe_for_slot_idx-Answer eight_slots three 11

find_lem_example : FindCase eight_slots three 11 (find 8 linear_next 11 three)
find_lem_example = find_lem eight_slots three 11 three-IsTable

assign_lem_example : AssignCase eight_slots three 11 20 (assign 8 linear_next 11 20 three)
assign_lem_example = assign_lem eight_slots three 11 20 three-IsTable

erase_lem_example : EraseCase eight_slots three 3 (erase 8 linear_next 3 three)
erase_lem_example = erase_lem eight_slots three 3 three-IsTable

-- Two misses of one key past one tombstone count it down twice: `tombstone_` wraps below zero,
-- although the slots do not change.
miss_twice : Result ℕ
miss_twice =
    and_then (find 8 linear_next 3 (erase_at 8 3 three))
      λ r. and_then (find 8 linear_next 3 r.1) λ r'. done r'.1.tombstones

tombstones_wrap : miss_twice ≡ done (2 ^ 64 - 1)
unfolding program miss_twice
tombstones_wrap = refl

-- a table with no free slot throws for a key that it does not hold
abbrev crowded : OpenAddressMap ℕ
crowded = record { table = λ i. record { key = i; value = 0; state = occupied }; tombstones = 0 }

full_table : find 8 linear_next 8 crowded ≡ saturated
unfolding program
full_table = refl

full_table_quadratic : find 8 quadratic_next 8 crowded ≡ saturated
unfolding program
full_table_quadratic = refl
