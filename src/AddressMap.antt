-- ===== src/AddressMap.antt =====
-- include/util/open_address_map.h: the open addressing hash table.
-- `cap` is the template's Capacity and `next` its Probe. `std::array<Slot, Capacity>` is a function
-- from the index; every index that the code computes is masked. A reference or a Handle to a slot
-- is its index. INSTRUMENT is false in the source, so its statistics are no code.
pub mod Sequence
pub mod Probe
pub mod Rounds
pub mod Valid
pub mod Find
pub mod View
pub mod Contract
pub mod Rehash
mod Tests
use Prim.Native.Nat.{bit_and}
use itch_order_book.Common.{
  ℕ, zero, suc, ◌+◌, ◌-◌, ◌*◌, ◌/◌, Bool, true, false, ◌&&◌, Option, none, some, ltb, ◌==◌,
  if◌then◌else◌, update, add64, sub64,
}

pub data SlotState : Type 0 where
  empty occupied tombstone : SlotState

abbrev pub is_occupied : SlotState → Bool
is_occupied occupied = true
is_occupied _ = false

abbrev pub is_empty : SlotState → Bool
is_empty empty = true
is_empty _ = false

abbrev pub is_tombstone : SlotState → Bool
is_tombstone tombstone = true
is_tombstone _ = false

pub record Slot {ℓ} (V : Type ℓ) : Type ℓ where
  pub key : ℕ
  pub value : V
  pub state : SlotState

-- `table_` and `tombstone_`
pub record OpenAddressMap {ℓ} (V : Type ℓ) : Type ℓ where
  pub table : ℕ → Slot V
  pub tombstones : ℕ

-- what `Probe::next(index, attempt, mask)` is
abbrev pub Next : Type 0
Next = ℕ → ℕ → ℕ → ℕ

-- `LinearProbe::next`
unfoldable pub linear_next : Next
linear_next index attempt mask = bit_and (add64 index 1) mask

-- `QuadraticProbe::next`
unfoldable pub quadratic_next : Next
quadratic_next index attempt mask = bit_and (add64 index attempt) mask

-- a call that returns, throws MapSaturatedException, or uses up the rounds given to its loop
pub data Result {ℓ} (A : Type ℓ) : Type ℓ where
  done : A → Result A
  saturated : Result A
  spinning : Result A

-- the local variables of `probe_for_slot_idx`; `none` is TOMBSTONE_SENTINEL
pub record Cursor : Type 0 where
  pub probe_idx : ℕ
  pub attempt : ℕ
  pub first_tombstone_idx : Option ℕ
  pub count : ℕ  -- `tombstone_`, which the loop changes

-- one round of the loop: it returns (an index, and `tombstone_`), throws, or goes round
pub data Turn : Type 0 where
  return : ℕ → ℕ → Turn
  throw : Turn
  again : Cursor → Turn

abbrev pub first_or : Option ℕ → ℕ → ℕ
first_or none i = i
first_or (some j) i = j

-- `OpenAddressMap()`
unfoldable pub new_map {ℓ} : {V : Type ℓ} → V → OpenAddressMap V
new_map default = record {
  table = λ _. record { key = 0; value = default; state = empty };
  tombstones = 0;
}

-- `first_tombstone_idx = probe_idx; --tombstone_;` at the first tombstone
unfoldable pub note_tombstone {ℓ} : {V : Type ℓ} → Slot V → Cursor → Cursor
note_tombstone slot c = elim c.first_tombstone_idx [
  | some i ↦ c
  | none ↦
      if is_tombstone slot.state
      then record c { first_tombstone_idx = some c.probe_idx; count = sub64 c.count 1 }
      else c
]

-- the test for the slot of a key
abbrev pub matches {ℓ} : {V : Type ℓ} → Slot V → ℕ → Bool
matches slot key = is_occupied slot.state && (slot.key == key)

-- `*handle = value`
unfoldable pub write_at {ℓ} : {V : Type ℓ} → ℕ → V → OpenAddressMap V → OpenAddressMap V
write_at i value m = record m { table = update m.table i (record (m.table i) { value = value }) }

module _ (cap : ℕ) where
  unfoldable pub hash : ℕ → ℕ
  hash key = bit_and key (cap - 1)

  -- the end of a round: `Probe::next`, and the test for a full circle
  unfoldable pub advance : Next → ℕ → Cursor → Turn
  advance next original_idx c =
      let idx = next c.probe_idx (c.attempt + 1) (cap - 1) in
      if idx == original_idx
      then elim c.first_tombstone_idx [ none ↦ throw | some i ↦ return i c.count ]
      else again (record c { probe_idx = idx; attempt = c.attempt + 1 })

  module _ {ℓ} {V : Type ℓ} (next : Next) where
    unfoldable pub round : (ℕ → Slot V) → ℕ → ℕ → Cursor → Turn
    round table key original_idx c =
        let slot = table c.probe_idx in
        if matches slot key
        then return c.probe_idx c.count
        else if is_empty slot.state
        then return (first_or c.first_tombstone_idx c.probe_idx) c.count
        else advance next original_idx (note_tombstone slot c)

    -- `while (true)`, for at most the given number of rounds
    unfoldable pub probe_from : ℕ → (ℕ → Slot V) → ℕ → ℕ → Cursor → Result (ℕ × ℕ)
    probe_from zero table key original_idx c = spinning
    probe_from (suc rounds) table key original_idx c = elim (round table key original_idx c) [
      | return i n ↦ done (i, n)
      | throw ↦ saturated
      | again c' ↦ probe_from rounds table key original_idx c'
    ]

    -- `probe_for_slot_idx`: the index, and the `mutable` count of tombstones
    unfoldable pub probe_for_slot_idx : OpenAddressMap V → ℕ → Result (ℕ × ℕ)
    probe_for_slot_idx m key =
        let home = hash key in
        probe_from (2 * cap) m.table key home (record {
          probe_idx = home;
          attempt = 0;
          first_tombstone_idx = none;
          count = m.tombstones;
        })

    -- `operator[]`: the slot is occupied and takes the key, and keeps its old value
    unfoldable pub at_key : ℕ → OpenAddressMap V → Result (ℕ × OpenAddressMap V)
    at_key key m = elim (probe_for_slot_idx m key) [
      | done (i, n) ↦ done (
        i,
        record {
          table = update m.table i (record (m.table i) { key = key; state = occupied });
          tombstones = n;
        },
      )
      | saturated ↦ saturated
      | spinning ↦ spinning
    ]

    -- `map[key] = value`
    unfoldable pub assign : ℕ → V → OpenAddressMap V → Result (OpenAddressMap V)
    assign key value m = elim (at_key key m) [
      | done (i, m') ↦
          done (record m' { table = update m'.table i (record (m'.table i) { value = value }) })
      | saturated ↦ saturated
      | spinning ↦ spinning
    ]

    -- `find`: a Handle, and the table with its count of tombstones
    unfoldable pub find : ℕ → OpenAddressMap V → Result (Option ℕ × OpenAddressMap V)
    find key m = elim (probe_for_slot_idx m key) [
      | done (i, n) ↦
          done (if matches (m.table i) key then some i else none, record m { tombstones = n })
      | saturated ↦ saturated
      | spinning ↦ spinning
    ]

  -- `erase(Handle)` where Rehash is false
  unfoldable pub erase_at {ℓ} : {V : Type ℓ} → ℕ → OpenAddressMap V → OpenAddressMap V
  erase_at i m = record {
    table = update m.table i (record (m.table i) { state = tombstone });
    tombstones = add64 m.tombstones 1;
  }

  -- `erase(const Key&)`
  unfoldable pub erase {ℓ} :
      (next : Next) {V : Type ℓ} → ℕ → OpenAddressMap V → Result (OpenAddressMap V)
  erase next key m = elim (find next key m) [
    | done (none, m') ↦ done m'
    | done (some i, m') ↦ done (erase_at i m')
    | saturated ↦ saturated
    | spinning ↦ spinning
  ]
