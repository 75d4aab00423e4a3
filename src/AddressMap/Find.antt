-- ===== src/AddressMap/Find.antt =====
-- include/util/open_address_map.h: what `find`, `map[key] = value` and `erase` return and write.
use mathlib.Core.Path.{fun_ext}
use itch_order_book.Common.{
  ℕ, ◌<◌, ◌≡◌, ◌≢◌, inl, inr, refl, ◌∙◌, ap, arith, if◌then◌else◌, Option, none, some, true, false,
  update, update_self,
}
use itch_order_book.AddressMap.{
  occupied, Slot, OpenAddressMap, Next, Result, done, saturated, spinning, matches,
  probe_for_slot_idx, at_key, assign, find, new_map,
}
use itch_order_book.AddressMap.Sequence.{Sequence}
use itch_order_book.AddressMap.Probe.{Holds, Found, AllTaken, Answer}
use itch_order_book.AddressMap.Rounds.{probe_for_slot_idx-Answer}
use itch_order_book.AddressMap.Valid.{IsTable, not-Holds_of_Missed}

module _ {ℓ} {V : Type ℓ} {cap : ℕ} {next : Next} (seq : Sequence cap next) where
  pub Holds-of-AllTaken :
      (table : ℕ → Slot V) (key i : ℕ) → AllTaken seq table key → ¬ Holds seq table i key
  Holds-of-AllTaken table key i a h = (a i h.0).1 h.2

  -- a slot of the capacity that no key takes
  pub record HasFree (table : ℕ → Slot V) : Type 0 where
    pub slot : ℕ
    pub inside : slot < cap
    pub free : (table slot).state ≢ occupied

  -- a handle to the slot that holds the key, or none where no slot does and one is free; the slots
  -- are unchanged
  abbrev pub Finds : (ℕ → Slot V) → ℕ → Result (Option ℕ × OpenAddressMap V) → Type ℓ
  Finds table key (done (some i, m')) = Holds seq table i key × (m'.table ≡ table)
  Finds table key (done (none, m')) =
      ((i : ℕ) → ¬ Holds seq table i key) × HasFree table × (m'.table ≡ table)
  Finds table key saturated = AllTaken seq table key × Unit {ℓ}
  Finds table key spinning = ⊥ × Unit {ℓ}

  pub find-Finds :
      (m : OpenAddressMap V) (key : ℕ)
      → IsTable seq m.table
      → Finds m.table key (find cap next key m)
  unfolding find
  find-Finds m key valid =
      go (probe_for_slot_idx cap next m key) (probe_for_slot_idx-Answer seq m key)
    where
      go :
          (r : Result (ℕ × ℕ))
          → Answer seq m.table key r
          → Finds m.table key (elim r [
            | done (i, n) ↦
                done (if matches (m.table i) key then some i else none, record m { tombstones = n })
            | saturated ↦ saturated
            | spinning ↦ spinning
          ])
      go (done (i, n)) (inl h) =
          let e : matches (m.table i) key ≡ true = ground arith in rw e (h, refl)
      go (done (i, n)) (inr v) =
          let e : matches (m.table i) key ≡ false = ground (arith, v.free) in
          rw e (
            λ j. not-Holds_of_Missed seq valid key j v.missed,
            record { slot = i; inside = v.inside; free = v.free },
            refl,
          )
      go saturated a = (a, tt)
      go spinning a = absurd a

  -- the value is written into the slot of the key; no slot is left for it only where all are taken
  abbrev pub Assigns : (ℕ → Slot V) → ℕ → V → Result (OpenAddressMap V) → Type ℓ
  Assigns table key v (done m') =
      (i : ℕ) × Found seq table key i
      × (m'.table ≡ update table i (record { key = key; value = v; state = occupied }))
  Assigns table key v saturated = AllTaken seq table key × Unit {ℓ}
  Assigns table key v spinning = ⊥ × Unit {ℓ}

  update-update :
      (table : ℕ → Slot V) (i : ℕ) (s t : Slot V) → update (update table i s) i t ≡ update table i t
  update-update table i s t = fun_ext λ j. ground arith

  abbrev Opens : OpenAddressMap V → ℕ → Result (ℕ × OpenAddressMap V) → Type ℓ
  Opens m key (done (i, m')) =
      Found seq m.table key i
      × (m'.table ≡ update m.table i (record (m.table i) { key = key; state = occupied }))
  Opens m key saturated = AllTaken seq m.table key × Unit {ℓ}
  Opens m key spinning = ⊥ × Unit {ℓ}

  at_key-Opens : (m : OpenAddressMap V) (key : ℕ) → Opens m key (at_key cap next key m)
  unfolding at_key
  at_key-Opens m key = go (probe_for_slot_idx cap next m key) (probe_for_slot_idx-Answer seq m key)
    where
      go :
          (r : Result (ℕ × ℕ))
          → Answer seq m.table key r
          → Opens m key (elim r [
            | done (i, n) ↦ done (
              i,
              record {
                table = update m.table i (record (m.table i) { key = key; state = occupied });
                tombstones = n;
              },
            )
            | saturated ↦ saturated
            | spinning ↦ spinning
          ])
      go (done (i, n)) f = (f, refl)
      go saturated a = (a, tt)
      go spinning a = absurd a

  pub assign-Assigns :
      (m : OpenAddressMap V) (key : ℕ) (v : V) → Assigns m.table key v (assign cap next key v m)
  unfolding assign
  assign-Assigns m key v = go (at_key cap next key m) (at_key-Opens m key)
    where
      go :
          (r : Result (ℕ × OpenAddressMap V))
          → Opens m key r
          → Assigns m.table key v (elim r [
            | done (i, m') ↦
                done (record m' { table = update m'.table i (record (m'.table i) { value = v }) })
            | saturated ↦ saturated
            | spinning ↦ spinning
          ])
      go (done (i, m')) (f, e) =
          let opened : Slot V = record (m.table i) { key = key; state = occupied } in
          let at : m'.table i ≡ opened = rw e (update_self m.table i opened) in
          (
            i,
            f,
            ap (λ s. update m'.table i (record s { value = v })) at
                ∙ ap (λ t. update t i (record opened { value = v })) e
                ∙ update-update m.table i opened (record opened { value = v }),
          )
      go saturated a = a
      go spinning a = a

  -- A new table holds no key.
  pub IsTable-new_map : (v : V) → IsTable seq (new_map v).table
  unfolding new_map
  IsTable-new_map v = record {
    placed = λ i key h. absurd (cc h.1);
    unique = λ i j key h g. absurd (cc h.1);
  }
