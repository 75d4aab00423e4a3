-- ===== src/AddressMap/Contract.antt =====
-- include/util/open_address_map.h: what each public operation promises, and a run of operations
-- against a map that is a function.
use itch_order_book.Common.{
  ℕ, ◌≡◌, inl, inr, refl, sym, ◌∙◌, ap, subst, Bool-cases, ◌==◌, ==_iff, if◌then◌else◌, Option,
  none, some, update,
}
use itch_order_book.AddressMap.{
  occupied, Slot, OpenAddressMap, Next, Result, done, saturated, spinning, find, assign, erase,
  erase_at, write_at,
}
use itch_order_book.AddressMap.Sequence.{Sequence}
use itch_order_book.AddressMap.Probe.{Holds, AllTaken}
use itch_order_book.AddressMap.Valid.{IsTable}
use itch_order_book.AddressMap.Find.{
  HasFree, Holds-of-AllTaken, Finds, find-Finds, Assigns, assign-Assigns,
}
use itch_order_book.AddressMap.View.{
  view, view-eq-some, view-eq-none, view-assign, view-erase_at, view-stored, stored-IsTable,
  view-elsewhere,
}

module _ {ℓ} {V : Type ℓ} {cap : ℕ} {next : Next} (seq : Sequence cap next) where
  -- `*handle = value` through a handle to the slot of a key: the table stays valid, the key reads
  -- as the value and every other key reads as before.
  pub view-write_at :
      (m : OpenAddressMap V) (key i : ℕ) (v : V)
      → IsTable seq m.table
      → Holds seq m.table i key
      → IsTable seq (write_at i v m).table
        × ((q : ℕ)
            → view cap next (write_at i v m) q ≡ (if q == key then some v else view cap next m q))
  unfolding write_at
  view-write_at m key i v valid h =
      let kept : record { key = key; value = v; state = occupied }
          ≡ record (m.table i) { value = v } =
        λ j. record { key = sym h.2 j; value = v; state = sym h.1 j } in
      subst
        (λ (s : Slot V).
          IsTable seq (update m.table i s)
          × ((q : ℕ)
              → view cap next (record m { table = update m.table i s }) q
                ≡ (if q == key then some v else view cap next m q)))
        kept
        (
          stored-IsTable seq m key i v m.tombstones valid (inl h),
          view-stored seq m key i v m.tombstones valid (inl h),
        )

  -- what `find` may answer on a valid table: a handle to the slot of the key, the null handle, or
  -- the exception
  pub data FindCase (m : OpenAddressMap V) (key : ℕ) (r : Result (Option ℕ × OpenAddressMap V))
      : Type ℓ where
    present :
        (i : ℕ) (m' : OpenAddressMap V)
        → r ≡ done (some i, m')
        → m'.table ≡ m.table
        → Holds seq m.table i key
        → view cap next m key ≡ some (m.table i).value
        → FindCase m key r
    missing :
        (m' : OpenAddressMap V)
        → r ≡ done (none, m')
        → m'.table ≡ m.table
        → ((i : ℕ) → ¬ Holds seq m.table i key)
        → HasFree seq m.table
        → view cap next m key ≡ none
        → FindCase m key r
    full :
        r ≡ saturated
        → AllTaken seq m.table key
        → ((i : ℕ) → ¬ Holds seq m.table i key)
        → view cap next m key ≡ none
        → FindCase m key r

  -- `find` on a valid table ends, with the slots unchanged. It returns a handle to the slot that
  -- holds the key, where the map's value stands; or the null handle, and then no slot holds the
  -- key, one of the slots is free and the map has no value for the key; or it throws, and then
  -- every slot is taken by another key, none holds this one and the map has no value for it.
  pub find_lem :
      (m : OpenAddressMap V) (key : ℕ) → IsTable seq m.table → FindCase m key (find cap next key m)
  find_lem m key valid = go (find cap next key m) (find-Finds seq m key valid)
    where
      go : (r : Result (Option ℕ × OpenAddressMap V)) → Finds seq m.table key r → FindCase m key r
      go (done (some i, m')) (h, e) = present i m' refl e h (view-eq-some seq m key i valid h)
      go (done (none, m')) (h, f, e) = missing m' refl e h f (view-eq-none seq m key valid h)
      go saturated (a, _) =
          let h : (i : ℕ) → ¬ Holds seq m.table i key =
            λ i. Holds-of-AllTaken seq m.table key i a in
          full refl a h (view-eq-none seq m key valid h)
      go spinning (a, _) = absurd a

  -- what writing the value of a key may do to a valid table
  pub data AssignCase (m : OpenAddressMap V) (key : ℕ) (v : V) (r : Result (OpenAddressMap V))
      : Type ℓ where
    written :
        (m' : OpenAddressMap V)
        → r ≡ done m'
        → IsTable seq m'.table
        → ((q : ℕ) → view cap next m' q ≡ (if q == key then some v else view cap next m q))
        → AssignCase m key v r
    full :
        r ≡ saturated → AllTaken seq m.table key → view cap next m key ≡ none → AssignCase m key v r

  -- `map[key] = value` on a valid table ends. Either it keeps the table valid, the key then has the
  -- value and every other key is as before; or it throws, and then every slot is taken by another
  -- key and the map has no value for this one.
  pub assign_lem :
      (m : OpenAddressMap V) (key : ℕ) (v : V)
      → IsTable seq m.table
      → AssignCase m key v (assign cap next key v m)
  assign_lem m key v valid = go (assign cap next key v m) refl (assign-Assigns seq m key v)
    where
      go :
          (r : Result (OpenAddressMap V))
          → assign cap next key v m ≡ r
          → Assigns seq m.table key v r
          → AssignCase m key v r
      go (done m') e a = let (t, w) = view-assign seq m m' key v valid e in written m' refl t w
      go saturated e (a, _) =
          full refl a (view-eq-none seq m key valid (λ i. Holds-of-AllTaken seq m.table key i a))
      go spinning e (a, _) = absurd a

  -- a table with the same slots reads the same
  pub IsTable-same :
      (m m' : OpenAddressMap V) → m'.table ≡ m.table → IsTable seq m.table → IsTable seq m'.table
  IsTable-same m m' e valid = subst (IsTable seq) (sym e) valid

  pub view-same :
      (m m' : OpenAddressMap V) (q : ℕ)
      → m'.table ≡ m.table
      → IsTable seq m.table
      → view cap next m' q ≡ view cap next m q
  view-same m m' q e valid =
      view-elsewhere seq m m' q valid (IsTable-same m m' e valid)
        (λ j h. (subst (λ x. Holds seq x j q) (sym e) h, ap (λ x. x j) e))
        (λ j h. subst (λ x. Holds seq x j q) e h)

  -- what erasing a key may do to a valid table
  pub data EraseCase (m : OpenAddressMap V) (key : ℕ) (r : Result (OpenAddressMap V)) : Type ℓ where
    erased :
        (m' : OpenAddressMap V)
        → r ≡ done m'
        → IsTable seq m'.table
        → ((q : ℕ) → view cap next m' q ≡ (if q == key then none else view cap next m q))
        → EraseCase m key r
    full : r ≡ saturated → AllTaken seq m.table key → EraseCase m key r

  -- `erase(key)` on a valid table ends. Either it keeps the table valid, the key then has no value
  -- and every other key is as before; or it throws, and then every slot is taken by another key.
  pub erase_lem :
      (m : OpenAddressMap V) (key : ℕ)
      → IsTable seq m.table
      → EraseCase m key (erase cap next key m)
  unfolding erase
  erase_lem m key valid = elim (find_lem m key valid) [
    | full e a no_slot nothing ↦ full (rw (e, erase)) a
    | missing m' e same no_slot gap nothing ↦
        erased m' (rw (e, erase)) (IsTable-same m m' same valid) (λ q.
          elim (Bool-cases (q == key)) [
            | inl p ↦ rw (p, view-same m m' q same valid, (==_iff q key).0 p) nothing
            | inr p ↦ rw (p, view-same m m' q same valid)
          ])
    | present i m' e same h there ↦
        let valid' = IsTable-same m m' same valid in
        let (t, w) =
          view-erase_at seq m' key i valid' (subst (λ x. Holds seq x i key) (sym same) h) in
        erased (erase_at cap i m') (rw (e, erase)) t
          (λ q. w q ∙ ap (λ o. if q == key then none else o) (view-same m m' q same valid))
  ]
