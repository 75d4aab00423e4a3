-- ===== src/AddressMap/View.antt =====
-- include/util/open_address_map.h: the table as a map from keys to values.
use itch_order_book.Common.{
  ℕ, ◌≡◌, ◌≢◌, ◌⊎◌, inl, inr, refl, sym, ◌∙◌, ap, subst, arith, ℕ_discrete, Bool-cases, ◌==◌,
  ==_iff, if◌then◌else◌, Option, none, some, update, update_self, update-ne,
}
use itch_order_book.AddressMap.{
  occupied, Slot, OpenAddressMap, Next, Result, done, saturated, spinning, find, assign, erase_at,
}
use itch_order_book.AddressMap.Sequence.{Sequence}
use itch_order_book.AddressMap.Probe.{Holds, Found}
use itch_order_book.AddressMap.Valid.{
  IsTable, IsTable-store, IsTable-remove, Holds-written_ne, grave-Holds, grave_ne, Found-inside,
  stored_key, written-Holds_ne,
}
use itch_order_book.AddressMap.Find.{Holds-of-AllTaken, Finds, find-Finds, Assigns, assign-Assigns}

-- the value that a client reads through `find(key)`
abbrev value_of {ℓ} : {V : Type ℓ} → Result (Option ℕ × OpenAddressMap V) → Option V
value_of (done (some i, m)) = some (m.table i).value
value_of (done (none, m)) = none
value_of saturated = none
value_of spinning = none

unfoldable pub view {ℓ} : (cap : ℕ) (next : Next) {V : Type ℓ} → OpenAddressMap V → ℕ → Option V
view cap next m key = value_of (find cap next key m)

module _ {ℓ} {V : Type ℓ} {cap : ℕ} {next : Next} (seq : Sequence cap next) where
  -- a slot with the key is read, and none is read where no slot has it
  Reads : OpenAddressMap V → ℕ → Option V → Type ℓ
  Reads m key o =
      ((i : ℕ) × Holds seq m.table i key × (o ≡ some (m.table i).value))
      ⊎ (((i : ℕ) → ¬ Holds seq m.table i key) × (o ≡ none))

  view-Reads :
      (m : OpenAddressMap V) (key : ℕ) → IsTable seq m.table → Reads m key (view cap next m key)
  unfolding view Reads
  view-Reads m key valid = go (find cap next key m) (find-Finds seq m key valid)
    where
      go :
          (r : Result (Option ℕ × OpenAddressMap V))
          → Finds seq m.table key r
          → Reads m key (value_of r)
      go (done (some i, m')) (h, e) = inl (i, h, ap (λ t. some (t i).value) e)
      go (done (none, m')) (h, _, e) = inr (h, refl)
      go saturated (a, _) = inr (λ i. Holds-of-AllTaken seq m.table key i a, refl)
      go spinning (a, _) = absurd a

  pub view-eq-some :
      (m : OpenAddressMap V) (key i : ℕ)
      → IsTable seq m.table
      → Holds seq m.table i key
      → view cap next m key ≡ some (m.table i).value
  unfolding Reads
  view-eq-some m key i valid h = elim (view-Reads m key valid) [
    | inl (j, g, e) ↦ rw (e, valid.unique i j key h g)
    | inr (g, e) ↦ absurd (g i h)
  ]

  pub view-eq-none :
      (m : OpenAddressMap V) (key : ℕ)
      → IsTable seq m.table
      → ((i : ℕ) → ¬ Holds seq m.table i key)
      → view cap next m key ≡ none
  unfolding Reads
  view-eq-none m key valid h = elim (view-Reads m key valid) [
    | inl (j, g, e) ↦ absurd (h j g)
    | inr (g, e) ↦ e
  ]

  -- whether a slot holds the key
  pub Holds-cases :
      (m : OpenAddressMap V) (key : ℕ)
      → IsTable seq m.table
      → ((i : ℕ) × Holds seq m.table i key) ⊎ ((i : ℕ) → ¬ Holds seq m.table i key)
  unfolding Reads
  Holds-cases m key valid = elim (view-Reads m key valid) [
    | inl (j, g, e) ↦ inl (j, g)
    | inr (g, e) ↦ inr g
  ]

  -- what stands in the found slot, if anything, is the key
  Found-key :
      (table : ℕ → Slot V) (key i q : ℕ) → Found seq table key i → Holds seq table i q → q ≡ key
  Found-key table key i q (inl h) g = sym g.2 ∙ h.2
  Found-key table key i q (inr v) g = absurd (v.free g.1)

  -- reading after the table at one key has changed: elsewhere a slot holds a key just as before
  pub view-elsewhere :
      (m m' : OpenAddressMap V) (q : ℕ)
      → IsTable seq m.table
      → IsTable seq m'.table
      → ((j : ℕ) → Holds seq m.table j q → Holds seq m'.table j q × (m'.table j ≡ m.table j))
      → ((j : ℕ) → Holds seq m'.table j q → Holds seq m.table j q)
      → view cap next m' q ≡ view cap next m q
  view-elsewhere m m' q valid valid' on back = elim (Holds-cases m q valid) [
    | inl (j, g) ↦
        let (g', e) = on j g in rw (view-eq-some m' q j valid' g', view-eq-some m q j valid g, e)
    | inr no_slot ↦
        rw (view-eq-none m q valid no_slot, view-eq-none m' q valid' (λ j h. no_slot j (back j h)))
  ]

  module _ (m : OpenAddressMap V) (key i : ℕ) (v : V) (n : ℕ) (valid : IsTable seq m.table)
      (f : Found seq m.table key i) where
    abbrev slot : Slot V
    slot = record { key = key; value = v; state = occupied }

    abbrev stored : OpenAddressMap V
    stored = record { table = update m.table i slot; tombstones = n }

    pub stored-IsTable : IsTable seq stored.table
    stored-IsTable = IsTable-store seq valid key i v f

    view-stored_self : view cap next stored key ≡ some v
    view-stored_self =
        let at : stored.table i ≡ slot = update_self m.table i slot in
        view-eq-some stored key i stored-IsTable
          (Found-inside seq valid key i f, ap (λ s. s.state) at, ap (λ s. s.key) at)
        ∙ ap (λ s. some s.value) at

    view-stored_ne : (q : ℕ) → q ≢ key → view cap next stored q ≡ view cap next m q
    view-stored_ne q ne =
        view-elsewhere m stored q valid stored-IsTable
          (λ j g.
            let other : i ≢ j = λ e.
              ne (Found-key m.table key i q f (subst (λ x. Holds seq m.table x q) (sym e) g)) in
            (Holds-written_ne seq valid i slot j q other g, update-ne m.table i slot j other))
          (λ j g. elim (ℕ_discrete i j) [
            | yes e ↦ absurd (ne (sym (stored_key seq valid key i v f j q e g)))
            | no other ↦ written-Holds_ne seq valid i slot j q other g
          ])

    pub view-stored :
        (q : ℕ) → view cap next stored q ≡ (if q == key then some v else view cap next m q)
    view-stored q = elim (Bool-cases (q == key)) [
      | inl e ↦ rw (e, (==_iff q key).0 e) view-stored_self
      | inr e ↦ rw e (view-stored_ne q (λ p. ground arith))
    ]

  module _ (m : OpenAddressMap V) (key i : ℕ) (valid : IsTable seq m.table)
      (h : Holds seq m.table i key) where
    erased-IsTable : IsTable seq (erase_at cap i m).table
    unfolding erase_at
    erased-IsTable = IsTable-remove seq valid i

    view-erase_at_self : view cap next (erase_at cap i m) key ≡ none
    unfolding erase_at
    view-erase_at_self = view-eq-none (erase_at cap i m) key erased-IsTable (λ j g.
        grave_ne seq valid i j key g (valid.unique i j key h (grave-Holds seq valid i j key g)))

    view-erase_at_ne : (q : ℕ) → q ≢ key → view cap next (erase_at cap i m) q ≡ view cap next m q
    unfolding erase_at
    view-erase_at_ne q ne =
        view-elsewhere m (erase_at cap i m) q valid erased-IsTable
          (λ j g.
            let other : i ≢ j =
              λ e. ne (sym (subst (λ x. (m.table x).key ≡ q) (sym e) g.2) ∙ h.2) in
            (Holds-written_ne seq valid i _ j q other g, update-ne m.table i _ j other))
          (λ j g. grave-Holds seq valid i j q g)

    -- Erasing through a handle to the slot of a key keeps the table valid; the key then reads as
    -- absent, and every other key reads as before.
    pub view-erase_at :
        IsTable seq (erase_at cap i m).table
        × ((q : ℕ)
            → view cap next (erase_at cap i m) q ≡ (if q == key then none else view cap next m q))
    view-erase_at = (
      erased-IsTable,
      λ q. elim (Bool-cases (q == key)) [
        | inl e ↦ rw (e, (==_iff q key).0 e) view-erase_at_self
        | inr e ↦ rw e (view-erase_at_ne q (λ p. ground arith))
      ],
    )

  -- A write of a key that returns keeps the table valid; the key then reads as the value, and every
  -- other key reads as before.
  pub view-assign :
      (m m' : OpenAddressMap V) (key : ℕ) (v : V)
      → IsTable seq m.table
      → assign cap next key v m ≡ done m'
      → IsTable seq m'.table
        × ((q : ℕ) → view cap next m' q ≡ (if q == key then some v else view cap next m q))
  view-assign m m' key v valid e =
      let (i, f, w) = subst (Assigns seq m.table key v) e (assign-Assigns seq m key v) in
      let same : stored m key i v m'.tombstones valid f ≡ m' =
        ap (λ t. record m' { table = t }) (sym w) in
      subst
        (λ (x : OpenAddressMap V).
          IsTable seq x.table
          × ((q : ℕ) → view cap next x q ≡ (if q == key then some v else view cap next m q)))
        same
        (
          stored-IsTable m key i v m'.tombstones valid f,
          view-stored m key i v m'.tombstones valid f,
        )
