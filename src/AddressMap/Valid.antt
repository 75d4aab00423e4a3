-- ===== src/AddressMap/Valid.antt =====
-- include/util/open_address_map.h: the invariant of the table, and what `find`, `operator[]` and
-- `erase` do to the slots.
use itch_order_book.Common.{
  ℕ, ◌<◌, ◌≡◌, ◌≢◌, inl, inr, sym, ◌∙◌, ap, subst, arith, dec_lt, ℕ_discrete, update, update_self,
  update-ne,
}
use itch_order_book.AddressMap.{empty, occupied, tombstone, Slot, Next, hash}
use itch_order_book.AddressMap.Sequence.{Sequence}
use itch_order_book.AddressMap.Probe.{Trodden, Holds, Missed, Found}

module _ {ℓ} {V : Type ℓ} {cap : ℕ} {next : Next} (seq : Sequence cap next) where
  open seq use {visit, period}

  -- slot `i` is on the walk for `key`, and no slot before it is empty
  pub record Reached (table : ℕ → Slot V) (key i : ℕ) : Type 0 where
    pub distance : ℕ
    pub near : distance < period
    pub lands : visit (hash cap key) distance ≡ i
    pub trodden : Trodden seq table (hash cap key) distance

  -- An occupied slot is reached by the walk for its key, and no key is in two slots.
  pub record IsTable (table : ℕ → Slot V) : Type 0 where
    pub placed : (i key : ℕ) → Holds seq table i key → Reached table key i
    pub unique : (i j key : ℕ) → Holds seq table i key → Holds seq table j key → i ≡ j

  module _ {table : ℕ → Slot V} (valid : IsTable table) where
    -- a walk that ends without the key shows that no slot holds it
    pub not-Holds_of_Missed : (key i : ℕ) → Missed seq table key → ¬ Holds seq table i key
    not-Holds_of_Missed key i miss h =
        let r = valid.placed i key h in
        elim (dec_lt r.distance miss.last) [
          | yes lt ↦ miss.missed r.distance lt (subst (λ x. Holds seq table x key) (sym r.lands) h)
          | no ge ↦ elim miss.ended [
            | inl e ↦ absurd (omega (arith, r.near))
            | inr e ↦ elim (ℕ_discrete r.distance miss.last) [
              | yes same ↦
                  let occ : (table (visit (hash cap key) miss.last)).state ≡ occupied =
                    subst (λ x. (table x).state ≡ occupied)
                      (sym r.lands ∙ ap (visit (hash cap key)) same) h.1 in
                  cc
              | no more ↦ r.trodden miss.last (omega arith) e
            ]
          ]
        ]

    Found-Reached : (key i : ℕ) → Found seq table key i → Reached table key i
    Found-Reached key i (inl h) = valid.placed i key h
    Found-Reached key i (inr v) = record {
      distance = v.distance;
      near = v.near;
      lands = v.reached;
      trodden = v.trodden;
    }

    pub Found-inside : (key i : ℕ) → Found seq table key i → i < cap
    Found-inside key i (inl h) = h.0
    Found-inside key i (inr v) = v.inside

    -- another slot than the found one does not hold the key
    Found-only : (key i j : ℕ) → Found seq table key i → i ≢ j → ¬ Holds seq table j key
    Found-only key i j (inl h) ne g = ne (valid.unique i j key h g)
    Found-only key i j (inr v) ne g = not-Holds_of_Missed key j v.missed g

    -- The slots after a write of `s` at slot `i`.
    module _ (i : ℕ) (s : Slot V) where
      abbrev written : ℕ → Slot V
      written = update table i s

      written-Trodden :
          s.state ≢ empty → (h j : ℕ) → Trodden seq table h j → Trodden seq written h j
      written-Trodden ne h j t e lt = elim (ℕ_discrete i (visit h e)) [
        | yes same ↦ rw (← same, update_self table i s) ne
        | no other ↦ rw (update-ne table i s (visit h e) other) (t e lt)
      ]

      pub written-Holds_ne : (j q : ℕ) → i ≢ j → Holds seq written j q → Holds seq table j q
      written-Holds_ne j q ne h = rw (update-ne table i s j ne) at h

      pub Holds-written_ne : (j q : ℕ) → i ≢ j → Holds seq table j q → Holds seq written j q
      Holds-written_ne j q ne h = rw (update-ne table i s j ne) h

      Reached-written : s.state ≢ empty → (q j : ℕ) → Reached table q j → Reached written q j
      Reached-written ne q j r = record {
        distance = r.distance;
        near = r.near;
        lands = r.lands;
        trodden = written-Trodden ne (hash cap q) r.distance r.trodden;
      }

    -- A write of the found slot keeps the invariant.
    module _ (key i : ℕ) (v : V) (f : Found seq table key i) where
      abbrev slot : Slot V
      slot = record { key = key; value = v; state = occupied }

      pub stored_key : (j q : ℕ) → i ≡ j → Holds seq (update table i slot) j q → key ≡ q
      stored_key j q same h =
          let e : update table i slot j ≡ slot = rw (← same) (update_self table i slot) in
          ap (λ x. x.key) (sym e) ∙ h.2

      pub elsewhere : (j q : ℕ) → i ≢ j → Holds seq (update table i slot) j q → q ≢ key
      elsewhere j q ne h e =
          Found-only key i j f ne (subst (Holds seq table j) e (written-Holds_ne i slot j q ne h))

      pub IsTable-store : IsTable (update table i slot)
      IsTable-store = record {
        placed = λ j q h. elim (ℕ_discrete i j) [
          | yes same ↦
              subst (λ x. Reached (update table i slot) x j) (stored_key j q same h)
                (subst (Reached (update table i slot) key) same
                  (Reached-written i slot (λ e. cc) key i (Found-Reached key i f)))
          | no ne ↦
              Reached-written i slot (λ e. cc) q j
                (valid.placed j q (written-Holds_ne i slot j q ne h))
        ];
        unique = λ j k q h g. elim (ℕ_discrete i j) [
          | yes a ↦ elim (ℕ_discrete i k) [
            | yes b ↦ sym a ∙ b
            | no b ↦ absurd (elsewhere k q b g (sym (stored_key j q a h)))
          ]
          | no a ↦ elim (ℕ_discrete i k) [
            | yes b ↦ absurd (elsewhere j q a h (sym (stored_key k q b g)))
            | no b ↦
                valid.unique j k q (written-Holds_ne i slot j q a h)
                  (written-Holds_ne i slot k q b g)
          ]
        ];
      }

    -- So does a tombstone in any slot.
    module _ (i : ℕ) where
      abbrev grave : Slot V
      grave = record (table i) { state = tombstone }

      pub grave_ne : (j q : ℕ) → Holds seq (update table i grave) j q → i ≢ j
      grave_ne j q h same =
          let e : update table i grave j ≡ grave = rw (← same) (update_self table i grave) in
          let t : tombstone ≡ occupied = ap (λ x. x.state) (sym e) ∙ h.1 in cc

      pub IsTable-remove : IsTable (update table i grave)
      IsTable-remove = record {
        placed = λ j q h.
            Reached-written i grave (λ e. cc) q j
              (valid.placed j q (written-Holds_ne i grave j q (grave_ne j q h) h));
        unique = λ j k q h g.
            valid.unique j k q (written-Holds_ne i grave j q (grave_ne j q h) h)
              (written-Holds_ne i grave k q (grave_ne k q g) g);
      }

      pub grave-Holds : (j q : ℕ) → Holds seq (update table i grave) j q → Holds seq table j q
      grave-Holds j q h = written-Holds_ne i grave j q (grave_ne j q h) h
