-- ===== src/AddressMap/Rounds.antt =====
-- include/util/open_address_map.h: the rounds of `probe_for_slot_idx` on the walk of a key, to
-- their end.
use itch_order_book.Common.{
  ℕ, zero, suc, ◌+◌, ◌-◌, ◌*◌, ◌≤◌, ◌<◌, ◌≡◌, ◌≢◌, inl, inr, refl, sym, ap, subst, arith, dec_lt,
  Bool-cases, Option-cases, ◌==◌, none, some, ==_iff,
}
use itch_order_book.AddressMap.{
  occupied, Slot, OpenAddressMap, Next, done, saturated, Cursor, Turn, return, throw, again,
  is_empty, matches, hash, advance, round, probe_from, probe_for_slot_idx,
}
use itch_order_book.AddressMap.Sequence.{Sequence}
use itch_order_book.AddressMap.Probe.{
  state-cases, Holds, AllTaken, Answer, Walk, Round, noted-Vacant, empty-Found, passed-Walk,
}

module _ {ℓ} {V : Type ℓ} {cap : ℕ} {next : Next} (seq : Sequence cap next)
    (table : ℕ → Slot V) where
  open seq use {visit, period}

  module _ (key : ℕ) where
    abbrev home : ℕ
    home = hash cap key

    home-lt : home < cap
    home-lt = seq.hashed key

    circled : (j : ℕ) → j < period → visit home (j + 1) ≡ home → j + 1 ≡ period
    circled j lt e = elim (dec_lt (j + 1) period) [
      | yes lt' ↦ absurd (seq.away home (j + 1) home-lt (omega arith) lt' e)
      | no ge ↦ omega arith
    ]

    not_circled : (j : ℕ) → j < period → visit home (j + 1) ≢ home → j + 1 < period
    not_circled j lt ne = elim (dec_lt (j + 1) period) [
      | yes lt' ↦ lt'
      | no ge ↦
          let e : j + 1 ≡ period = omega arith in
          absurd (ne (subst (λ x. visit home x ≡ home) (sym e) (seq.back home home-lt)))
    ]

    all_taken :
        {j : ℕ} {c : Cursor}
        → Walk seq table key j (j + 1) c
        → j + 1 ≡ period
        → c.first_tombstone_idx ≡ none
        → AllTaken seq table key
    all_taken w e p i lt =
        let (d, near, at) = seq.covers home i home-lt lt in
        let occ = subst (λ x. (table x).state ≡ occupied) at (w.taken p d (omega arith)) in
        (
          occ,
          λ q. w.missed d (omega arith) (subst (λ x. Holds seq table x key) (sym at) (lt, occ, q)),
        )

    circle-Round :
        {j : ℕ} (c : Cursor)
        → Walk seq table key j (j + 1) c
        → j + 1 ≡ period
        → Round seq table key j
            (elim c.first_tombstone_idx [ none ↦ throw | some i ↦ return i c.count ])
    circle-Round {j} c w whole = elim (Option-cases c.first_tombstone_idx) [
      | inl p ↦ rw p (all_taken w whole p)
      | inr (i, p) ↦ rw p (
          inr (
            noted-Vacant seq table key i w (omega arith) p (record {
              last = j + 1;
              bound = omega arith;
              trodden = w.trodden;
              missed = w.missed;
              ended = inl whole;
            })))
    ]

    advance-Round :
        {j : ℕ} (c : Cursor)
        → Walk seq table key j (j + 1) c
        → Round seq table key j (advance cap next home c)
    unfolding advance
    advance-Round {j} c w =
        let stepped : next c.probe_idx (c.attempt + 1) (cap - 1) ≡ visit home (j + 1) =
          rw (w.attempts, w.stands) (seq.step home j home-lt w.short) in
        rw stepped (elim (Bool-cases (visit home (j + 1) == home)) [
          | inr ne ↦ rw ne (record {
            short = not_circled j w.short (λ q. ground arith);
            attempts = omega (arith, w.attempts);
            stands = refl;
            trodden = w.trodden;
            missed = w.missed;
            noted = w.noted;
            taken = w.taken;
          })
          | inl e ↦ rw e (circle-Round c w (circled j w.short ((==_iff _ _).0 e)))
        ])

    -- one round from a slot that the walk stands at
    round-Round :
        {j : ℕ} (c : Cursor)
        → Walk seq table key j j c
        → Round seq table key j (round cap next table key home c)
    unfolding round
    round-Round {j} c w = elim (Bool-cases (matches (table c.probe_idx) key)) [
      | inl hit ↦ rw hit (inl (rw w.stands (seq.within home j home-lt), ground arith, ground arith))
      | inr other ↦ elim (state-cases (table c.probe_idx).state) [
        | inr (inl emp) ↦ rw (other, ap is_empty emp) (empty-Found seq table key w emp)
        | inl occ ↦
            rw (other, ap is_empty occ)
              (advance-Round _ (passed-Walk seq table key w (λ q. cc) (λ h. ground arith)))
        | inr (inr tomb) ↦
            rw (other, ap is_empty tomb)
              (advance-Round _ (passed-Walk seq table key w (λ q. cc) (λ h. ground arith)))
      ]
    ]

    -- the loop ends within the walk's period
    probe_from-Answer :
        (rounds j : ℕ) (c : Cursor)
        → Walk seq table key j j c
        → period ≤ rounds + j
        → Answer seq table key (probe_from cap next rounds table key home c)
    unfolding probe_from
    probe_from-Answer zero j c w le = absurd (omega (arith, w.short))
    probe_from-Answer (suc rounds) j c w le =
        go (round cap next table key home c) (round-Round c w)
          (λ c' w'. probe_from-Answer rounds (j + 1) c' w' (omega arith))
      where
        go :
            (t : Turn)
            → Round seq table key j t
            → ((c' : Cursor)
                → Walk seq table key (j + 1) (j + 1) c'
                → Answer seq table key (probe_from cap next rounds table key home c'))
            → Answer seq table key (elim t [
              | return i n ↦ done (i, n)
              | throw ↦ saturated
              | again c' ↦ probe_from cap next rounds table key home c'
            ])
        go (return i n) r ih = r
        go throw r ih = r
        go (again c') r ih = ih c' r

    start-Walk :
        (n : ℕ)
        → Walk seq table key 0 0
            (record { probe_idx = home; attempt = 0; first_tombstone_idx = none; count = n })
    start-Walk n = record {
      short = seq.positive;
      attempts = refl;
      stands = sym (seq.start home home-lt);
      trodden = λ e lt. elim lt [ ];
      missed = λ e lt. elim lt [ ];
      noted = λ i q. cc;
      taken = λ _ e lt. elim lt [ ];
    }

module _ {ℓ} {V : Type ℓ} {cap : ℕ} {next : Next} (seq : Sequence cap next) where
  -- The loop of `probe_for_slot_idx` always ends within the rounds given to it. It returns the slot
  -- that holds the key, or a free slot on the key's walk when no slot of the walk holds it; it
  -- throws only when every slot is taken by another key.
  pub probe_for_slot_idx-Answer :
      (m : OpenAddressMap V) (key : ℕ) → Answer seq m.table key (probe_for_slot_idx cap next m key)
  unfolding probe_for_slot_idx
  probe_for_slot_idx-Answer m key =
      probe_from-Answer seq m.table key (2 * cap) 0 _ (start-Walk seq m.table key m.tombstones)
        (omega (arith, seq.rounds))
