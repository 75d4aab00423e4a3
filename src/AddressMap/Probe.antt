-- ===== src/AddressMap/Probe.antt =====
-- include/util/open_address_map.h: what `probe_for_slot_idx` may return, and the walk of its
-- loop over the slots that a key is looked for in.
use itch_order_book.Common.{
  ℕ, ◌+◌, ◌≤◌, ◌<◌, ◌≡◌, ◌≢◌, ◌⊎◌, inl, inr, refl, sym, ◌∙◌, subst, arith, dec_lt, Option-cases,
  none, some, sub64,
}
use itch_order_book.AddressMap.{
  SlotState, empty, occupied, tombstone, Slot, Next, Result, done, saturated, spinning, Cursor,
  Turn, return, throw, again, first_or, hash, note_tombstone,
}
use itch_order_book.AddressMap.Sequence.{Sequence}

pub state-cases : (s : SlotState) → (s ≡ occupied) ⊎ ((s ≡ empty) ⊎ (s ≡ tombstone))
state-cases occupied = inl refl
state-cases empty = inr (inl refl)
state-cases tombstone = inr (inr refl)

-- one more index below a bound
extend {κ} : (P : ℕ → Type κ) (j : ℕ) → ((e : ℕ) → e < j → P e) → P j → (e : ℕ) → e < j + 1 → P e
extend P j below last e lt = elim (dec_lt e j) [
  | yes p ↦ below e p
  | no p ↦ let q : e ≡ j = omega arith in subst P (sym q) last
]

module _ {ℓ} {V : Type ℓ} (slot : Slot V) (c : Cursor) where
  note_old : (i : ℕ) → c.first_tombstone_idx ≡ some i → note_tombstone slot c ≡ c
  unfolding note_tombstone
  note_old i p = ground arith

  note_other : slot.state ≡ occupied → note_tombstone slot c ≡ c
  unfolding note_tombstone
  note_other occ = ground arith

  note_new :
      c.first_tombstone_idx ≡ none
      → slot.state ≡ tombstone
      → note_tombstone slot c
        ≡ record c { first_tombstone_idx = some c.probe_idx; count = sub64 c.count 1 }
  unfolding note_tombstone
  note_new p tomb = ground arith

module _ {ℓ} {V : Type ℓ} {cap : ℕ} {next : Next} (seq : Sequence cap next)
    (table : ℕ → Slot V) where
  open seq use {visit, period}

  -- the first `j` slots on the walk from `h` are not empty
  abbrev pub Trodden : ℕ → ℕ → Type 0
  Trodden h j = (e : ℕ) → e < j → (table (visit h e)).state ≢ empty

  -- slot `i` holds `key`
  abbrev pub Holds : ℕ → ℕ → Type 0
  Holds i key = (i < cap) × ((table i).state ≡ occupied) × ((table i).key ≡ key)

  -- the walk for `key` ends, at an empty slot or after a whole circle, and did not meet the key
  pub record Missed (key : ℕ) : Type 0 where
    pub last : ℕ
    pub bound : last ≤ period
    pub trodden : Trodden (hash cap key) last
    pub missed : (e : ℕ) → e < last → ¬ Holds (visit (hash cap key) e) key
    pub ended : (last ≡ period) ⊎ ((table (visit (hash cap key) last)).state ≡ empty)

  -- slot `i` can take `key`: it is free, and the walk for the key reaches it
  pub record Vacant (key i : ℕ) : Type 0 where
    pub inside : i < cap
    pub free : (table i).state ≢ occupied
    pub distance : ℕ
    pub near : distance < period
    pub reached : visit (hash cap key) distance ≡ i
    pub trodden : Trodden (hash cap key) distance
    pub missed : Missed key

  abbrev pub Found : ℕ → ℕ → Type 0
  Found key i = Holds i key ⊎ Vacant key i

  -- every slot is taken by another key
  abbrev pub AllTaken : ℕ → Type 0
  AllTaken key = (i : ℕ) → i < cap → ((table i).state ≡ occupied) × ((table i).key ≢ key)

  -- what the probe may answer
  abbrev pub Answer : ℕ → Result (ℕ × ℕ) → Type 0
  Answer key (done (i, n)) = Found key i
  Answer key saturated = AllTaken key
  Answer key spinning = ⊥

  module _ (key : ℕ) where
    abbrev home : ℕ
    home = hash cap key

    home-lt : home < cap
    home-lt = seq.hashed key

    -- the loop's variables at attempt `j`, with the first `n` slots of the walk looked at
    pub record Walk (j n : ℕ) (c : Cursor) : Type 0 where
      pub short : j < period
      pub attempts : c.attempt ≡ j
      pub stands : c.probe_idx ≡ visit home j
      pub trodden : Trodden home n
      pub missed : (e : ℕ) → e < n → ¬ Holds (visit home e) key
      pub noted :
          (i : ℕ)
          → c.first_tombstone_idx ≡ some i
          → (d : ℕ) × (d < n) × (visit home d ≡ i) × ((table i).state ≡ tombstone)
      pub taken :
          c.first_tombstone_idx ≡ none → (e : ℕ) → e < n → (table (visit home e)).state ≡ occupied

    abbrev pub Round : ℕ → Turn → Type 0
    Round j (return i n) = Found key i
    Round j throw = AllTaken key
    Round j (again c) = Walk (j + 1) (j + 1) c

    pub noted-Vacant :
        {j n : ℕ} {c : Cursor} (i : ℕ)
        → Walk j n c
        → n ≤ period
        → c.first_tombstone_idx ≡ some i
        → Missed key
        → Vacant key i
    noted-Vacant i w le e miss =
        let (d, lt, at, tomb) = w.noted i e in
        record {
          inside = subst (λ x. x < cap) at (seq.within home d home-lt);
          free = λ q. cc;
          distance = d;
          near = omega arith;
          reached = at;
          trodden = λ e' le. w.trodden e' (omega arith);
          missed = miss;
        }

    pub empty-Found :
        {j : ℕ} {c : Cursor}
        → Walk j j c
        → (table c.probe_idx).state ≡ empty
        → Found key (first_or c.first_tombstone_idx c.probe_idx)
    empty-Found {j} {c} w e = elim (Option-cases c.first_tombstone_idx) [
      | inr (i, p) ↦ rw p (inr (noted-Vacant i w (omega (arith, w.short)) p miss))
      | inl p ↦ rw p (
          inr (record {
            inside = rw w.stands (seq.within home j home-lt);
            free = λ q. cc;
            distance = j;
            near = w.short;
            reached = sym w.stands;
            trodden = w.trodden;
            missed = miss;
          }))
    ]
      where
        miss : Missed key
        miss = record {
          last = j;
          bound = omega (arith, w.short);
          trodden = w.trodden;
          missed = w.missed;
          ended = inr (rw (← w.stands) e);
        }

    -- a slot that is not empty and does not hold the key is passed
    module _ {j : ℕ} {c : Cursor} (w : Walk j j c) (ne : (table c.probe_idx).state ≢ empty)
        (miss : ¬ Holds c.probe_idx key) where
      passed :
          {c' : Cursor}
          → c'.probe_idx ≡ c.probe_idx
          → c'.attempt ≡ c.attempt
          → ((i : ℕ)
              → c'.first_tombstone_idx ≡ some i
              → (d : ℕ) × (d < j + 1) × (visit home d ≡ i) × ((table i).state ≡ tombstone))
          → (c'.first_tombstone_idx ≡ none
              → (e : ℕ) → e < j + 1
              → (table (visit home e)).state ≡ occupied)
          → Walk j (j + 1) c'
      passed same_idx same_attempt noted taken = record {
        short = w.short;
        attempts = same_attempt ∙ w.attempts;
        stands = same_idx ∙ w.stands;
        trodden =
            extend (λ e. (table (visit home e)).state ≢ empty) j w.trodden
              (subst (λ i. (table i).state ≢ empty) w.stands ne);
        missed =
            extend (λ e. ¬ Holds (visit home e) key) j w.missed
              (subst (λ i. ¬ Holds i key) w.stands miss);
        noted = noted;
        taken = taken;
      }

      noted_before :
          (i : ℕ)
          → c.first_tombstone_idx ≡ some i
          → (d : ℕ) × (d < j + 1) × (visit home d ≡ i) × ((table i).state ≡ tombstone)
      noted_before i q = let (d, lt, at, tomb) = w.noted i q in (d, omega arith, at, tomb)

      pub passed-Walk : Walk j (j + 1) (note_tombstone (table c.probe_idx) c)
      passed-Walk = elim (Option-cases c.first_tombstone_idx) [
        | inr (i, p) ↦
            rw (note_old (table c.probe_idx) c i p) (passed refl refl noted_before (λ q. cc))
        | inl p ↦ elim (state-cases (table c.probe_idx).state) [
          | inl occ ↦ rw (note_other (table c.probe_idx) c occ) (
              passed refl refl noted_before (λ q.
                extend (λ e. (table (visit home e)).state ≡ occupied) j (w.taken p)
                  (subst (λ i. (table i).state ≡ occupied) w.stands occ)))
          | inr (inl emp) ↦ absurd (ne emp)
          | inr (inr tomb) ↦ rw (note_new (table c.probe_idx) c p tomb) (
              passed refl refl
                (λ i q.
                  let same : c.probe_idx ≡ i = cc in
                  (
                    j,
                    omega arith,
                    sym w.stands ∙ same,
                    subst (λ x. (table x).state ≡ tombstone) same tomb,
                  ))
                (λ q. cc))
        ]
      ]
