-- ===== src/AddressMap/Sequence.antt =====
-- include/util/open_address_map.h: `key & MASK` for a power of two, and the slots that a probe
-- policy visits from a home slot.
use native.Mathlib.Nat.{mod-eq_of_lt, mod-eq-sub-mod, mod-add-mod, mod-lt}
use itch_order_book.Common.{
  ℕ, ◌+◌, ◌-◌, ◌*◌, ◌%◌, ◌≤◌, ◌<◌, ◌≡◌, ◌≢◌, ◌∙◌, ap, arith, dec_lt, add64_exact,
}
use itch_order_book.Capacity.{IsCapacity, IsCapacity-pos, masked, mod_away}
use itch_order_book.AddressMap.{Next, linear_next, hash}

-- What the table needs of its capacity and probe policy: from home slot `h` the slot of attempt `j`
-- is `visit h j`; the walk comes back to `h` first after `period` attempts, and meets every slot.
pub record Sequence (cap : ℕ) (next : Next) : Type 0 where
  pub visit : ℕ → ℕ → ℕ
  pub period : ℕ
  pub positive : 0 < period
  pub rounds : period ≤ 2 * cap
  pub hashed : (key : ℕ) → hash cap key < cap
  pub within : (h j : ℕ) → h < cap → visit h j < cap
  pub start : (h : ℕ) → h < cap → visit h 0 ≡ h
  pub step : (h j : ℕ) → h < cap → j < period → next (visit h j) (j + 1) (cap - 1) ≡ visit h (j + 1)
  pub away : (h j : ℕ) → h < cap → 0 < j → j < period → visit h j ≢ h
  pub back : (h : ℕ) → h < cap → visit h period ≡ h
  pub covers : (h i : ℕ) → h < cap → i < cap → (j : ℕ) × (j < period) × (visit h j ≡ i)

hash-eq-mod : (cap : ℕ) → IsCapacity cap → (key : ℕ) → hash cap key ≡ key % cap
unfolding hash
hash-eq-mod cap c key = masked cap c key

linear_back : (cap h : ℕ) → h < cap → (h + cap) % cap ≡ h
linear_back cap h lt = omega (
  arith,
  mod-eq-sub-mod {n = h + cap} {m = cap} (omega arith),
  mod-eq_of_lt {n = h + cap - cap} {m = cap} (omega arith),
)

linear_covers : (cap h i : ℕ) → h < cap → i < cap → (j : ℕ) × (j < cap) × ((h + j) % cap ≡ i)
linear_covers cap h i lt small = elim (dec_lt i h) [
  | yes p ↦ (i + cap - h, omega arith, ap (λ x. x % cap) (omega arith) ∙ linear_back cap i small)
  | no p ↦ (i - h, omega arith, ap (λ x. x % cap) (omega arith) ∙ mod-eq_of_lt small)
]

linear_step :
    (cap : ℕ)
    → IsCapacity cap
    → (h j : ℕ) → linear_next ((h + j) % cap) (j + 1) (cap - 1) ≡ (h + (j + 1)) % cap
unfolding linear_next
linear_step cap c h j =
    let inside : (h + j) % cap < cap = mod-lt (h + j) (IsCapacity-pos cap c) in
    rw (add64_exact ((h + j) % cap) 1 (omega (arith, c.fits)), masked cap c ((h + j) % cap + 1))
      (mod-add-mod (h + j) cap 1 ∙ ap (λ x. x % cap) (omega arith))

-- Linear probing visits the slots one after the other, round the table.
pub linear_sequence : (cap : ℕ) → IsCapacity cap → Sequence cap linear_next
linear_sequence cap c = record {
  visit = λ h j. (h + j) % cap;
  period = cap;
  positive = IsCapacity-pos cap c;
  rounds = omega arith;
  hashed = λ key. rw (hash-eq-mod cap c key) (mod-lt key (IsCapacity-pos cap c));
  within = λ h j lt. mod-lt (h + j) (IsCapacity-pos cap c);
  start = λ h lt. ap (λ x. x % cap) (omega arith) ∙ mod-eq_of_lt lt;
  step = λ h j lt _. linear_step cap c h j;
  away = mod_away cap;
  back = linear_back cap;
  covers = linear_covers cap;
}
