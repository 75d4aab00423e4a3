-- ===== src/Spmc/Indices.antt =====
-- include/spmc/producer.h and consumer.h: what the tests on indices mean while no index wraps.
use itch_order_book.Common.{
  ℕ, zero, suc, ◌+◌, ◌≤◌, ◌<◌, ◌≡◌, ◌⊎◌, inl, inr, refl, ap, sym, arith, Bool, true, false, add64,
  sub64_exact, word_mod, dec_lt, ◌∙◌,
}
use itch_order_book.Spmc.{
  is_valid_write_idx, get_first_read_idx, final_write_idx, check_pop_status, no_failure,
  buffer_insufficient,
}

pub get_first_read_idx-le :
    (n : ℕ) (loaded : ℕ → ℕ) (j : ℕ) → j < n → get_first_read_idx n loaded ≤ loaded j
unfolding get_first_read_idx
get_first_read_idx-le zero loaded j h = absurd (omega arith)
get_first_read_idx-le (suc n) loaded j h = elim (dec_lt j n) [
  | yes p ↦ omega (arith, get_first_read_idx-le n loaded j p)
  | no p ↦ let e : j ≡ n = omega arith in rw e (omega arith)
]

-- the two ways in which the producer finds its last index free, and the way in which it does not
pub is_valid_write_idx-cases :
    (cap w c f : ℕ) (b : Bool) (c' : ℕ)
    → c ≤ w
    → w < word_mod
    → is_valid_write_idx cap w c f ≡ (b, c')
    → ((c' ≡ c) × (w < c + cap)) ⊎ ((c' ≡ f) × (f ≤ w → (b ≡ true) → w < f + cap))
unfolding is_valid_write_idx
is_valid_write_idx-cases cap w c f b c' le fits e =
    ground (arith, sub64_exact w c fits le, sub64_exact w f fits)

pub add64_final : (n w : ℕ) → w + n < word_mod → add64 (final_write_idx n w) 1 ≡ w + n
unfolding final_write_idx
add64_final n w fits = omega arith

pub check_pop_status-admits :
    (r count c v : ℕ) (c' : ℕ)
    → r ≤ c
    → c ≤ v
    → v < word_mod
    → check_pop_status r count c v false ≡ (no_failure, c')
    → (c ≤ c') × (c' ≤ v) × (r + count ≤ c')
unfolding check_pop_status
check_pop_status-admits r count c v c' rc cv fits e =
    ground (arith, sub64_exact c r (omega arith) rc, sub64_exact v r fits (omega arith))

pub check_pop_status-refuses :
    (r count c v : ℕ) (c' : ℕ)
    → check_pop_status r count c v false ≡ (buffer_insufficient, c')
    → c' ≡ v
unfolding check_pop_status
check_pop_status-refuses r count c v c' e = ground arith

-- whatever the producer loads, its cached index stays at or below the index of each consumer
pub is_valid_write_idx-cached :
    (cap w c f : ℕ) (b : Bool) (c' r : ℕ)
    → is_valid_write_idx cap w c f ≡ (b, c')
    → c ≤ r
    → f ≤ r
    → c' ≤ r
unfolding is_valid_write_idx
is_valid_write_idx-cached cap w c f b c' r e cr fr = ground arith

pub final_write_idx_exact : (n w : ℕ) → w + suc n < word_mod → final_write_idx (suc n) w ≡ w + n
unfolding final_write_idx
final_write_idx_exact n w fits = omega arith

-- where the test passes, the items fit between the write index and the index of each consumer
pub is_valid_write_idx-room :
    (cap w n c f c' r : ℕ)
    → c ≤ r
    → f ≤ r
    → r ≤ w
    → w ≤ r + cap
    → w + n < word_mod
    → is_valid_write_idx cap (final_write_idx n w) c f ≡ (true, c')
    → w + n ≤ r + cap
is_valid_write_idx-room cap w zero c f c' r cr fr rw_ near fits e = omega arith
is_valid_write_idx-room cap w (suc n) c f c' r cr fr rw_ near fits e =
    let last = final_write_idx_exact n w fits in
    elim (is_valid_write_idx-cases cap (w + n) c f true c' (omega arith) (omega arith)
      (ap (λ i. is_valid_write_idx cap i c f) (sym last) ∙ e)) [
        | inl p ↦ omega (arith, p.1)
        | inr q ↦ omega (arith, q.1 (omega arith) refl)
      ]
