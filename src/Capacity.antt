-- ===== src/Capacity.antt =====
-- The power-of-two capacities of include/util/open_address_map.h, include/util/ring_buffer.h and
-- include/spmc/ring_buffer.h, and `x & MASK` with MASK one less than the capacity.
use Prim.Native.Nat.{bit_and, bit_and-bitwise, digits}
use native.Mathlib.Nat.{
  add-mul-mod_self_left, mod-eq_of_lt, div-add-mod, mod-lt, zero-mod, pow-suc, mod-eq-sub-mod,
  mod-add-mod, pow-le-pow_right, mod-one,
}
use itch_order_book.Common.{
  ℕ, zero, suc, ◌+◌, ◌-◌, ◌*◌, ◌/◌, ◌%◌, ◌^◌, ◌≤◌, ◌<◌, ◌≡◌, ◌≢◌, sym, ◌∙◌, ap, arith, min,
  word_mod, dec_lt,
}

-- the remainder by an even number, from the last bit and the bits above
mod_double : (a m : ℕ) → 0 < m → (a / 2 % m) * 2 + a % 2 ≡ a % (m * 2)
mod_double a m pos =
    let low : ℕ = (a / 2 % m) * 2 + a % 2 in
    let high : ℕ = a / 2 / m in
    let split : a ≡ low + m * 2 * high =
      omega (arith, ap (λ (t : ℕ). t * 2) (div-add-mod (a / 2) m)) in
    let small : low < m * 2 = omega (arith, mod-lt (a / 2) pos) in
    sym (ap (λ x. x % (m * 2)) split ∙ add-mul-mod_self_left low (m * 2) high ∙ mod-eq_of_lt small)

pow_pos : (k : ℕ) → 0 < 2 ^ k
pow_pos k = pow-le-pow_right {n = 2} (omega arith) {i = 0} {j = k} (omega arith)

mask_digits : (k n a : ℕ) → a ≤ n → digits (λ b. 0) min n a (2 ^ k - 1) ≡ a % 2 ^ k
mask_digits k zero zero h = sym (zero-mod (2 ^ k))
mask_digits k zero (suc a) h = absurd (omega arith)
mask_digits k (suc n) zero h = sym (zero-mod (2 ^ k))
mask_digits zero (suc n) (suc a) h =
    omega
      (arith, mask_digits zero n (suc a / 2) (omega arith), mod-one (suc a / 2), mod-one (suc a))
mask_digits (suc k) (suc n) (suc a) h =
    let half : (2 ^ suc k - 1) / 2 ≡ 2 ^ k - 1 = omega (arith, pow-suc 2 k, pow_pos k) in
    let odd : (2 ^ suc k - 1) % 2 ≡ 1 = omega (arith, pow-suc 2 k, pow_pos k) in
    rw (half, odd, mask_digits k n (suc a / 2) (omega arith), pow-suc 2 k)
      (omega (arith, mod_double (suc a) (2 ^ k) (pow_pos k)))

-- masking keeps the remainder
pub bit_and_mask : (k a : ℕ) → bit_and a (2 ^ k - 1) ≡ a % 2 ^ k
bit_and_mask k a = bit_and-bitwise a (2 ^ k - 1) ∙ mask_digits k a a (omega arith)

-- the capacity is a power of two that a `std::size_t` holds
pub record IsCapacity (cap : ℕ) : Type 0 where
  pub bits : ℕ
  pub power : cap ≡ 2 ^ bits
  pub fits : cap < word_mod

pub IsCapacity-pos : (cap : ℕ) → IsCapacity cap → 0 < cap
IsCapacity-pos cap c = omega (arith, c.power, pow_pos c.bits)

-- `a & MASK`
pub masked : (cap : ℕ) → IsCapacity cap → (a : ℕ) → bit_and a (cap - 1) ≡ a % cap
masked cap c a = rw c.power (bit_and_mask c.bits a)

-- fewer than `cap` steps round the array do not come back
pub mod_away : (cap h j : ℕ) → h < cap → 0 < j → j < cap → (h + j) % cap ≢ h
mod_away cap h j lt pos small = elim (dec_lt (h + j) cap) [
  | yes p ↦ omega (arith, mod-eq_of_lt p)
  | no p ↦ omega (
    arith,
    mod-eq-sub-mod {n = h + j} {m = cap} (omega arith),
    mod-eq_of_lt {n = h + j - cap} {m = cap} (omega arith),
  )
]

-- two numbers less than `cap` apart have different remainders
pub mod_ne : (cap i j : ℕ) → i < j → j < i + cap → i % cap ≢ j % cap
mod_ne cap i j lt near e =
    mod_away cap (i % cap) (j - i) (mod-lt i (omega arith)) (omega arith) (omega arith)
      (mod-add-mod i cap (j - i) ∙ ap (λ x. x % cap) (omega arith) ∙ sym e)
