-- ===== src/Common/Arrays.antt =====
-- Fixed arrays as functions from the index, with update at one index and sums over a prefix.
use Prim.Native.Nat.{ℕ, zero, suc, ◌+◌, ◌≤◌, ◌<◌}
use mathlib.Core.Path.{◌≡◌, refl}
use mathlib.Core.Logic.{◌≢◌}
use native.Mathlib.Decide.{dec_lt, ℕ_discrete}
use native.Mathlib.Omega.{arith}
use itch_order_book.Common.Tests.{◌==◌, if◌then◌else◌}

-- `a[i] = v`
abbrev pub update {ℓ} : {A : Type ℓ} → (ℕ → A) → ℕ → A → ℕ → A
update f i v j = if i == j then v else f j

pub update_self {ℓ} : {A : Type ℓ} (f : ℕ → A) (i : ℕ) (v : A) → update f i v i ≡ v
update_self f i v = ground arith

pub update-ne {ℓ} : {A : Type ℓ} (f : ℕ → A) (i : ℕ) (v : A) (j : ℕ) → i ≢ j → update f i v j ≡ f j
update-ne f i v j h = ground arith

module _ {ℓ} {A : Type ℓ} (w : A → ℕ) where
  -- the sum of the weights of the first `n` entries
  unfoldable pub total : ℕ → (ℕ → A) → ℕ
  total zero f = 0
  total (suc n) f = w (f n) + total n f

  pub total_beyond :
      (f : ℕ → A) (i : ℕ) (v : A) (n : ℕ) → n ≤ i → total n f ≡ total n (update f i v)
  unfolding total
  total_beyond f i v zero h = refl
  total_beyond f i v (suc n) h = let rest = total_beyond f i v n (omega arith) in ground arith

  -- one write changes the sum by the difference of the two weights
  pub total-update :
      (n : ℕ) (f : ℕ → A) (i : ℕ) (v : A)
      → i < n
      → total n (update f i v) + w (f i) ≡ total n f + w v
  unfolding total
  total-update zero f i v h = absurd (omega arith)
  total-update (suc n) f i v h = elim (dec_lt i n) [
    | no top ↦ let rest = total_beyond f i v n (omega arith) in ground arith
    | yes deep ↦ let rest = total-update n f i v deep in ground arith
  ]

  pub weight-le-total : (n : ℕ) (f : ℕ → A) (i : ℕ) → i < n → w (f i) ≤ total n f
  unfolding total
  weight-le-total zero f i h = absurd (omega arith)
  weight-le-total (suc n) f i h = elim (dec_lt i n) [
    | yes below ↦ ground (arith, weight-le-total n f i below)
    | no last ↦ let e : i ≡ n = omega arith in rw e (omega arith)
  ]

  pub total_nothing : (f : ℕ → A) → ((i : ℕ) → w (f i) ≡ 0) → (n : ℕ) → total n f ≡ 0
  unfolding total
  total_nothing f none_weighs zero = refl
  total_nothing f none_weighs (suc n) = omega (arith, none_weighs n, total_nothing f none_weighs n)

  -- where the weights do not reach their number, one of them is nothing
  pub total-gap : (n : ℕ) (f : ℕ → A) → total n f < n → (i : ℕ) × (i < n) × (w (f i) ≡ 0)
  unfolding total
  total-gap zero f h = absurd (omega arith)
  total-gap (suc n) f h = elim (ℕ_discrete (w (f n)) 0) [
    | yes e ↦ (n, omega arith, e)
    | no ne ↦ let (i, lt, e) = total-gap n f (omega (arith, ne)) in (i, omega (arith, lt), e)
  ]
