-- ===== src/RingBuffer/Quartile.antt =====
-- include/util/quartile_buffer.h, latency_recorder.h: the quartiles of the last samples. A sample
-- is the 64 bits of a `time_t`, the C library's, which is signed. The readings of the clock are
-- arguments, and a quartile is the function from `count - 1` to the index that the product of
-- doubles, rounded down, gives.
pub mod Sorted
pub mod Window
pub mod Ranks
mod Tests
use itch_order_book.Common.{
  ℕ, ◌+◌, ◌-◌, ◌%◌, ◌^◌, Bool, Option, none, some, List, [], ◌∷◌, map, get_elem?, leb, ◌==◌,
  if◌then◌else◌, sub64,
}
use itch_order_book.RingBuffer.{RingBuffer, push, size, get_buffer}

-- the order of signed words
abbrev pub biased : ℕ → ℕ
biased v = (v + 2 ^ 63) % 2 ^ 64

abbrev pub signed_leb : ℕ → ℕ → Bool
signed_leb a b = leb (biased a) (biased b)

-- std::ranges::sort
unfoldable pub insert : ℕ → List ℕ → List ℕ
insert x [] = x ∷ []
insert x (y ∷ ys) = let rest = insert x ys in if signed_leb x y then x ∷ y ∷ ys else y ∷ rest

unfoldable pub sort : List ℕ → List ℕ
sort [] = []
sort (x ∷ xs) = insert x (sort xs)

-- `results[index]`, which is undefined past the end
abbrev pub quartile_at : List ℕ → ℕ → (ℕ → ℕ) → Option ℕ
quartile_at results count quartile = get_elem? results (quartile (count - 1))

module _ (cap : ℕ) where
  -- `QuartileBuffer::record`
  unfoldable pub record_item : ℕ → RingBuffer ℕ → RingBuffer ℕ
  record_item item r = push cap item r

  -- `QuartileBuffer::report`, a result for each quartile
  unfoldable pub report : List (ℕ → ℕ) → RingBuffer ℕ → List (Option ℕ)
  report quartiles r =
      let count = size cap r in
      if count == 0
      then map (λ q. some 0) quartiles
      else map (quartile_at (sort (get_buffer cap r)) count) quartiles

  -- a scope of `LatencyRecorder::record_scope`, from its first reading of the clock to its last
  unfoldable pub record_scope : ℕ → ℕ → RingBuffer ℕ → RingBuffer ℕ
  record_scope t0 t1 r = record_item (sub64 t1 t0) r

  -- what `LatencyRecorder::report` prints, before the conversion to nanoseconds
  unfoldable pub latency_report :
      (ℕ → ℕ) → (ℕ → ℕ) → (ℕ → ℕ) → RingBuffer ℕ → Option (ℕ × List (Option ℕ))
  latency_report p50 p99 p999 r =
      if size cap r == 0 then none else some (size cap r, report (p50 ∷ p99 ∷ p999 ∷ []) r)
