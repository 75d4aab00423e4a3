-- ===== src/RingBuffer/Quartile/Tests.antt =====
-- include/util/quartile_buffer.h, latency_recorder.h: the median of the last samples.
use itch_order_book.Common.{ℕ, ◌/◌, ◌≤◌, ◌<◌, ◌≡◌, refl, arith, some, List, [], ◌∷◌, get_elem?}
use itch_order_book.Capacity.{IsCapacity}
use itch_order_book.RingBuffer.{new_ring, push, push_all, size, get_buffer, buffer_from}
use itch_order_book.RingBuffer.Quartile.{
  report, record_item, record_scope, latency_report, sort, insert,
}
use itch_order_book.RingBuffer.Quartile.Sorted.{tally, at_most, below}
use itch_order_book.RingBuffer.Quartile.Ranks.{report-rank}

abbrev samples : List ℕ
samples = 9 ∷ 5 ∷ 7 ∷ []

pair-IsCapacity : IsCapacity 2
pair-IsCapacity = record { bits = 1; power = refl; fits = omega arith }

abbrev median : ℕ → ℕ
median n = n / 2

report-rank_example :
    (v : ℕ) × (get_elem? (report 2 (median ∷ []) (push_all 2 samples (new_ring 0))) 0
      ≡ some (some v))
    × (0 < tally (at_most v) (5 ∷ 7 ∷ []))
    × (tally (below v) (5 ∷ 7 ∷ []) ≤ 0)
report-rank_example =
    report-rank 2 pair-IsCapacity samples 0 (omega arith) (median ∷ []) 0 median (omega arith) refl
      (omega arith)

-- scopes from 10 to 14 and from 20 to 27
scopes :
    latency_report 2 median median median (record_scope 2 20 27 (record_scope 2 10 14 (new_ring 0)))
    ≡ some (2, some 4 ∷ some 4 ∷ some 4 ∷ [])
unfolding latency_report record_scope record_item report new_ring push size get_buffer buffer_from
    sort insert
scopes = refl

-- a sample past 2 ^ 63 counts as a negative one
negative :
    report 2 (median ∷ []) (push_all 2 (5 ∷ 18446744073709551615 ∷ []) (new_ring 0))
    ≡ some 18446744073709551615 ∷ []
unfolding report new_ring push push_all size get_buffer buffer_from sort insert
negative = refl
