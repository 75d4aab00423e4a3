-- ===== src/RingBuffer/Tests.antt =====
-- include/util/ring_buffer.h: a run past the capacity.
use itch_order_book.Common.{ℕ, ◌≡◌, refl, List, [], ◌∷◌}
use itch_order_book.RingBuffer.{new_ring, push, push_all, size, get_buffer, buffer_from}

abbrev samples : List ℕ
samples = 5 ∷ 6 ∷ 7 ∷ []

third_over_first : get_buffer 2 (push_all 2 samples (new_ring 0)) ≡ 7 ∷ 6 ∷ []
unfolding get_buffer push_all push new_ring size buffer_from
third_over_first = refl
