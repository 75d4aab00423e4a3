-- ===== src/Handler/ViewTests.antt =====
-- include/market_data/market_data_handler.h over include/spmc/: reads of a buffer with three bytes.
use itch_order_book.Common.{update, false, some, ℕ, ◌≡◌, refl, arith, List, [], ◌∷◌}
use itch_order_book.Capacity.{IsCapacity}
use itch_order_book.Spmc.{
  SpmcRingBuffer, try_push_many, try_pop_many, new_buffer, make_spmc, register_from,
  register_new_consumer, is_valid_write_idx, final_write_idx,
}
use itch_order_book.Spmc.System.{System, Reach, start}
use itch_order_book.Spmc.Invariant.{IsRunning}
use itch_order_book.Spmc.Start.{start-IsRunning}
use itch_order_book.Spmc.Preserved.{Reach-IsRunning}
use itch_order_book.Spmc.Calls.{pushed, try_push_many-Reach}
use itch_order_book.Handler.Polling.{try_read_from_queue}
use itch_order_book.Handler.View.{unread, where_taken, try_read_from_queue-try_pop_many}

eight-IsCapacity : IsCapacity 8
eight-IsCapacity = record { bits = 3; power = refl; fits = omega arith }

abbrev one_reader : SpmcRingBuffer ℕ
one_reader = record {
  is_closed = false;
  buffer = λ i. 0;
  write_idx = 0;
  consumers = 1;
  read_idx = update (λ i. 0) 0 0;
}

one_reader-made : make_spmc 0 1 ≡ some (0 ∷ [], one_reader)
unfolding make_spmc register_from register_new_consumer new_buffer
one_reader-made = refl

abbrev unused : System ℕ
unused = start one_reader

abbrev sent_bytes : List ℕ
sent_bytes = 0 ∷ 12 ∷ 83 ∷ []

abbrev filled : System ℕ
filled = pushed 8 unused sent_bytes (try_push_many 8 sent_bytes 0 unused.shared)

filled-Reach : Reach 8 unused filled
unfolding start
filled-Reach = try_push_many-Reach 8 unused sent_bytes refl (omega arith)

filled-IsRunning : IsRunning 8 filled
filled-IsRunning =
    Reach-IsRunning 8 eight-IsCapacity
      (start-IsRunning 8 eight-IsCapacity 0 1 (0 ∷ []) one_reader (omega arith) one_reader-made)
      filled-Reach

try_read_from_queue-try_pop_many_example :
    try_read_from_queue 2 (unread filled.sent 0 filled.shared)
    ≡ where_taken (try_pop_many 8 0 2 (filled.consumer 0).cached_write_idx filled.shared).failure (
      (try_pop_many 8 0 2 (filled.consumer 0).cached_write_idx filled.shared).items,
      unread filled.sent 0
          (try_pop_many 8 0 2 (filled.consumer 0).cached_write_idx filled.shared).buffer,
    )
unfolding try_push_many is_valid_write_idx final_write_idx start
try_read_from_queue-try_pop_many_example =
    try_read_from_queue-try_pop_many 8 eight-IsCapacity filled filled-IsRunning 0 (omega arith) 2
