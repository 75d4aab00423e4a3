-- ===== src/Spmc/Tests.antt =====
-- include/spmc/: runs on small buffers.
use itch_order_book.Common.{
  ◌+◌, ◌≤◌, update, false, ℕ, ◌<◌, ◌≡◌, ◌≢◌, refl, arith, some, List, [], ◌∷◌, length, get_elem?,
  take, drop, ◌⊎◌, add64,
}
use itch_order_book.Capacity.{IsCapacity}
use itch_order_book.Spmc.Pushes.{try_push_many-success}
use itch_order_book.Spmc.{
  success, SpmcRingBuffer, try_push_many, try_pop_many, try_skip_many, no_failure, slot_of,
  new_buffer, make_spmc, register_from, register_new_consumer, is_valid_write_idx, final_write_idx,
  check_pop_status, write_items, close, buffer_closed,
}
use itch_order_book.Spmc.System.{
  System, Reach, start, with_consumer, past, refusing, refuse, shut, answer, writing, reading, here,
  next, begin, admit, read, answered, pop,
}
use itch_order_book.Spmc.Invariant.{IsRunning}
use itch_order_book.Spmc.Start.{start-IsRunning}
use itch_order_book.Spmc.Preserved.{Reach-IsRunning}
use itch_order_book.Spmc.Delivery.{reading-in_order, taken-sent, write-unread}
use itch_order_book.Spmc.Calls.{pushed, Reach-trans, try_push_many-Reach}
use itch_order_book.Spmc.Pops.{Takes, Declines, try_pop_many_lem, try_skip_many_lem}

four-IsCapacity : IsCapacity 4
four-IsCapacity = record { bits = 2; power = refl; fits = omega arith }

-- a new buffer with two consumers, and then with three items
abbrev two_readers : SpmcRingBuffer ℕ
two_readers = record {
  is_closed = false;
  buffer = λ i. 0;
  write_idx = 0;
  consumers = 2;
  read_idx = update (update (λ i. 0) 0 0) 1 0;
}

two_readers-made : make_spmc 0 2 ≡ some (0 ∷ 1 ∷ [], two_readers)
unfolding make_spmc register_from register_new_consumer new_buffer
two_readers-made = refl

abbrev fresh : System ℕ
fresh = start two_readers

abbrev three : List ℕ
three = 7 ∷ 8 ∷ 9 ∷ []

abbrev loaded : System ℕ
loaded = pushed 4 fresh three (try_push_many 4 three 0 fresh.shared)

loaded-Reach : Reach 4 fresh loaded
unfolding start
loaded-Reach = try_push_many-Reach 4 fresh three refl (omega arith)

fresh-IsRunning : IsRunning 4 fresh
fresh-IsRunning =
    start-IsRunning 4 four-IsCapacity 0 2 (0 ∷ 1 ∷ []) two_readers (omega arith) two_readers-made

loaded-IsRunning : IsRunning 4 loaded
loaded-IsRunning = Reach-IsRunning 4 four-IsCapacity fresh-IsRunning loaded-Reach

-- a consumer that is let in to read two of the items, reads them and goes past them
abbrev with_task : System ℕ → List ℕ → System ℕ
with_task s got =
    with_consumer s 1 (record (s.consumer 1) { cached_write_idx = 3; task = reading 2 got })

abbrev admitted : System ℕ
admitted = with_task loaded []

abbrev halfway : System ℕ
halfway = with_task admitted (7 ∷ [])

abbrev finished : System ℕ
finished = with_task halfway (7 ∷ 8 ∷ [])

abbrev popped : System ℕ
popped = past finished 1 2 (some 7 ∷ some 8 ∷ [])

finished-Reach : Reach 4 fresh finished
unfolding try_push_many is_valid_write_idx final_write_idx start write_items check_pop_status
    slot_of
finished-Reach =
    next
      (next
        (next loaded-Reach
          (admit 1 2 3 3 no_failure (omega arith) refl (omega arith) (omega arith) refl))
        (read 1 2 [] (omega arith) refl (omega arith)))
      (read 1 2 (7 ∷ []) (omega arith) refl (omega arith))

popped-Reach : Reach 4 fresh popped
unfolding try_push_many is_valid_write_idx final_write_idx start
popped-Reach = next finished-Reach (pop 1 2 (7 ∷ 8 ∷ []) (omega arith) refl refl)

-- the producer in a second call, before it writes
abbrev refilling : System ℕ
refilling = record loaded { producer = record { cached_read_idx = 0; work = writing (1 ∷ []) 0 } }

refilling-Reach : Reach 4 fresh refilling
unfolding try_push_many is_valid_write_idx final_write_idx start
refilling-Reach =
    next loaded-Reach
      (begin (1 ∷ []) (λ j. 0) 0 refl (λ j lt. omega arith) (omega arith) (omega arith) refl)

reading-in_order_example : 7 ∷ 8 ∷ [] ≡ take 2 (drop (finished.shared.read_idx 1) finished.sent)
unfolding try_push_many is_valid_write_idx final_write_idx start
reading-in_order_example =
    reading-in_order 4 four-IsCapacity 0 2 (0 ∷ 1 ∷ []) two_readers (omega arith) two_readers-made
      finished finished-Reach 1 (omega arith) 2 (7 ∷ 8 ∷ []) refl refl

taken-sent_example :
    (length (popped.consumer 1).taken ≡ popped.shared.read_idx 1)
    × ((i : ℕ) (x : ℕ)
        → get_elem? (popped.consumer 1).taken i ≡ some (some x)
        → get_elem? popped.sent i ≡ some x)
unfolding try_push_many is_valid_write_idx final_write_idx start
taken-sent_example =
    taken-sent 4 four-IsCapacity 0 2 (0 ∷ 1 ∷ []) two_readers (omega arith) two_readers-made popped
      popped-Reach 1 (omega arith)

write-unread_example : slot_of 4 2 ≢ slot_of 4 (add64 refilling.shared.write_idx 0)
unfolding try_push_many is_valid_write_idx final_write_idx start
write-unread_example =
    write-unread 4 four-IsCapacity 0 2 (0 ∷ 1 ∷ []) two_readers (omega arith) two_readers-made
      refilling refilling-Reach 1 (omega arith) (1 ∷ []) 0 2 refl (omega arith) (omega arith)
      (omega arith)

try_push_many-Reach_example : Reach 4 fresh loaded
unfolding start
try_push_many-Reach_example = try_push_many-Reach 4 fresh three refl (omega arith)

try_pop_many_lem_example :
    Takes loaded 1 2
      (take 2 (drop (loaded.shared.read_idx 1) loaded.sent))
      (try_pop_many 4 1 2 (loaded.consumer 1).cached_write_idx loaded.shared)
    ⊎ Declines loaded 1 2 (try_pop_many 4 1 2 (loaded.consumer 1).cached_write_idx loaded.shared)
unfolding try_push_many is_valid_write_idx final_write_idx start
try_pop_many_lem_example =
    try_pop_many_lem 4 four-IsCapacity loaded loaded-IsRunning 1 (omega arith) 2

try_skip_many_lem_example :
    Takes loaded 1 4 [] (try_skip_many 4 1 4 (loaded.consumer 1).cached_write_idx loaded.shared)
    ⊎ Declines loaded 1 4 (try_skip_many 4 1 4 (loaded.consumer 1).cached_write_idx loaded.shared)
unfolding try_push_many is_valid_write_idx final_write_idx start
try_skip_many_lem_example =
    try_skip_many_lem 4 four-IsCapacity loaded loaded-IsRunning 1 (omega arith) 4

-- `check_pop_status` loads the write index before the flag: a consumer that finds nothing, and
-- looks at the flag when the producer has published an item and closed the buffer, reports it
-- closed.
abbrev seen_empty : System ℕ
seen_empty = with_consumer fresh 1 (record (fresh.consumer 1) { task = refusing 1 })

abbrev last_item : System ℕ
last_item = pushed 4 seen_empty (6 ∷ []) (try_push_many 4 (6 ∷ []) 0 seen_empty.shared)

abbrev closed_early : System ℕ
closed_early =
    with_consumer (record last_item { shared = close 4 last_item.shared }) 1
      (record (last_item.consumer 1) { task = answered buffer_closed })

closed_early-Reach : Reach 4 fresh closed_early
unfolding try_push_many is_valid_write_idx final_write_idx start check_pop_status close
closed_early-Reach =
    next
      (next
        (Reach-trans
          (next here
            (refuse 1 1 0 0 no_failure (omega arith) refl (omega arith) (omega arith) refl))
          (try_push_many-Reach 4 seen_empty (6 ∷ []) refl (omega arith)))
        (shut refl))
      (answer 1 1 (omega arith) refl)

closed_early_unread : closed_early.shared.read_idx 1 < closed_early.shared.write_idx
unfolding try_push_many is_valid_write_idx final_write_idx start close
closed_early_unread = omega arith

all_near : (j : ℕ) → loaded.shared.write_idx + 1 ≤ loaded.shared.read_idx j + 4
unfolding try_push_many is_valid_write_idx final_write_idx start
all_near j = omega arith

-- the fourth item beside the three that are unread
try_push_many-success_example :
    (try_push_many 4 (1 ∷ []) loaded.producer.cached_read_idx loaded.shared).0 ≡ success
unfolding try_push_many is_valid_write_idx final_write_idx start
try_push_many-success_example =
    try_push_many-success 4 loaded loaded-IsRunning (1 ∷ []) 0 refl (omega arith) (omega arith)
      (λ j lt. all_near j)
