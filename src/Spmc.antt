-- ===== src/Spmc.antt =====
-- include/spmc/: the ring buffer that one producer fills and several consumers read. `cap` is the
-- template's Capacity. `std::unique_ptr<T[]>` is a function from the index; every index is masked.
-- A function takes the values that the atomic loads of its body return.
pub mod System
pub mod Indices
pub mod Invariant
pub mod Publishing
pub mod Consuming
pub mod Start
pub mod Frames
pub mod Preserved
pub mod Delivery
pub mod Calls
pub mod Pushes
pub mod Pops
pub mod Tests
use Prim.Native.Nat.{bit_and}
use itch_order_book.Common.{
  ℕ, zero, suc, ◌+◌, ◌-◌, Bool, true, false, Option, none, some, List, [], ◌∷◌, ltb, leb,
  if◌then◌else◌, update, add64, sub64, word_mod, min, length,
}

pub data ProduceResponse : Type 0 where
  success failed_buffer_full failed_payload_too_large : ProduceResponse

pub data ConsumeFailure : Type 0 where
  no_failure buffer_insufficient buffer_closed : ConsumeFailure

-- `SPMCRingBuffer`: `is_closed_`, `buffer_`, `write_idx_`, and the `read_idx_` of the consumers'
-- control blocks
pub record SpmcRingBuffer (T : Type 0) : Type 0 where
  pub is_closed : Bool
  pub buffer : ℕ → T
  pub write_idx : ℕ
  pub consumers : ℕ
  pub read_idx : ℕ → ℕ

-- `SPMCRingBuffer()`
unfoldable pub new_buffer : {T : Type 0} → T → SpmcRingBuffer T
new_buffer default = record {
  is_closed = false;
  buffer = λ _. default;
  write_idx = 0;
  consumers = 0;
  read_idx = λ _. 0;
}

-- `MaxConsumers`, which SPMCRingBuffer has by default
abbrev max_consumers : ℕ
max_consumers = 8

-- `register_new_consumer`: the index of the new control block, or none where `inplace_vector`
-- throws
unfoldable pub register_new_consumer :
    {T : Type 0} → SpmcRingBuffer T → Option (ℕ × SpmcRingBuffer T)
register_new_consumer b =
    if ltb b.consumers max_consumers
    then some (
      b.consumers,
      record b { consumers = b.consumers + 1; read_idx = update b.read_idx b.consumers 0 },
    )
    else none

-- `make_spmc`: the indices of the consumers, and the buffer that they share with the producer
unfoldable pub register_from :
    {T : Type 0} → ℕ → SpmcRingBuffer T → Option (List ℕ × SpmcRingBuffer T)
register_from zero b = some ([], b)
register_from (suc n) b = elim (register_new_consumer b) [
  | none ↦ none
  | some (j, b') ↦ elim (register_from n b') [ none ↦ none | some (js, b'') ↦ some (j ∷ js, b'') ]
]

unfoldable pub make_spmc : {T : Type 0} → T → ℕ → Option (List ℕ × SpmcRingBuffer T)
make_spmc default consumer_count = register_from consumer_count (new_buffer default)

-- `get_first_read_idx`, over the loaded indices of the first `n` consumers
unfoldable pub get_first_read_idx : ℕ → (ℕ → ℕ) → ℕ
get_first_read_idx zero loaded = word_mod - 1
get_first_read_idx (suc n) loaded = min (get_first_read_idx n loaded) (loaded n)

-- the index of the last of `n` items
unfoldable pub final_write_idx : ℕ → ℕ → ℕ
final_write_idx n write_idx = add64 (sub64 n 1) write_idx

module _ (cap : ℕ) where
  -- `i & MASK`
  unfoldable pub slot_of : ℕ → ℕ
  slot_of i = bit_and i (cap - 1)

  -- `is_valid_write_idx`, with the index that `get_first_read_idx` would return: the answer, and
  -- `cached_read_idx_`
  unfoldable pub is_valid_write_idx : ℕ → ℕ → ℕ → Bool × ℕ
  is_valid_write_idx write_idx cached first =
      if leb cap (sub64 write_idx cached)
      then (ltb (sub64 write_idx first) cap, first)
      else (true, cached)

  module _ {T : Type 0} where
    -- `for (i = ...) buffer_[(write_idx + i) & MASK] = items[i]`
    unfoldable pub write_items : ℕ → ℕ → List T → (ℕ → T) → ℕ → T
    write_items write_idx i [] buffer = buffer
    write_items write_idx i (x ∷ items) buffer =
        write_items write_idx (i + 1) items (update buffer (slot_of (add64 write_idx i)) x)

    -- `for (i = ...) read_ptr[i] = buffer_[(read_idx + i) & MASK]`, for `n` items from the `i`-th
    unfoldable pub read_items : ℕ → ℕ → ℕ → (ℕ → T) → List T
    read_items read_idx i zero buffer = []
    read_items read_idx i (suc n) buffer =
        buffer (slot_of (add64 read_idx i)) ∷ read_items read_idx (i + 1) n buffer

    -- `try_push`: the response, `cached_read_idx_` and the buffer
    unfoldable pub try_push : T → ℕ → SpmcRingBuffer T → ProduceResponse × ℕ × SpmcRingBuffer T
    try_push item cached b =
        let first = get_first_read_idx b.consumers b.read_idx in
        let (valid, cached') = is_valid_write_idx b.write_idx cached first in
        if valid
        then (
          success,
          cached',
          record b {
            buffer = update b.buffer (slot_of b.write_idx) item;
            write_idx = add64 b.write_idx 1;
          },
        )
        else (failed_buffer_full, cached', b)

    unfoldable pub try_push_many :
        List T → ℕ → SpmcRingBuffer T → ProduceResponse × ℕ × SpmcRingBuffer T
    try_push_many items cached b =
        let first = get_first_read_idx b.consumers b.read_idx in
        let final = final_write_idx (length items) b.write_idx in
        let (valid, cached') = is_valid_write_idx final cached first in
        if ltb cap (length items)
        then (failed_payload_too_large, cached, b)
        else if valid
        then (
          success,
          cached',
          record b { buffer = write_items b.write_idx 0 items b.buffer; write_idx = add64 final 1 },
        )
        else (failed_buffer_full, cached', b)

    unfoldable pub close : SpmcRingBuffer T → SpmcRingBuffer T
    close b = record b { is_closed = true }

-- `check_pop_status`, with the values that its loads of `write_idx_` and `is_closed_` would return:
-- the status, and `cached_write_idx_`
unfoldable pub check_pop_status : ℕ → ℕ → ℕ → ℕ → Bool → ConsumeFailure × ℕ
check_pop_status read_idx count cached written closed =
    if ltb (sub64 cached read_idx) count
    then if ltb (sub64 written read_idx) count
      then (if closed then buffer_closed else buffer_insufficient, written)
      else (no_failure, written)
    else (no_failure, cached)

-- what one consumer's call gives: its status, the items, `cached_write_idx_` and the buffer
pub record Popped (T : Type 0) : Type 0 where
  pub failure : ConsumeFailure
  pub items : List T
  pub cached : ℕ
  pub buffer : SpmcRingBuffer T

module _ (cap : ℕ) {T : Type 0} (consumer : ℕ) where
  -- a call that fails, or that reads `count` items (none where it skips them) and stores the index
  abbrev finish : ConsumeFailure × ℕ → ℕ → List T → SpmcRingBuffer T → Popped T
  finish (no_failure, cached) count items b = record {
    failure = no_failure;
    items = items;
    cached = cached;
    buffer = record b { read_idx = update b.read_idx consumer (add64 (b.read_idx consumer) count) };
  }
  finish (failure, cached) count items b = record {
    failure = failure;
    items = [];
    cached = cached;
    buffer = b;
  }

  abbrev status : ℕ → ℕ → SpmcRingBuffer T → ConsumeFailure × ℕ
  status count cached b =
      check_pop_status (b.read_idx consumer) count cached b.write_idx b.is_closed

  -- `try_pop_many`: the items are what it writes to `read_ptr`
  unfoldable pub try_pop_many : ℕ → ℕ → SpmcRingBuffer T → Popped T
  try_pop_many count cached b =
      finish (status count cached b) count (read_items cap (b.read_idx consumer) 0 count b.buffer) b

  unfoldable pub try_skip_many : ℕ → ℕ → SpmcRingBuffer T → Popped T
  try_skip_many count cached b = finish (status count cached b) count [] b

  -- `try_pop`
  unfoldable pub try_pop : ℕ → SpmcRingBuffer T → Popped T
  try_pop cached b =
      finish (status 1 cached b) 1 (b.buffer (slot_of cap (b.read_idx consumer)) ∷ []) b
