-- ===== src/Spmc/System.antt =====
-- include/spmc/producer.h, include/spmc/consumer.h: the producer's thread and the consumers'
-- threads as one step relation. A step is one load, one store or one copy of an item. An acquire
-- load may return an old value of an index, though none older than the one that the thread has
-- cached.
use itch_order_book.Common.{
  ℕ, ◌+◌, ◌≤◌, ◌<◌, ◌≡◌, true, false, Option, none, some, List, [], ◌∷◌, ◌++◌, map, update, add64,
  word_mod, length, get_elem?, replicate,
}
use itch_order_book.Spmc.{
  SpmcRingBuffer, ConsumeFailure, no_failure, buffer_insufficient, slot_of, is_valid_write_idx,
  get_first_read_idx, final_write_idx, check_pop_status, close,
}

-- the producer: between two calls, or writing items of which the first few are in the buffer
pub data Work (T : Type 0) : Type 0 where
  idle : Work T
  writing : List T → ℕ → Work T

pub record Producer (T : Type 0) : Type 0 where
  pub cached_read_idx : ℕ
  pub work : Work T

-- a consumer: after a call and its answer, before its load of `is_closed_`, or reading `count`
-- items of which it has some
pub data Task (T : Type 0) : Type 0 where
  answered : ConsumeFailure → Task T
  refusing : ℕ → Task T
  reading : ℕ → List T → Task T

-- `taken` has one entry for each index that the consumer has gone past: the item, or none where it
-- was skipped
pub record Consumer (T : Type 0) : Type 0 where
  pub cached_write_idx : ℕ
  pub task : Task T
  pub taken : List (Option T)

-- `sent` has every item that was published
pub record System (T : Type 0) : Type 0 where
  pub shared : SpmcRingBuffer T
  pub producer : Producer T
  pub consumer : ℕ → Consumer T
  pub sent : List T

-- the producer and the consumers of a new buffer, as `make_spmc` returns them
unfoldable pub start : {T : Type 0} → SpmcRingBuffer T → System T
start b = record {
  shared = b;
  producer = record { cached_read_idx = 0; work = idle };
  consumer = λ _. record { cached_write_idx = 0; task = answered no_failure; taken = [] };
  sent = [];
}

-- one consumer's state and its index change
abbrev pub with_consumer : {T : Type 0} → System T → ℕ → Consumer T → System T
with_consumer s j c = record s { consumer = update s.consumer j c }

abbrev pub past : {T : Type 0} → System T → ℕ → ℕ → List (Option T) → System T
past s j count items = record s {
  shared = record s.shared {
    read_idx = update s.shared.read_idx j (add64 (s.shared.read_idx j) count);
  };
  consumer =
      update s.consumer j (record (s.consumer j) {
        task = answered no_failure;
        taken = (s.consumer j).taken ++ items;
      });
}

pub data Step (cap : ℕ) {T : Type 0} (s : System T) : System T → Type 0 where
  -- `try_push_many` up to its loop; `loaded` are the values of its loads of the read indices, and
  -- the indices stay below 2 ^ 64
  begin :
      (items : List T) (loaded : ℕ → ℕ) (cached : ℕ)
      → s.producer.work ≡ idle
      → ((j : ℕ) → j < s.shared.consumers → loaded j ≤ s.shared.read_idx j)
      → length items ≤ cap
      → s.shared.write_idx + length items < word_mod
      → is_valid_write_idx cap
          (final_write_idx (length items) s.shared.write_idx)
          s.producer.cached_read_idx
          (get_first_read_idx s.shared.consumers loaded)
        ≡ (true, cached)
      → Step cap s
          (record s { producer = record { cached_read_idx = cached; work = writing items 0 } })
  -- the same where it fails
  full :
      (items : List T) (loaded : ℕ → ℕ) (cached : ℕ)
      → s.producer.work ≡ idle
      → ((j : ℕ) → j < s.shared.consumers → loaded j ≤ s.shared.read_idx j)
      → is_valid_write_idx cap
          (final_write_idx (length items) s.shared.write_idx)
          s.producer.cached_read_idx
          (get_first_read_idx s.shared.consumers loaded)
        ≡ (false, cached)
      → Step cap s (record s { producer = record { cached_read_idx = cached; work = idle } })
  -- a round of its loop
  write :
      (items : List T) (k : ℕ) (x : T)
      → s.producer.work ≡ writing items k
      → get_elem? items k ≡ some x
      → Step cap s (record s {
        shared = record s.shared {
          buffer = update s.shared.buffer (slot_of cap (add64 s.shared.write_idx k)) x;
        };
        producer = record s.producer { work = writing items (k + 1) };
      })
  -- the store of the write index
  publish :
      (items : List T)
      → s.producer.work ≡ writing items (length items)
      → Step cap s (record s {
        shared = record s.shared {
          write_idx = add64 (final_write_idx (length items) s.shared.write_idx) 1;
        };
        producer = record s.producer { work = idle };
        sent = s.sent ++ items;
      })
  shut : s.producer.work ≡ idle → Step cap s (record s { shared = close cap s.shared })
  -- `check_pop_status` where there are enough items; `written` is the value of its load
  admit :
      (j count written cached : ℕ) (f : ConsumeFailure)
      → j < s.shared.consumers
      → (s.consumer j).task ≡ answered f
      → (s.consumer j).cached_write_idx ≤ written
      → written ≤ s.shared.write_idx
      → check_pop_status (s.shared.read_idx j) count (s.consumer j).cached_write_idx written false
        ≡ (no_failure, cached)
      → Step cap s (
          with_consumer s j
            (record (s.consumer j) { cached_write_idx = cached; task = reading count [] }))
  -- the same where there are not, up to the load of `is_closed_`
  refuse :
      (j count written cached : ℕ) (f : ConsumeFailure)
      → j < s.shared.consumers
      → (s.consumer j).task ≡ answered f
      → (s.consumer j).cached_write_idx ≤ written
      → written ≤ s.shared.write_idx
      → check_pop_status (s.shared.read_idx j) count (s.consumer j).cached_write_idx written false
        ≡ (buffer_insufficient, cached)
      → Step cap s (
          with_consumer s j
            (record (s.consumer j) { cached_write_idx = cached; task = refusing count }))
  -- the load of `is_closed_`, with the status that `check_pop_status` returns for it
  answer :
      (j count : ℕ)
      → j < s.shared.consumers
      → (s.consumer j).task ≡ refusing count
      → Step cap s (
          with_consumer s j (record (s.consumer j) {
            task =
                answered
                  (check_pop_status
                    (s.shared.read_idx j)
                    count
                    (s.consumer j).cached_write_idx
                    (s.consumer j).cached_write_idx
                    s.shared.is_closed).0;
          }))
  -- a round of the loop of `try_pop_many`
  read :
      (j count : ℕ) (got : List T)
      → j < s.shared.consumers
      → (s.consumer j).task ≡ reading count got
      → length got < count
      → Step cap s (
          with_consumer s j (record (s.consumer j) {
            task = reading count (
                got
                ++ s.shared.buffer (slot_of cap (add64 (s.shared.read_idx j) (length got))) ∷ []);
          }))
  -- the store of the read index, by `try_pop_many` and by `try_skip_many`
  pop :
      (j count : ℕ) (got : List T)
      → j < s.shared.consumers
      → (s.consumer j).task ≡ reading count got
      → length got ≡ count
      → Step cap s (past s j count (map some got))
  skip :
      (j count : ℕ)
      → j < s.shared.consumers
      → (s.consumer j).task ≡ reading count []
      → Step cap s (past s j count (replicate count none))

pub data Reach (cap : ℕ) {T : Type 0} (s : System T) : System T → Type 0 where
  here : Reach cap s s
  next : {t u : System T} → Reach cap s t → Step cap t u → Reach cap s u
