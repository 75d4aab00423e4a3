-- ===== src/Spmc/Invariant.antt =====
-- include/spmc/: what holds of the ring buffer and its threads between any two steps.
use itch_order_book.Common.{ℕ, ◌+◌, ◌≤◌, ◌<◌, ◌≡◌, ◌%◌, some, List, word_mod, length, get_elem?}
use itch_order_book.Spmc.{SpmcRingBuffer}
use itch_order_book.Spmc.System.{
  Work, idle, writing, Task, answered, refusing, reading, Consumer, System,
}

module _ {T : Type 0} where
  -- the number of items that the producer is writing
  abbrev pub pending : Work T → ℕ
  pending idle = 0
  pending (writing items k) = length items

  -- the items that are written are in the buffer, after the last published one
  abbrev pub Written : (cap : ℕ) → (ℕ → T) → ℕ → Work T → Type 0
  Written cap buffer w idle = Unit
  Written cap buffer w (writing items k) =
      (k ≤ length items) × ((e : ℕ) → e < k → get_elem? items e ≡ some (buffer ((w + e) % cap)))

  -- a reader has seen its items published, and those it has are those that were sent
  abbrev pub Got : List T → ℕ → ℕ → Task T → Type 0
  Got sent r c (answered f) = Unit
  Got sent r c (refusing count) = Unit
  Got sent r c (reading count got) =
      (r + count ≤ c)
      × ((length got ≤ count)
          × ((e : ℕ) → e < length got → get_elem? got e ≡ get_elem? sent (r + e)))

  -- `w` is the write index, `p` the number of items that are being written, `cr` the index that the
  -- producer has cached, `r` the consumer's index
  pub record IsConsuming (cap w p cr r : ℕ) (sent : List T) (c : Consumer T) : Type 0 where
    pub kept : cr ≤ r
    pub seen : r ≤ c.cached_write_idx
    pub published : c.cached_write_idx ≤ w
    pub room : w + p ≤ r + cap
    pub got : Got sent r c.cached_write_idx c.task
    pub taken_length : length c.taken ≡ r
    pub taken_sent :
        (i : ℕ) (x : T) → get_elem? c.taken i ≡ some (some x) → get_elem? sent i ≡ some x

  pub record IsPublishing (cap : ℕ) (b : SpmcRingBuffer T) (work : Work T) (sent : List T)
      : Type 0 where
    pub counted : b.write_idx ≡ length sent
    pub bounded : b.write_idx + pending work < word_mod
    pub window :
        (i : ℕ)
        → i < b.write_idx
        → b.write_idx + pending work ≤ i + cap
        → get_elem? sent i ≡ some (b.buffer (i % cap))
    pub written : Written cap b.buffer b.write_idx work

  -- the invariant of the whole system
  pub record IsRunning (cap : ℕ) (s : System T) : Type 0 where
    pub some_consumer : 0 < s.shared.consumers
    pub publishing : IsPublishing cap s.shared s.producer.work s.sent
    pub consuming :
        (j : ℕ)
        → j < s.shared.consumers
        → IsConsuming cap s.shared.write_idx
            (pending s.producer.work)
            s.producer.cached_read_idx
            (s.shared.read_idx j)
            s.sent
            (s.consumer j)
