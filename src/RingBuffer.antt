-- ===== src/RingBuffer.antt =====
-- include/util/ring_buffer.h: the last samples of a latency recorder. `cap` is the template's N.
pub mod Recent
pub mod Quartile
mod Tests
use Prim.Native.Nat.{bit_and}
use itch_order_book.Common.{ℕ, zero, suc, ◌+◌, ◌-◌, List, [], ◌∷◌, update, add64, min}

pub record RingBuffer (T : Type 0) : Type 0 where
  pub pushed : ℕ  -- `size_`
  pub buffer : ℕ → T

-- `RingBuffer()`
unfoldable pub new_ring : {T : Type 0} → T → RingBuffer T
new_ring default = record { pushed = 0; buffer = λ i. default }

unfoldable pub buffer_from : {T : Type 0} → ℕ → ℕ → (ℕ → T) → List T
buffer_from i zero buffer = []
buffer_from i (suc n) buffer = buffer i ∷ buffer_from (i + 1) n buffer

module _ (cap : ℕ) {T : Type 0} where
  unfoldable pub push : T → RingBuffer T → RingBuffer T
  push item r = record {
    pushed = add64 r.pushed 1;
    buffer = update r.buffer (bit_and r.pushed (cap - 1)) item;
  }

  unfoldable pub size : RingBuffer T → ℕ
  size r = min cap r.pushed

  -- the items that `get_buffer` spans
  unfoldable pub get_buffer : RingBuffer T → List T
  get_buffer r = buffer_from 0 (size r) r.buffer

  -- one push after another, as QuartileBuffer::record makes them
  unfoldable pub push_all : List T → RingBuffer T → RingBuffer T
  push_all [] r = r
  push_all (x ∷ items) r = push_all items (push x r)
