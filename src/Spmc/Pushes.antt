-- ===== src/Spmc/Pushes.antt =====
-- include/spmc/producer.h: when a push succeeds.
use itch_order_book.Common.{
  ℕ, zero, suc, ◌+◌, ◌≤◌, ◌<◌, ◌≡◌, ap, ◌∙◌, arith, true, List, length, le→ltb, sub64_exact,
  word_mod,
}
use itch_order_book.Spmc.{
  success, get_first_read_idx, final_write_idx, is_valid_write_idx, try_push_many,
}
use itch_order_book.Spmc.System.{System}
use itch_order_book.Spmc.Indices.{get_first_read_idx-le, final_write_idx_exact}
use itch_order_book.Spmc.Invariant.{IsRunning}
use itch_order_book.Spmc.Calls.{succeeds}

-- a bound on all indices is one on the first
first-bound :
    (n bound cap : ℕ) (loaded : ℕ → ℕ)
    → bound < word_mod
    → ((j : ℕ) → j < n → bound ≤ loaded j + cap)
    → bound ≤ get_first_read_idx n loaded + cap
unfolding get_first_read_idx
first-bound zero bound cap loaded fits h = omega arith
first-bound (suc n) bound cap loaded fits h =
    let below = first-bound n bound cap loaded fits (λ j lt. h j (omega arith)) in
    omega (arith, below, h n (omega arith))

valid-room :
    (cap w c f : ℕ)
    → c ≤ w
    → f ≤ w
    → w < word_mod
    → w < f + cap
    → (is_valid_write_idx cap w c f).0 ≡ true
unfolding is_valid_write_idx
valid-room cap w c f cw fw fits near =
    ground (arith, sub64_exact w c fits cw, sub64_exact w f fits fw)

-- In a state that satisfies the invariant, with one item or more, at most as many as the capacity
-- and with indices below 2 ^ 64: if there is room after the write index for every consumer, then
-- `try_push_many` succeeds, whatever read index the producer has cached.
pub try_push_many-success :
    (cap : ℕ) {T : Type 0} (s : System T)
    → IsRunning cap s
    → (items : List T) (n : ℕ) → length items ≡ suc n
    → length items ≤ cap
    → s.shared.write_idx + length items < word_mod
    → ((j : ℕ)
        → j < s.shared.consumers
        → s.shared.write_idx + length items ≤ s.shared.read_idx j + cap)
    → (try_push_many cap items s.producer.cached_read_idx s.shared).0 ≡ success
try_push_many-success cap s h items n some_items small fits room =
    let b = s.shared in
    let first = get_first_read_idx b.consumers b.read_idx in
    let c = h.consuming 0 h.some_consumer in
    let last : final_write_idx (length items) b.write_idx ≡ b.write_idx + n =
      ap (λ k. final_write_idx k b.write_idx) some_items
      ∙ final_write_idx_exact n b.write_idx (omega (arith, some_items)) in
    let far = first-bound b.consumers (b.write_idx + length items) cap b.read_idx fits room in
    let at_first = get_first_read_idx-le b.consumers b.read_idx 0 h.some_consumer in
    let valid =
      valid-room cap (b.write_idx + n) s.producer.cached_read_idx first
        (omega (arith, c.kept, c.seen, c.published)) (omega (arith, at_first, c.seen, c.published))
        (omega (arith, some_items)) (omega (arith, far, some_items)) in
    let answer = is_valid_write_idx cap (b.write_idx + n) s.producer.cached_read_idx first in
    ap (λ x. x.0)
      (succeeds cap items s.producer.cached_read_idx b answer.1 (le→ltb cap (length items) small) (
        ap (λ i. is_valid_write_idx cap i s.producer.cached_read_idx first) last
        ∙ ap (λ v. (v, answer.1)) valid))
