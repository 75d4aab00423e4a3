-- ===== src/Spmc/Publishing.antt =====
-- include/spmc/producer.h: the producer's steps keep what holds of the buffer and its write index.
use itch_order_book.Common.{
  ℕ, zero, suc, ◌+◌, ◌-◌, ◌≤◌, ◌<◌, ◌≡◌, ◌%◌, ap, sym, ◌∙◌, arith, some, List, [], ◌∷◌, ◌++◌,
  update, update_self, update-ne, word_mod, add64, length, get_elem?, length-append,
  get_elem?-append_left, get_elem?-append_right, dec_lt,
}
use itch_order_book.Capacity.{IsCapacity, masked, mod_ne}
use itch_order_book.Spmc.{SpmcRingBuffer, slot_of}
use itch_order_book.Spmc.System.{idle, writing}
use itch_order_book.Spmc.Invariant.{Written, IsPublishing}

pub get_elem?-lt {ℓ} :
    {A : Type ℓ} (xs : List A) (i : ℕ) (x : A) → get_elem? xs i ≡ some x → i < length xs
get_elem?-lt [] i x e = absurd (cc e)
get_elem?-lt (y ∷ xs) zero x e = omega arith
get_elem?-lt (y ∷ xs) (suc i) x e = omega (arith, get_elem?-lt xs i x e)

module _ (cap : ℕ) (capacity : IsCapacity cap) {T : Type 0} (b : SpmcRingBuffer T)
    (sent : List T) where
  pub slot_of-mod : (w k : ℕ) → w + k < word_mod → slot_of cap (add64 w k) ≡ (w + k) % cap
  unfolding slot_of
  slot_of-mod w k fits = masked cap capacity (add64 w k) ∙ ap (λ i. i % cap) (omega arith)

  module _ (items : List T) where
    pub begin-IsPublishing :
        IsPublishing cap b idle sent
        → b.write_idx + length items < word_mod
        → IsPublishing cap b (writing items 0) sent
    begin-IsPublishing p fits = record {
      counted = p.counted;
      bounded = fits;
      window = λ i lt near. p.window i lt (omega arith);
      written = (omega arith, λ e lt. absurd (omega arith));
    }

    module _ (k : ℕ) (x : T) (next_item : get_elem? items k ≡ some x)
        (fits : b.write_idx + length items < word_mod) (small : length items ≤ cap) where
      abbrev stored : SpmcRingBuffer T
      stored = record b { buffer = update b.buffer (slot_of cap (add64 b.write_idx k)) x }

      below : k < length items
      below = get_elem?-lt items k x next_item

      -- an item less than `cap` before the new one has another slot
      kept :
          (i : ℕ)
          → i < b.write_idx + k
          → b.write_idx + k < i + cap
          → stored.buffer (i % cap) ≡ b.buffer (i % cap)
      kept i lt near = update-ne b.buffer (slot_of cap (add64 b.write_idx k)) x (i % cap) (λ e.
          mod_ne cap i (b.write_idx + k) lt near
            (sym e ∙ slot_of-mod b.write_idx k (omega (arith, below))))

      written_items :
          (e : ℕ)
          → e < k + 1
          → Written cap b.buffer b.write_idx (writing items k)
          → get_elem? items e ≡ some (stored.buffer ((b.write_idx + e) % cap))
      written_items e lt w = elim (dec_lt e k) [
        | yes p ↦ rw (kept (b.write_idx + e) (omega arith) (omega (arith, below))) (w.1 e p)
        | no p ↦
            let same : e ≡ k = omega arith in
            rw
              (
                same,
                sym (slot_of-mod b.write_idx k (omega (arith, below))),
                update_self b.buffer (slot_of cap (add64 b.write_idx k)) x,
              )
              next_item
      ]

      pub write-IsPublishing :
          IsPublishing cap b (writing items k) sent
          → IsPublishing cap stored (writing items (k + 1)) sent
      write-IsPublishing p = record {
        counted = p.counted;
        bounded = fits;
        window = λ i lt near. rw (kept i (omega arith) (omega (arith, below))) (p.window i lt near);
        written = (omega (arith, below), λ e lt. written_items e lt p.written);
      }

    pub publish-IsPublishing :
        (w : ℕ)
        → w ≡ b.write_idx + length items
        → IsPublishing cap b (writing items (length items)) sent
        → IsPublishing cap (record b { write_idx = w }) idle (sent ++ items)
    publish-IsPublishing w e p = record {
      counted = omega (arith, e, p.counted, length-append sent items);
      bounded = omega (arith, e, p.bounded);
      window = λ i lt near. elim (dec_lt i b.write_idx) [
        | yes q ↦
            get_elem?-append_left sent items i (omega (arith, p.counted))
            ∙ p.window i q (omega arith)
        | no q ↦
            get_elem?-append_right sent items i (omega (arith, p.counted))
            ∙ p.written.1 (i - length sent) (omega (arith, p.counted))
            ∙ ap (λ n. some (b.buffer (n % cap))) (omega (arith, p.counted))
      ];
      written = tt;
    }
