-- ===== src/Spmc/Start.antt =====
-- include/spmc/spmc_factory.h: the invariant holds of what `make_spmc` returns.
use itch_order_book.Common.{
  Option, none, some, List, ◌∷◌, Bool-cases, Option-cases, inl, inr, ltb, update, subst, ap, ℕ,
  zero, suc, ◌+◌, ◌<◌, ◌≡◌, refl, sym, ◌∙◌, arith,
}
use itch_order_book.Capacity.{IsCapacity}
use itch_order_book.Spmc.{
  SpmcRingBuffer, new_buffer, register_new_consumer, register_from, make_spmc,
}
use itch_order_book.Spmc.System.{start}
use itch_order_book.Spmc.Invariant.{IsRunning}

module _ {T : Type 0} where
  abbrev IsFresh : SpmcRingBuffer T → Type 0
  IsFresh b = (b.write_idx ≡ 0) × ((j : ℕ) → b.read_idx j ≡ 0)

  -- what a call that registers consumers returns
  shared_of : SpmcRingBuffer T → Option (List ℕ × SpmcRingBuffer T) → SpmcRingBuffer T
  shared_of b none = b
  shared_of b (some r) = r.1

  register_from-IsFresh :
      (n : ℕ) (b b' : SpmcRingBuffer T) (js : List ℕ)
      → IsFresh b
      → register_from n b ≡ some (js, b')
      → IsFresh b' × (b'.consumers ≡ b.consumers + n)
  unfolding register_from register_new_consumer shared_of
  register_from-IsFresh zero b b' js f e =
      subst (λ c. IsFresh c × (c.consumers ≡ b.consumers + 0)) (ap (shared_of b) e) (f, omega arith)
  register_from-IsFresh (suc n) b b' js f e =
      let b1 = record b {
        consumers = b.consumers + 1;
        read_idx = update b.read_idx b.consumers 0;
      } in
      elim (Bool-cases (ltb b.consumers 8)) [
        | inr full ↦
            let nothing : register_from (suc n) b ≡ none = rw (register_from, full) refl in
            absurd (cc (sym nothing ∙ e))
        | inl room ↦ elim (Option-cases (register_from n b1)) [
          | inl short ↦
              let nothing : register_from (suc n) b ≡ none = rw (register_from, room, short) refl in
              absurd (cc (sym nothing ∙ e))
          | inr ((ks, c), registered) ↦
              let value : register_from (suc n) b ≡ some (b.consumers ∷ ks, c) =
                rw (register_from, room, registered) refl in
              let rest =
                register_from-IsFresh n b1 c ks (f.0, λ j. ground (arith, f.1 j)) registered in
              subst (λ d. IsFresh d × (d.consumers ≡ b.consumers + suc n))
                (ap (shared_of b) (sym value ∙ e)) (rest.0, rest.1 ∙ omega arith)
        ]
      ]

module _ (cap : ℕ) (capacity : IsCapacity cap) {T : Type 0} where
  pub start-IsRunning :
      (default : T) (consumer_count : ℕ) (js : List ℕ) (b : SpmcRingBuffer T)
      → 0 < consumer_count
      → make_spmc default consumer_count ≡ some (js, b)
      → IsRunning cap (start b)
  unfolding start make_spmc new_buffer
  start-IsRunning default n js b positive made =
      let fresh = register_from-IsFresh n (new_buffer default) b js (refl, λ j. refl) made in
      record {
        some_consumer = rw fresh.1 (omega arith);
        publishing = record {
          counted = fresh.0.0;
          bounded = rw fresh.0.0 (omega arith);
          window = λ i lt near. absurd (omega (arith, fresh.0.0));
          written = tt;
        };
        consuming = λ j lt. record {
          kept = omega arith;
          seen = rw (fresh.0.1 j) (omega arith);
          published = omega arith;
          room = rw (fresh.0.0) (omega arith);
          got = tt;
          taken_length = sym (fresh.0.1 j);
          taken_sent = λ i x t. absurd (cc t);
        };
      }
