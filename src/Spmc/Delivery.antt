-- ===== src/Spmc/Delivery.antt =====
-- include/spmc/: what the consumers receive, in every interleaving of the threads.
use itch_order_book.Common.{
  ℕ, suc, ◌+◌, ◌≤◌, ◌<◌, ◌≡◌, ◌≢◌, refl, ap, sym, ◌∙◌, arith, some, List, [], ◌∷◌, take, drop,
  drop-cons, length, get_elem?, add64,
}
use itch_order_book.Capacity.{IsCapacity, masked, mod_ne}
use itch_order_book.Spmc.{SpmcRingBuffer, make_spmc, slot_of}
use itch_order_book.Spmc.System.{writing, reading, System, Reach, start}
use itch_order_book.Spmc.Invariant.{IsRunning}
use itch_order_book.Spmc.Publishing.{slot_of-mod}
use itch_order_book.Spmc.Start.{start-IsRunning}
use itch_order_book.Spmc.Frames.{task-Got, consumes, publishes}
use itch_order_book.Spmc.Preserved.{Reach-IsRunning}

-- a list is part of another one if it has the same items at the same distances
pub take-drop_items {ℓ} :
    {A : Type ℓ} (got sent : List A) (r : ℕ)
    → ((e : ℕ) → e < length got → get_elem? got e ≡ get_elem? sent (r + e))
    → got ≡ take (length got) (drop r sent)
take-drop_items [] sent r h = refl
take-drop_items (x ∷ got) sent r h =
    let rest =
      take-drop_items got sent (r + 1)
        (λ e lt. h (suc e) (omega arith) ∙ ap (get_elem? sent) (omega arith)) in
    let first = sym (h 0 (omega arith)) in
    let here_ = drop-cons sent r x (ap (get_elem? sent) (omega arith) ∙ first) in
    rw here_ (ap (λ l. x ∷ l) rest)

module _ (cap : ℕ) (capacity : IsCapacity cap) {T : Type 0} (default : T) (consumer_count : ℕ)
    (js : List ℕ) (b : SpmcRingBuffer T) (some_consumer : 0 < consumer_count)
    (made : make_spmc default consumer_count ≡ some (js, b)) (s : System T)
    (reached : Reach cap (start b) s) where
  running : IsRunning cap s
  running =
      Reach-IsRunning cap capacity
        (start-IsRunning cap capacity default consumer_count js b some_consumer made) reached

  module _ (j : ℕ) (registered : j < s.shared.consumers) where
    -- In every interleaving of the producer and the consumers of `make_spmc`, one or more, a
    -- consumer that has filled the span of its `try_pop_many` has in it exactly the items that were
    -- sent from its read index on, in the order in which they were sent.
    pub reading-in_order :
        (count : ℕ) (got : List T)
        → (s.consumer j).task ≡ reading count got
        → length got ≡ count
        → got ≡ take count (drop (s.shared.read_idx j) s.sent)
    reading-in_order count got task all =
        let g = task-Got cap capacity s running j (reading count got) registered task in
        take-drop_items got s.sent (s.shared.read_idx j) g.1.1
        ∙ ap (λ n. take n (drop (s.shared.read_idx j) s.sent)) all

    -- In every interleaving of the producer and the consumers of `make_spmc`, one or more, a
    -- consumer that has gone past `n` items, popping some and skipping others, has its read index
    -- at `n`, and the item that it popped at each of those places is the one that was sent at that
    -- place: none is lost, repeated or taken out of order.
    pub taken-sent :
        (length (s.consumer j).taken ≡ s.shared.read_idx j)
        × ((i : ℕ) (x : T)
            → get_elem? (s.consumer j).taken i ≡ some (some x)
            → get_elem? s.sent i ≡ some x)
    taken-sent = let k = running.consuming j registered in (k.taken_length, k.taken_sent)

    -- In every interleaving of the producer and the consumers of `make_spmc`, one or more, the slot
    -- to which the producer writes its next item is not the slot of any published item that a
    -- consumer has still to read.
    pub write-unread :
        (items : List T) (k i : ℕ)
        → s.producer.work ≡ writing items k
        → k < length items
        → s.shared.read_idx j ≤ i
        → i < s.shared.write_idx
        → slot_of cap i ≢ slot_of cap (add64 s.shared.write_idx k)
    unfolding slot_of
    write-unread items k i working below unread published e =
        let c = consumes cap capacity s running (writing items k) working j registered in
        let p = publishes cap capacity s running (writing items k) working in
        mod_ne cap i (s.shared.write_idx + k) (omega arith) (omega (arith, c.room)) (
          sym (masked cap capacity i)
          ∙ e
          ∙ slot_of-mod cap capacity s.shared s.sent s.shared.write_idx k
              (omega (arith, p.bounded)))
