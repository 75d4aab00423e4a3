-- ===== src/Spmc/Frames.antt =====
-- include/spmc/: the parts of the invariant that a step uses, and the change of one consumer.
use itch_order_book.Common.{
  ℕ, ◌+◌, ◌≤◌, ◌<◌, ◌≡◌, ap, sym, subst, ◌∙◌, arith, Option, some, List, ◌++◌, update, update_self,
  update-ne, add64, add64_exact, length, get_elem?, ℕ_discrete,
}
use itch_order_book.Capacity.{IsCapacity}
use itch_order_book.Spmc.{no_failure, slot_of, get_first_read_idx}
use itch_order_book.Spmc.System.{Work, Task, answered, Consumer, System, with_consumer, past}
use itch_order_book.Spmc.Indices.{get_first_read_idx-le}
use itch_order_book.Spmc.Invariant.{pending, Got, IsConsuming, IsPublishing, IsRunning}
use itch_order_book.Spmc.Publishing.{slot_of-mod}
use itch_order_book.Spmc.Consuming.{check-IsConsuming, past-IsConsuming}

module _ (cap : ℕ) (capacity : IsCapacity cap) {T : Type 0} where
  module _ (s : System T) (h : IsRunning cap s) where
    abbrev Consumes : ℕ → Consumer T → Type 0
    Consumes j c =
        IsConsuming cap s.shared.write_idx (pending s.producer.work) s.producer.cached_read_idx
          (s.shared.read_idx j) s.sent c

    pub with_consumer-IsRunning :
        (j : ℕ) (c : Consumer T) → Consumes j c → IsRunning cap (with_consumer s j c)
    with_consumer-IsRunning j c k = record {
      some_consumer = h.some_consumer;
      publishing = h.publishing;
      consuming = λ i lt. elim (ℕ_discrete j i) [
        | yes e ↦
            subst (λ i. Consumes i (update s.consumer j c i)) e (rw (update_self s.consumer j c) k)
        | no ne ↦ rw (update-ne s.consumer j c i ne) (h.consuming i lt)
      ];
    }

    past-IsRunning :
        (j count : ℕ) (items : List (Option T))
        → IsConsuming cap s.shared.write_idx
            (pending s.producer.work)
            s.producer.cached_read_idx
            (add64 (s.shared.read_idx j) count)
            s.sent
            (record (s.consumer j) {
              task = answered no_failure;
              taken = (s.consumer j).taken ++ items;
            })
        → IsRunning cap (past s j count items)
    past-IsRunning j count items k =
        let r = add64 (s.shared.read_idx j) count in
        let c = record (s.consumer j) {
          task = answered no_failure;
          taken = (s.consumer j).taken ++ items;
        } in
        record {
          some_consumer = h.some_consumer;
          publishing = record {
            counted = h.publishing.counted;
            bounded = h.publishing.bounded;
            window = h.publishing.window;
            written = h.publishing.written;
          };
          consuming = λ i lt. elim (ℕ_discrete j i) [
            | yes q ↦
                subst
                  (λ i.
                    IsConsuming cap s.shared.write_idx (pending s.producer.work)
                      s.producer.cached_read_idx (update s.shared.read_idx j r i) s.sent
                      (update s.consumer j c i))
                  q (rw (update_self s.shared.read_idx j r, update_self s.consumer j c) k)
            | no ne ↦
                rw (update-ne s.shared.read_idx j r i ne, update-ne s.consumer j c i ne)
                  (h.consuming i lt)
          ];
        }

    -- the invariant, where the producer's work is known
    pub publishes : (work : Work T) → s.producer.work ≡ work → IsPublishing cap s.shared work s.sent
    publishes work e = subst (λ w. IsPublishing cap s.shared w s.sent) e h.publishing

    pub consumes :
        (work : Work T)
        → s.producer.work ≡ work
        → (j : ℕ) → j < s.shared.consumers
        → IsConsuming cap s.shared.write_idx
            (pending work)
            s.producer.cached_read_idx
            (s.shared.read_idx j)
            s.sent
            (s.consumer j)
    consumes work e j lt =
        subst
          (λ w.
            IsConsuming cap s.shared.write_idx (pending w) s.producer.cached_read_idx
              (s.shared.read_idx j) s.sent (s.consumer j))
          e (h.consuming j lt)

    pub first-le :
        (loaded : ℕ → ℕ)
        → ((j : ℕ) → j < s.shared.consumers → loaded j ≤ s.shared.read_idx j)
        → (j : ℕ) → j < s.shared.consumers
        → get_first_read_idx s.shared.consumers loaded ≤ s.shared.read_idx j
    first-le loaded old j lt =
        omega (arith, get_first_read_idx-le s.shared.consumers loaded j lt, old j lt)

    -- what a consumer has got, where its task is known
    pub task-Got :
        (j : ℕ) (task : Task T)
        → j < s.shared.consumers
        → (s.consumer j).task ≡ task
        → Got s.sent (s.shared.read_idx j) (s.consumer j).cached_write_idx task
    task-Got j task lt e =
        subst (λ t. Got s.sent (s.shared.read_idx j) (s.consumer j).cached_write_idx t) e
          (h.consuming j lt).got

    -- the slot of an index that a consumer has still to read has the item that was sent there
    pub sent_at :
        (j i : ℕ)
        → j < s.shared.consumers
        → s.shared.read_idx j + i < s.shared.write_idx
        → get_elem? s.sent (s.shared.read_idx j + i)
          ≡ some (s.shared.buffer (slot_of cap (add64 (s.shared.read_idx j) i)))
    sent_at j i lt near =
        let k = h.consuming j lt in
        let p = h.publishing in
        p.window (s.shared.read_idx j + i) near (omega (arith, k.room))
        ∙ ap (λ n. some (s.shared.buffer n))
            (sym (
              slot_of-mod cap capacity s.shared s.sent (s.shared.read_idx j) i
                (omega (arith, p.bounded))))

    pub checked :
        (j cached : ℕ) (task : Task T)
        → j < s.shared.consumers
        → (s.consumer j).cached_write_idx ≤ cached
        → cached ≤ s.shared.write_idx
        → Got s.sent (s.shared.read_idx j) cached task
        → IsRunning cap
            (with_consumer s j (record (s.consumer j) { cached_write_idx = cached; task = task }))
    checked j cached task lt up below g = with_consumer-IsRunning j _ (
        check-IsConsuming cap s.shared.write_idx (pending s.producer.work)
          s.producer.cached_read_idx (s.shared.read_idx j) s.sent (s.consumer j) (h.consuming j lt)
          cached task up below g)

    pub passed :
        (j count : ℕ) (items : List (Option T))
        → j < s.shared.consumers
        → s.shared.read_idx j + count ≤ (s.consumer j).cached_write_idx
        → length items ≡ count
        → ((i : ℕ) (x : T)
            → get_elem? items i ≡ some (some x)
            → get_elem? s.sent (s.shared.read_idx j + i) ≡ some x)
        → IsRunning cap (past s j count items)
    passed j count items lt enough all these =
        let k = h.consuming j lt in
        past-IsRunning j count items (
          past-IsConsuming cap s.shared.write_idx (pending s.producer.work)
            s.producer.cached_read_idx (s.shared.read_idx j) s.sent (s.consumer j) k count _ items
            (add64_exact (s.shared.read_idx j) count
              (omega (arith, enough, k.published, h.publishing.bounded)))
            enough all these)
