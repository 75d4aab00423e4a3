-- ===== src/Spmc/Preserved.antt =====
-- include/spmc/: every step of the producer and of a consumer keeps the invariant.
use itch_order_book.Common.{
  ℕ, refl, sym, ◌∙◌, arith, true, false, some, none, [], map, replicate, length,
}
use itch_order_book.Capacity.{IsCapacity}
use itch_order_book.Spmc.{close}
use itch_order_book.Spmc.System.{
  idle, writing, answered, refusing, reading, System, Step, Reach, begin, full, write, publish,
  shut, admit, refuse, answer, read, pop, skip, here, next,
}
use itch_order_book.Spmc.Indices.{
  add64_final, check_pop_status-admits, check_pop_status-refuses, is_valid_write_idx-cached,
  is_valid_write_idx-room,
}
use itch_order_book.Spmc.Invariant.{pending, IsRunning}
use itch_order_book.Spmc.Publishing.{
  get_elem?-lt, begin-IsPublishing, write-IsPublishing, publish-IsPublishing,
}
use itch_order_book.Spmc.Consuming.{
  length-map-some, map-some-item, length-replicate, replicate-none-item, begin-IsConsuming,
  publish-IsConsuming, read-Got,
}
use itch_order_book.Spmc.Frames.{first-le, publishes, consumes, task-Got, sent_at, checked, passed}

module _ (cap : ℕ) (capacity : IsCapacity cap) {T : Type 0} where
  module _ (s : System T) (h : IsRunning cap s) where
    pub Step-IsRunning : {t : System T} → Step cap s t → IsRunning cap t
    unfolding close
    Step-IsRunning (begin items loaded cached rests old small fits valid) = record {
      some_consumer = h.some_consumer;
      publishing =
          begin-IsPublishing cap capacity s.shared s.sent items
            (publishes cap capacity s h idle rests) fits;
      consuming = λ j lt.
          let k = consumes cap capacity s h idle rests j lt in
          let first = first-le cap capacity s h loaded old j lt in
          begin-IsConsuming cap s.shared.write_idx 0 s.producer.cached_read_idx
            (s.shared.read_idx j) s.sent (s.consumer j) k cached (length items)
            (is_valid_write_idx-cached cap _ s.producer.cached_read_idx _ true cached
              (s.shared.read_idx j) valid k.kept first)
            (is_valid_write_idx-room cap s.shared.write_idx (length items)
              s.producer.cached_read_idx _ cached (s.shared.read_idx j) k.kept first
              (omega (arith, k.seen, k.published)) (omega (arith, k.room)) fits valid);
    }
    Step-IsRunning (full items loaded cached rests old valid) = record {
      some_consumer = h.some_consumer;
      publishing = publishes cap capacity s h idle rests;
      consuming = λ j lt.
          let k = consumes cap capacity s h idle rests j lt in
          begin-IsConsuming cap s.shared.write_idx 0 s.producer.cached_read_idx
            (s.shared.read_idx j) s.sent (s.consumer j) k cached 0
            (is_valid_write_idx-cached cap _ s.producer.cached_read_idx _ false cached
              (s.shared.read_idx j) valid k.kept (first-le cap capacity s h loaded old j lt))
            k.room;
    }
    Step-IsRunning (write items k x working at) =
        let p = publishes cap capacity s h (writing items k) working in
        let some_room = consumes cap capacity s h (writing items k) working 0 h.some_consumer in
        record {
          some_consumer = h.some_consumer;
          publishing =
              write-IsPublishing cap capacity s.shared s.sent items k x at p.bounded
                (omega (arith, some_room.room, some_room.seen, some_room.published)) p;
          consuming = consumes cap capacity s h (writing items k) working;
        }
    Step-IsRunning (publish items working) =
        let grown =
          add64_final (length items) s.shared.write_idx
            (publishes cap capacity s h (writing items (length items)) working).bounded in
        record {
          some_consumer = h.some_consumer;
          publishing =
              publish-IsPublishing cap capacity s.shared s.sent items _ grown
                (publishes cap capacity s h (writing items (length items)) working);
          consuming = λ j lt.
              publish-IsConsuming cap s.shared.write_idx (length items) s.producer.cached_read_idx
                (s.shared.read_idx j) s.sent (s.consumer j)
                (consumes cap capacity s h (writing items (length items)) working j lt) items _
                h.publishing.counted grown refl;
        }
    Step-IsRunning (shut rests) = record {
      some_consumer = h.some_consumer;
      publishing = record {
        counted = h.publishing.counted;
        bounded = h.publishing.bounded;
        window = h.publishing.window;
        written = h.publishing.written;
      };
      consuming = h.consuming;
    }
    Step-IsRunning (admit j count written cached f lt task up below ok) =
        let k = h.consuming j lt in
        let a =
          check_pop_status-admits (s.shared.read_idx j) count _ written cached k.seen up
            (omega (arith, below, h.publishing.bounded)) ok in
        checked cap capacity s h j cached (reading count []) lt a.0 (omega (arith, a.1, below))
          (a.2, (omega arith, λ e none_yet. absurd (omega arith)))
    Step-IsRunning (refuse j count written cached f lt task up below short) =
        let e = check_pop_status-refuses (s.shared.read_idx j) count _ written cached short in
        checked cap capacity s h j cached (refusing count) lt (omega (arith, e)) (omega (arith, e))
          tt
    Step-IsRunning (answer j count lt task) =
        checked cap capacity s h j (s.consumer j).cached_write_idx (answered _) lt (omega arith)
          (h.consuming j lt).published tt
    Step-IsRunning (read j count got lt task some_left) =
        let g = task-Got cap capacity s h j (reading count got) lt task in
        checked cap capacity s h j (s.consumer j).cached_write_idx (reading count _) lt
          (omega arith) (h.consuming j lt).published
          (read-Got cap s.shared.write_idx (pending s.producer.work) s.producer.cached_read_idx
            (s.shared.read_idx j) s.sent (s.consumer j) (h.consuming j lt) count got _ g some_left
            (sent_at cap capacity s h j (length got) lt
              (omega (arith, g.0, (h.consuming j lt).published))))
    Step-IsRunning (pop j count got lt task all) =
        let g = task-Got cap capacity s h j (reading count got) lt task in
        passed cap capacity s h j count (map some got) lt g.0 (length-map-some got ∙ all) (λ i x t.
          let item = map-some-item got i x t in sym (g.1.1 i (get_elem?-lt got i x item)) ∙ item)
    Step-IsRunning (skip j count lt task) =
        let g = task-Got cap capacity s h j (reading count []) lt task in
        passed cap capacity s h j count (replicate count none) lt g.0 (length-replicate count none)
          (λ i x t. absurd (replicate-none-item count i x t))

  pub Reach-IsRunning : {s t : System T} → IsRunning cap s → Reach cap s t → IsRunning cap t
  Reach-IsRunning h here = h
  Reach-IsRunning h (next {t = u} r step) = Step-IsRunning u (Reach-IsRunning h r) step
