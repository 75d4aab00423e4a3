-- ===== src/Spmc/Consuming.antt =====
-- include/spmc/consumer.h: each step keeps what holds of a consumer.
use itch_order_book.Common.{
  ℕ, zero, suc, ◌+◌, ◌-◌, ◌≤◌, ◌<◌, ◌≡◌, ◌≢◌, refl, ap, sym, ◌∙◌, arith, Option, some, none, List,
  [], ◌∷◌, ◌++◌, map, replicate, length, get_elem?, length-append, get_elem?-append_left,
  get_elem?-append_right, dec_lt,
}
use itch_order_book.Spmc.{ConsumeFailure}
use itch_order_book.Spmc.System.{Task, answered, refusing, reading, Consumer}
use itch_order_book.Spmc.Invariant.{Got, IsConsuming}
use itch_order_book.Spmc.Publishing.{get_elem?-lt}

module _ {ℓ} {A : Type ℓ} where
  pub length-map-some : (xs : List A) → length (map some xs) ≡ length xs
  length-map-some [] = refl
  length-map-some (x ∷ xs) = omega (arith, length-map-some xs)

  pub map-some-item :
      (xs : List A) (i : ℕ) (x : A)
      → get_elem? (map some xs) i ≡ some (some x)
      → get_elem? xs i ≡ some x
  map-some-item [] i x h = absurd (cc h)
  map-some-item (y ∷ xs) zero x h = cc h
  map-some-item (y ∷ xs) (suc i) x h = map-some-item xs i x h

  pub length-replicate : (n : ℕ) (a : A) → length (replicate n a) ≡ n
  length-replicate zero a = refl
  length-replicate (suc n) a = omega (arith, length-replicate n a)

  pub replicate-none-item : (n i : ℕ) (x : A) → get_elem? (replicate n none) i ≢ some (some x)
  replicate-none-item zero i x h = cc h
  replicate-none-item (suc n) zero x h = cc h
  replicate-none-item (suc n) (suc i) x h = replicate-none-item n i x h

module _ (cap w p cr r : ℕ) {T : Type 0} (sent : List T) (c : Consumer T)
    (h : IsConsuming cap w p cr r sent c) where
  pub begin-IsConsuming :
      (cached n : ℕ) → cached ≤ r → w + n ≤ r + cap → IsConsuming cap w n cached r sent c
  begin-IsConsuming cached n le fits = record {
    kept = le;
    seen = h.seen;
    published = h.published;
    room = fits;
    got = h.got;
    taken_length = h.taken_length;
    taken_sent = h.taken_sent;
  }

  kept_Got :
      (items : List T)
      → w ≡ length sent
      → (task : Task T) → Got sent r c.cached_write_idx task
      → Got (sent ++ items) r c.cached_write_idx task
  kept_Got items e (answered f) g = tt
  kept_Got items e (refusing count) g = tt
  kept_Got items e (reading count got) g = (
    g.0,
    (
      g.1.0,
      λ i lt.
          g.1.1 i lt
          ∙ sym (
              get_elem?-append_left sent items (r + i) (omega (arith, e, g.0, g.1.0, h.published))),
    ),
  )

  pub publish-IsConsuming :
      (items : List T) (w' : ℕ)
      → w ≡ length sent
      → w' ≡ w + length items
      → p ≡ length items
      → IsConsuming cap w' 0 cr r (sent ++ items) c
  publish-IsConsuming items w' e grown all = record {
    kept = h.kept;
    seen = h.seen;
    published = omega (arith, h.published, grown);
    room = omega (arith, h.room, grown, all);
    got = kept_Got items e c.task h.got;
    taken_length = h.taken_length;
    taken_sent = λ i x t.
        let f = h.taken_sent i x t in
        get_elem?-append_left sent items i (get_elem?-lt sent i x f) ∙ f;
  }

  pub check-IsConsuming :
      (cached : ℕ) (task : Task T)
      → c.cached_write_idx ≤ cached
      → cached ≤ w
      → Got sent r cached task
      → IsConsuming cap w p cr r sent (record c { cached_write_idx = cached; task = task })
  check-IsConsuming cached task up below g = record {
    kept = h.kept;
    seen = omega (arith, h.seen);
    published = below;
    room = h.room;
    got = g;
    taken_length = h.taken_length;
    taken_sent = h.taken_sent;
  }

  pub read-Got :
      (count : ℕ) (got : List T) (x : T)
      → Got sent r c.cached_write_idx (reading count got)
      → length got < count
      → get_elem? sent (r + length got) ≡ some x
      → Got sent r c.cached_write_idx (reading count (got ++ x ∷ []))
  read-Got count got x g lt at = (
    g.0,
    (
      omega (arith, length-append got (x ∷ [])),
      λ e below. elim (dec_lt e (length got)) [
        | yes q ↦ get_elem?-append_left got (x ∷ []) e q ∙ g.1.1 e q
        | no q ↦
            let last : e ≡ length got = omega (arith, length-append got (x ∷ [])) in
            let this : e - length got ≡ 0 = omega arith in
            rw (get_elem?-append_right got (x ∷ []) e (omega arith), this, last) (sym at)
      ],
    ),
  )

  -- the items of a call come after those of the calls before it
  pub past-IsConsuming :
      (count r' : ℕ) (items : List (Option T))
      → r' ≡ r + count
      → r + count ≤ c.cached_write_idx
      → length items ≡ count
      → ((i : ℕ) (x : T) → get_elem? items i ≡ some (some x) → get_elem? sent (r + i) ≡ some x)
      → IsConsuming cap w p cr r' sent
          (record c { task = answered ConsumeFailure.no_failure; taken = c.taken ++ items })
  past-IsConsuming count r' items e enough all these = record {
    kept = omega (arith, h.kept, e);
    seen = omega (arith, e);
    published = h.published;
    room = omega (arith, h.room, e);
    got = tt;
    taken_length = omega (arith, length-append c.taken items, h.taken_length, e);
    taken_sent = λ i x t. elim (dec_lt i (length c.taken)) [
      | yes q ↦ h.taken_sent i x (sym (get_elem?-append_left c.taken items i q) ∙ t)
      | no q ↦
          ap (get_elem? sent) (omega (arith, h.taken_length))
          ∙ these (i - length c.taken) x
              (sym (get_elem?-append_right c.taken items i (omega arith)) ∙ t)
    ];
  }
