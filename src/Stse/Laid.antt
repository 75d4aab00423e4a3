-- ===== src/Stse/Laid.antt =====
-- include/stse/detail/layout.hpp: where the ranges of a layout lie.
use native.Mathlib.Nat.{mul-le-mul_left, mul-suc, mul_comm}
use itch_order_book.Common.{
  ℕ, zero, suc, ◌+◌, ◌*◌, ◌≤◌, ◌<◌, ◌≡◌, arith, Bool, true, false, List, [], ◌∷◌, ◌++◌, ◌==◌, ◌&&◌,
  if◌then◌else◌, Bool-cases, inl, inr,
}
use itch_order_book.Stse.Compress.{continues}
use itch_order_book.Stse.{
  Kind, scalar, container, aggregate, Members, end, member, struct_size, raw_size, raw_size_members,
  ByteRange, enumerate_items, enumerate_object, enumerate_members, compress_from, compress_layout,
  build_sequence,
}

-- what a compiler's layout has: members lie in their object. The items of a container take as many
-- bytes in memory as in their serial form, which is not so where an item has padding.
abbrev mutual
  pub IsLaid : Kind → Type 0
  IsLaid (scalar k n) = Unit
  IsLaid (container count item) = IsLaid item × (raw_size item ≡ struct_size item)
  IsLaid (aggregate safe size members) = AreLaid size members

  pub AreLaid : ℕ → Members → Type 0
  AreLaid size end = Unit
  AreLaid size (member ignored offset kind members) =
      IsLaid kind × ((offset + struct_size kind ≤ size) × AreLaid size members)

-- the range lies between two offsets in memory, and between two in the serial form
pub record IsWithin (s s' w w' : ℕ) (r : ByteRange) : Type 0 where
  pub struct_from : s ≤ r.struct_offset
  pub struct_to : r.struct_offset + r.count ≤ s'
  pub wire_from : w ≤ r.wire_offset
  pub wire_to : r.wire_offset + r.count ≤ w'

abbrev pub AreWithin : ℕ → ℕ → ℕ → ℕ → List ByteRange → Type 0
AreWithin s s' w w' [] = Unit
AreWithin s s' w w' (r ∷ ranges) = IsWithin s s' w w' r × AreWithin s s' w w' ranges

append-AreWithin :
    (s s' w w' : ℕ) (xs ys : List ByteRange)
    → AreWithin s s' w w' xs
    → AreWithin s s' w w' ys
    → AreWithin s s' w w' (xs ++ ys)
append-AreWithin s s' w w' [] ys h k = k
append-AreWithin s s' w w' (x ∷ xs) ys h k = (h.0, append-AreWithin s s' w w' xs ys h.1 k)

-- with the ranges of a member, or without them
unless-AreWithin :
    (ignored : Bool) (s s' w w' : ℕ) (xs ys : List ByteRange)
    → AreWithin s s' w w' xs
    → AreWithin s s' w w' ys
    → AreWithin s s' w w' (if ignored then ys else xs ++ ys)
unless-AreWithin true s s' w w' xs ys h k = k
unless-AreWithin false s s' w w' xs ys h k = append-AreWithin s s' w w' xs ys h k

widen-AreWithin :
    (s s' w w' a a' b b' : ℕ) (xs : List ByteRange)
    → a ≤ s
    → s' ≤ a'
    → b ≤ w
    → w' ≤ b'
    → AreWithin s s' w w' xs
    → AreWithin a a' b b' xs
widen-AreWithin s s' w w' a a' b b' [] h1 h2 h3 h4 k = tt
widen-AreWithin s s' w w' a a' b b' (x ∷ xs) h1 h2 h3 h4 k = (
  record {
    struct_from = omega (arith, k.0.struct_from);
    struct_to = omega (arith, k.0.struct_to);
    wire_from = omega (arith, k.0.wire_from);
    wire_to = omega (arith, k.0.wire_to);
  },
  widen-AreWithin s s' w w' a a' b b' xs h1 h2 h3 h4 k.1,
)

-- the items from the `i`-th on
enumerate_items-AreWithin :
    (s s' w w' n i : ℕ) (f : ℕ → List ByteRange)
    → ((j : ℕ) → j < i + n → AreWithin s s' w w' (f j))
    → AreWithin s s' w w' (enumerate_items n i f)
unfolding enumerate_items
enumerate_items-AreWithin s s' w w' zero i f h = tt
enumerate_items-AreWithin s s' w w' (suc n) i f h =
    append-AreWithin s s' w w' (f i) (enumerate_items n (i + 1) f) (h i (omega arith))
      (enumerate_items-AreWithin s s' w w' n (i + 1) f (λ j lt. h j (omega arith)))

item_fits : (count size j : ℕ) → j < count → size * j + size ≤ count * size
item_fits count size j h =
    let up : size * suc j ≤ size * count = mul-le-mul_left size (omega arith) in
    omega (arith, up, mul-suc size j, mul_comm size count)

mutual
  unfolding enumerate_object raw_size struct_size

  enumerate_object-AreWithin :
      (kind : Kind) (s w : ℕ)
      → IsLaid kind
      → AreWithin s (s + struct_size kind) w (w + raw_size kind) (enumerate_object kind s w)
  enumerate_object-AreWithin (scalar k n) s w h = (
    record {
      struct_from = omega arith;
      struct_to = omega arith;
      wire_from = omega arith;
      wire_to = omega arith;
    },
    tt,
  )
  enumerate_object-AreWithin (container count item) s w h =
      enumerate_items-AreWithin s (s + count * struct_size item) w (w + count * raw_size item) count
        0 _
        (λ j lt.
          let fits = item_fits count (struct_size item) j (omega arith) in
          widen-AreWithin _ _ _ _ s (s + count * struct_size item) w (w + count * raw_size item) _
            (omega arith) (omega (arith, fits)) (omega arith) (rw h.1 (omega (arith, fits)))
            (enumerate_object-AreWithin item (s + struct_size item * j) (w + struct_size item * j)
              h.0))
  enumerate_object-AreWithin (aggregate safe size members) s w h =
      enumerate_members-AreWithin members size s w h

  enumerate_members-AreWithin :
      (members : Members) (size s w : ℕ)
      → AreLaid size members
      → AreWithin s (s + size) w (w + raw_size_members members) (enumerate_members members s w)
  enumerate_members-AreWithin end size s w h = tt
  enumerate_members-AreWithin (member ignored offset kind members) size s w h =
      let rest =
        widen-AreWithin s (s + size) (w + raw_size kind)
          (w + raw_size kind + raw_size_members members) s (s + size) w
          (w + (raw_size kind + raw_size_members members))
          (enumerate_members members s (w + raw_size kind)) (omega arith) (omega arith)
          (omega arith) (omega arith)
          (enumerate_members-AreWithin members size s (w + raw_size kind) h.1.1) in
      let this =
        widen-AreWithin (s + offset) (s + offset + struct_size kind) w (w + raw_size kind) s
          (s + size) w (w + (raw_size kind + raw_size_members members))
          (enumerate_object kind (s + offset) w) (omega arith) (omega (arith, h.1.0)) (omega arith)
          (omega arith) (enumerate_object-AreWithin kind (s + offset) w h.0) in
      unless-AreWithin ignored _ _ _ _ _ _ this rest

compress_from-AreWithin :
    (s s' w w' : ℕ) (back : ByteRange) (ranges : List ByteRange)
    → IsWithin s s' w w' back
    → AreWithin s s' w w' ranges
    → AreWithin s s' w w' (compress_from back ranges)
unfolding compress_from
compress_from-AreWithin s s' w w' back [] h k = (h, tt)
compress_from-AreWithin s s' w w' back (r ∷ ranges) h k =
    elim (Bool-cases (
      (r.struct_offset == back.struct_offset + back.count)
      && (r.wire_offset == back.wire_offset + back.count))) [
        | inl e ↦
            let c = continues back r e in
            let joined : IsWithin s s' w w' (record back { count = back.count + r.count }) =
              record {
                struct_from = h.struct_from;
                struct_to = omega (arith, k.0.struct_to, c.0);
                wire_from = h.wire_from;
                wire_to = omega (arith, k.0.wire_to, c.1);
              } in
            rw (compress_from, e) (compress_from-AreWithin s s' w w' _ ranges joined k.1)
        | inr e ↦ rw (compress_from, e) (h, compress_from-AreWithin s s' w w' r ranges k.0 k.1)
      ]

compressed :
    (s s' w w' : ℕ) (ranges : List ByteRange)
    → AreWithin s s' w w' ranges
    → AreWithin s s' w w' (compress_layout ranges)
unfolding compress_layout
compressed s s' w w' [] k = tt
compressed s s' w w' (r ∷ ranges) k = compress_from-AreWithin s s' w w' r ranges k.0 k.1

-- Where members lie in their objects and the items of containers have no padding, every range of
-- the layout that `serialize` and `deserialize` copy by lies within the object and within its
-- serial form.
pub build_sequence-AreWithin :
    (kind : Kind)
    → IsLaid kind
    → AreWithin 0 (struct_size kind) 0 (raw_size kind) (build_sequence kind)
unfolding build_sequence compress_layout
build_sequence-AreWithin kind h =
    compressed 0 (struct_size kind) 0 (raw_size kind) (enumerate_object kind 0 0) (
      widen-AreWithin 0 (0 + struct_size kind) 0 (0 + raw_size kind) 0 (struct_size kind) 0
        (raw_size kind) (enumerate_object kind 0 0) (omega arith) (omega arith) (omega arith)
        (omega arith) (enumerate_object-AreWithin kind 0 0 h))
