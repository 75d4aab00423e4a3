-- ===== src/Stse/Written.antt =====
-- include/stse/detail/serialize.hpp: writing field by field gives the serial form of an object, as
-- bytes, and nothing else.
use native.Mathlib.Nat.{mul_comm}
use itch_order_book.Common.{
  ℕ, zero, suc, ◌+◌, ◌*◌, ◌<◌, ◌≡◌, inl, refl, ap, ◌∙◌, subst, arith, dec_lt, Bool, true, false,
  length, if◌then◌else◌,
}
use itch_order_book.Messages.Decode.{raw_value}
use itch_order_book.Stse.{
  Kind, scalar, container, aggregate, Members, end, member, raw_size, raw_size_members, struct_size,
  Span, subspan,
}
use itch_order_book.Stse.Fields.{
  EndianType, object_bytes, ordered, byte_of, for_items, serialize_scalar, write_fields,
  write_members,
}
use itch_order_book.Stse.Bytes.{
  IsMemory, memcpy_outside, memcpy_inside, object_bytes-AreBytes, length-object_bytes,
  object_bytes-raw_value, arranged, ordered-arranged, length-arranged, arranged-AreBytes,
}
use itch_order_book.Stse.Encodes.{
  Encodes, EncodesMembers, item_inside, Encodes-frame, Advances, Advances-trans, Advances-zero,
}

module _ (e : EndianType) (memory : ℕ → ℕ) (is_memory : IsMemory memory) where
  serialize_scalar-Encodes :
      (n object : ℕ) (d : Span)
      → Advances n d (serialize_scalar e n object memory d)
        × (object_bytes n (serialize_scalar e n object memory d).bytes d.start
            ≡ arranged e (object_bytes n memory object))
  unfolding serialize_scalar
  serialize_scalar-Encodes n object d =
      let given = object_bytes n memory object in
      let bytes = object_bytes-AreBytes n memory object is_memory in
      let long : length given ≡ n = length-object_bytes n memory object in
      let turned : length (arranged e given) ≡ n = length-arranged e given ∙ long in
      let value : ordered e n (raw_value given) ≡ raw_value (arranged e given) =
        subst (λ k. ordered e k (raw_value given) ≡ raw_value (arranged e given)) long
          (ordered-arranged e given bytes) in
      (
        record {
          start = refl;
          size = refl;
          outside = λ j out. memcpy_outside d.start 0 n _ d.bytes j out;
        },
        subst
            (λ k.
              object_bytes k (serialize_scalar e n object memory d).bytes d.start
              ≡ arranged e given)
            turned
            (object_bytes-raw_value (arranged e given) (serialize_scalar e n object memory d).bytes
              d.start (arranged-AreBytes e given bytes)
              (λ i lt.
                let zero_first : 0 + i ≡ i = omega arith in
                memcpy_inside d.start 0 n (byte_of (ordered e n (raw_value given))) d.bytes i
                  (omega (arith, turned))
                ∙ ap (byte_of (ordered e n (raw_value given))) zero_first
                ∙ ap (λ v. byte_of v i) value)),
      )

  abbrev write_item : Kind → ℕ → ℕ → Span → Span
  write_item item object j d = write_fields e item (object + struct_size item * j) memory d

  -- the first `i` items of a container are written from the start of `base` on
  record Filled (item : Kind) (object : ℕ) (base : Span) (i : ℕ) (d : Span) : Type 0 where
    advances : Advances (raw_size item * i) base d
    written :
        (j : ℕ)
        → j < i
        → Encodes e item
            (object + struct_size item * j)
            memory
            d.bytes
            (base.start + raw_size item * j)

  Filled-next :
      (item : Kind) (object : ℕ) (base : Span) (i : ℕ) (d d' : Span)
      → Filled item object base i d
      → Advances (raw_size item) d d'
      → Encodes e item (object + struct_size item * i) memory d'.bytes d.start
      → Filled item object base (i + 1) d'
  Filled-next item object base i d d' h adv this =
      let one_more : raw_size item * i + raw_size item ≡ raw_size item * (i + 1) = grind arith in
      let at = h.advances.start in
      record {
        advances =
            subst (λ k. Advances k base d') one_more
              (Advances-trans (raw_size item * i) (raw_size item) base d d' h.advances adv);
        written = λ j lt. elim (dec_lt j i) [
          | yes earlier ↦
              let before = item_inside i (raw_size item) j earlier in
              Encodes-frame e item (object + struct_size item * j) memory d.bytes d'.bytes
                (base.start + raw_size item * j)
                (λ k lo hi.
                  adv.outside k (inl (omega (arith, hi, before, at, mul_comm i (raw_size item)))))
                (h.written j earlier)
          | no last ↦
              let same : i ≡ j = omega arith in
              subst
                (λ k.
                  Encodes e item (object + struct_size item * k) memory d'.bytes
                    (base.start + raw_size item * k))
                same
                (subst (λ k. Encodes e item (object + struct_size item * i) memory d'.bytes k) at
                  this)
        ];
      }

  -- `n` more items after the first `i`
  serialize_items-Filled :
      (item : Kind) (object : ℕ) (base : Span)
      → ((at : ℕ) (d : Span)
          → Advances (raw_size item) d (write_fields e item at memory d)
            × Encodes e item at memory (write_fields e item at memory d).bytes d.start)
      → (n i : ℕ) (d : Span) → Filled item object base i d
      → Filled item object base (i + n) (for_items n i (write_item item object) d)
  unfolding for_items
  serialize_items-Filled item object base step zero i d h =
      let all : i ≡ i + 0 = omega arith in subst (λ k. Filled item object base k d) all h
  serialize_items-Filled item object base step (suc n) i d h =
      let all : i + 1 + n ≡ i + suc n = omega arith in
      let d' = write_item item object i d in
      let (adv, this) = step (object + struct_size item * i) d in
      subst (λ k. Filled item object base k (for_items n (i + 1) (write_item item object) d')) all
        (serialize_items-Filled item object base step n (i + 1) d'
          (Filled-next item object base i d d' h adv this))

  unless-ignored :
      (ignored : Bool) (kind : Kind) (object : ℕ) (d d' : Span)
      → Advances (raw_size kind) d d'
      → Encodes e kind object memory d'.bytes d.start
      → Advances (raw_size kind) d (if ignored then subspan (raw_size kind) d else d')
        × (ignored ≡ false
            → Encodes e kind object memory
                (if ignored then subspan (raw_size kind) d else d').bytes
                d.start)
  unless-ignored true kind object d d' adv enc =
      (record { start = refl; size = refl; outside = λ j out. refl }, λ e. absurd (cc e))
  unless-ignored false kind object d d' adv enc = (adv, λ _. enc)

  mutual
    unfolding write_fields raw_size

    pub write_fields-Encodes :
        (kind : Kind) (object : ℕ) (d : Span)
        → Advances (raw_size kind) d (write_fields e kind object memory d)
          × Encodes e kind object memory (write_fields e kind object memory d).bytes d.start
    write_fields-Encodes (scalar k n) object d = serialize_scalar-Encodes n object d
    write_fields-Encodes (container count item) object d =
        let h =
          serialize_items-Filled item object d (λ at d'. write_fields-Encodes item at d') count 0 d
            (record {
              advances = Advances-zero (raw_size item * 0) d (omega arith);
              written = λ j lt. absurd (omega arith);
            }) in
        let size : raw_size item * (0 + count) ≡ count * raw_size item =
          mul_comm (raw_size item) (0 + count) ∙ omega arith in
        (
          subst (λ k. Advances k d (write_fields e (container count item) object memory d)) size
              h.advances,
          λ j lt. h.written j (omega arith),
        )
    write_fields-Encodes (aggregate safe size members) object d =
        write_members-Encodes members object d

    write_members-Encodes :
        (members : Members) (object : ℕ) (d : Span)
        → Advances (raw_size_members members) d (write_members e members object memory d)
          × EncodesMembers e members object memory
              (write_members e members object memory d).bytes
              d.start
    write_members-Encodes end object d = (Advances-zero 0 d refl, tt)
    write_members-Encodes (member ignored offset kind members) object d =
        let (adv, enc) = write_fields-Encodes kind (object + offset) d in
        let d' =
          if ignored
          then subspan (raw_size kind) d
          else write_fields e kind (object + offset) memory d in
        let (adv', this) = unless-ignored ignored kind (object + offset) d _ adv enc in
        let (adv'', rest) = write_members-Encodes members object d' in
        (
          Advances-trans (raw_size kind) (raw_size_members members) d d' _ adv' adv'',
          (
            λ kept.
                Encodes-frame e kind (object + offset) memory d'.bytes _ d.start
                  (λ j lo hi. adv''.outside j (inl (omega (arith, adv'.start)))) (this kept),
            subst
                (λ k.
                  EncodesMembers e members object memory
                    (write_members e members object memory d').bytes k)
                adv'.start rest,
          ),
        )
