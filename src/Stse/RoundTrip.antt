-- ===== src/Stse/RoundTrip.antt =====
-- include/stse/detail/serialize.hpp, deserialize.hpp: what is serialized field by field is read
-- back field by field.
use itch_order_book.Common.{
  ℕ, zero, suc, ◌+◌, ◌-◌, ◌*◌, ◌<◌, ◌≡◌, refl, sym, ap, ap₂, ◌∙◌, subst, arith, true, false, length,
  if◌then◌else◌,
}
use native.Mathlib.Nat.{mul_comm}
use itch_order_book.Messages.Decode.{raw_value}
use itch_order_book.Stse.{
  Kind, scalar, container, aggregate, Members, end, member, raw_size, raw_size_members, struct_size,
  Span, subspan, constexpr_memcpy,
}
use itch_order_book.Stse.Fields.{
  EndianType, object_bytes, ordered, value_at, byte_of, for_items, write_fields, deserialize_scalar,
  read_fields, read_members,
}
use itch_order_book.Stse.Bytes.{
  IsMemory, memcpy_pointwise, object_bytes-AreBytes, length-object_bytes, byte_of-object_bytes,
  arranged, arranged-arranged, ordered-arranged, length-arranged, arranged-AreBytes,
}
use itch_order_book.Stse.Encodes.{Encodes, EncodesMembers}
use itch_order_book.Stse.Written.{write_fields-Encodes}

-- the assignment of an object member by member, the ignored ones left out: from the object at
-- `from` of a memory to the one at `to` of another
unfoldable mutual
  pub copy_fields : Kind → ℕ → ℕ → (ℕ → ℕ) → (ℕ → ℕ) → ℕ → ℕ
  copy_fields (scalar k n) to from memory destination =
      constexpr_memcpy to from n memory destination
  copy_fields (container count item) to from memory destination =
      for_items count 0
        (λ i m. copy_fields item (to + struct_size item * i) (from + struct_size item * i) memory m)
        destination
  copy_fields (aggregate safe size members) to from memory destination =
      copy_members members to from memory destination

  pub copy_members : Members → ℕ → ℕ → (ℕ → ℕ) → (ℕ → ℕ) → ℕ → ℕ
  copy_members end to from memory destination = destination
  copy_members (member ignored offset kind members) to from memory destination =
      copy_members members to from memory (
        if ignored
        then destination
        else copy_fields kind (to + offset) (from + offset) memory destination)

pub subspan-subspan : (a b c : ℕ) (s : Span) → a + b ≡ c → subspan b (subspan a s) ≡ subspan c s
subspan-subspan a b c s e =
    let start : s.start + a + b ≡ s.start + c = omega (arith, e) in
    let size : s.size - a - b ≡ s.size - c = omega (arith, e) in
    ap₂ (λ x y. record s { start = x; size = y }) start size

pub subspan-zero : (a : ℕ) (s : Span) → a ≡ 0 → subspan a s ≡ s
subspan-zero a s e =
    let start : s.start + a ≡ s.start = omega (arith, e) in
    let size : s.size - a ≡ s.size = omega (arith, e) in
    ap₂ (λ x y. record s { start = x; size = y }) start size

-- reading `n` items of `raw` bytes from the `i`-th on, where each reads as `g` says
pub read_items :
    (f : ℕ → (ℕ → ℕ) × Span → (ℕ → ℕ) × Span) (g : ℕ → (ℕ → ℕ) → ℕ → ℕ) (raw : ℕ) (s : Span)
    (n i : ℕ) (m : ℕ → ℕ)
    → ((j : ℕ) (m' : ℕ → ℕ)
        → j < i + n
        → f j (m', subspan (raw * j) s) ≡ (g j m', subspan raw (subspan (raw * j) s)))
    → for_items n i f (m, subspan (raw * i) s) ≡ (for_items n i g m, subspan (raw * (i + n)) s)
unfolding for_items
read_items f g raw s zero i m each =
    let all : i ≡ i + 0 = omega arith in ap (λ k. (m, subspan (raw * k) s)) all
read_items f g raw s (suc n) i m each =
    let next : raw * i + raw ≡ raw * (i + 1) = grind arith in
    let all : i + 1 + n ≡ i + suc n = omega arith in
    ap (λ x. for_items n (i + 1) f x)
      (each i m (omega arith)
        ∙ ap (λ t. (g i m, t)) (subspan-subspan (raw * i) raw (raw * (i + 1)) s next))
    ∙ read_items f g raw s n (i + 1) (g i m) (λ j m' lt. each j m' (omega arith))
    ∙ ap (λ k. (for_items n (i + 1) g (g i m), subspan (raw * k) s)) all

-- all the items of a container
pub read_container :
    (f : ℕ → (ℕ → ℕ) × Span → (ℕ → ℕ) × Span) (g : ℕ → (ℕ → ℕ) → ℕ → ℕ) (raw count : ℕ) (s : Span)
    (m : ℕ → ℕ)
    → ((j : ℕ) (m' : ℕ → ℕ)
        → j < count
        → f j (m', subspan (raw * j) s) ≡ (g j m', subspan raw (subspan (raw * j) s)))
    → for_items count 0 f (m, s) ≡ (for_items count 0 g m, subspan (count * raw) s)
read_container f g raw count s m each =
    let none : s ≡ subspan (raw * 0) s = sym (subspan-zero (raw * 0) s (omega arith)) in
    let size : raw * (0 + count) ≡ count * raw = mul_comm raw (0 + count) ∙ omega arith in
    ap (λ t. for_items count 0 f (m, t)) none
    ∙ read_items f g raw s count 0 m (λ j m' lt. each j m' (omega arith))
    ∙ ap (λ k. (for_items count 0 g m, subspan k s)) size

module _ (e : EndianType) (memory : ℕ → ℕ) (is_memory : IsMemory memory) where
  -- reading `n` bytes of the serial form of a scalar gives the scalar
  scalar_read :
      (n object : ℕ) (bytes : ℕ → ℕ) (start : ℕ)
      → object_bytes n bytes start ≡ arranged e (object_bytes n memory object)
      → ordered e n (value_at n bytes start) ≡ value_at n memory object
  scalar_read n object bytes start h =
      let given = object_bytes n memory object in
      let long : length (arranged e given) ≡ n =
        length-arranged e given ∙ length-object_bytes n memory object in
      let turned = arranged-AreBytes e given (object_bytes-AreBytes n memory object is_memory) in
      let back : ordered e n (raw_value (arranged e given))
          ≡ raw_value (arranged e (arranged e given)) =
        subst
          (λ k.
            ordered e k (raw_value (arranged e given)) ≡ raw_value (arranged e (arranged e given)))
          long (ordered-arranged e (arranged e given) turned) in
      ap (λ l. ordered e n (raw_value l)) h ∙ back ∙ ap raw_value (arranged-arranged e given)

  deserialize_scalar-copy :
      (n object to : ℕ) (m : ℕ → ℕ) (s : Span)
      → object_bytes n s.bytes s.start ≡ arranged e (object_bytes n memory object)
      → deserialize_scalar e n to (m, s) ≡ (constexpr_memcpy to object n memory m, subspan n s)
  unfolding deserialize_scalar
  deserialize_scalar-copy n object to m s h =
      let value = scalar_read n object s.bytes s.start h in
      ap (λ x. (x, subspan n s))
        (memcpy_pointwise to 0 object n (byte_of (ordered e n (value_at n s.bytes s.start))) memory
          m
          (λ i lt.
            let first : 0 + i ≡ i = omega arith in
            ap (byte_of (ordered e n (value_at n s.bytes s.start))) first
            ∙ ap (λ v. byte_of v i) value
            ∙ byte_of-object_bytes n memory object i is_memory lt))

  abbrev read_item : Kind → ℕ → ℕ → (ℕ → ℕ) × Span → (ℕ → ℕ) × Span
  read_item item to i s = read_fields e item (to + struct_size item * i) s

  abbrev copy_item : Kind → ℕ → ℕ → ℕ → (ℕ → ℕ) → ℕ → ℕ
  copy_item item to from i m =
      copy_fields item (to + struct_size item * i) (from + struct_size item * i) memory m

  mutual
    unfolding read_fields copy_fields raw_size

    pub read_fields-copy :
        (kind : Kind) (object to : ℕ) (m : ℕ → ℕ) (s : Span)
        → Encodes e kind object memory s.bytes s.start
        → read_fields e kind to (m, s)
          ≡ (copy_fields kind to object memory m, subspan (raw_size kind) s)
    read_fields-copy (scalar k n) object to m s h = deserialize_scalar-copy n object to m s h
    read_fields-copy (container count item) object to m s h =
        read_container (read_item item to) (copy_item item to object) (raw_size item) count s m
          (λ j m' lt.
            read_fields-copy item (object + struct_size item * j) (to + struct_size item * j) m'
              (subspan (raw_size item * j) s) (h j lt))
    read_fields-copy (aggregate safe size members) object to m s h =
        read_members-copy members object to m s h

    read_members-copy :
        (members : Members) (object to : ℕ) (m : ℕ → ℕ) (s : Span)
        → EncodesMembers e members object memory s.bytes s.start
        → read_members e members to (m, s)
          ≡ (copy_members members to object memory m, subspan (raw_size_members members) s)
    read_members-copy end object to m s h = ap (λ t. (m, t)) (sym (subspan-zero 0 s refl))
    read_members-copy (member true offset kind members) object to m s h =
        read_members-copy members object to m (subspan (raw_size kind) s) h.1
        ∙ ap (λ t. (copy_members members to object memory m, t))
            (subspan-subspan (raw_size kind) (raw_size_members members)
              (raw_size kind + raw_size_members members) s refl)
    read_members-copy (member false offset kind members) object to m s h =
        let m' = copy_fields kind (to + offset) (object + offset) memory m in
        ap (λ x. read_members e members to x)
          (read_fields-copy kind (object + offset) (to + offset) m s (h.0 refl))
        ∙ read_members-copy members object to m' (subspan (raw_size kind) s) h.1
        ∙ ap (λ t. (copy_members members to object memory m', t))
            (subspan-subspan (raw_size kind) (raw_size_members members)
              (raw_size kind + raw_size_members members) s refl)

-- Serializing an object field by field, in any byte order, and reading the result back in the same
-- order, into an object at any address of any memory, assigns the object member by member, ignored
-- members left out; the rest of the source is what follows its serial form.
pub read_fields-write_fields :
    (e : EndianType) (kind : Kind) (object to : ℕ) (memory memory' : ℕ → ℕ) (d : Span)
    → IsMemory memory
    → let written = record (write_fields e kind object memory d) {
      start = d.start;
      size = d.size;
    } in
      read_fields e kind to (memory', written)
      ≡ (copy_fields kind to object memory memory', subspan (raw_size kind) written)
read_fields-write_fields e kind object to memory memory' d h =
    read_fields-copy e memory h kind object to memory' _
      (write_fields-Encodes e memory h kind object d).1
