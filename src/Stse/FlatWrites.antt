-- ===== src/Stse/FlatWrites.antt =====
-- include/stse/detail/serialize.hpp: writing field by field in the host's byte order is copying by
-- the ranges.
use itch_order_book.Common.{
  ℕ, zero, suc, ◌+◌, ◌*◌, ◌≡◌, refl, sym, ap, ◌∙◌, arith, true, false, List, [], ◌∷◌, ◌++◌,
}
use itch_order_book.Stse.{
  Kind, scalar, container, aggregate, Members, end, member, raw_size, struct_size, ByteRange,
  enumerate_items, enumerate_object, enumerate_members, Span, subspan, constexpr_memcpy,
  write_bytes,
}
use itch_order_book.Stse.Laid.{IsLaid, AreLaid}
use itch_order_book.Stse.Fields.{
  EndianType, is_native, ordered, value_at, byte_of, for_items, serialize_scalar, write_fields,
  write_members,
}
use itch_order_book.Stse.Bytes.{IsMemory, memcpy_pointwise, byte_of-object_bytes}
use itch_order_book.Stse.Written.{write_fields-Encodes}
use itch_order_book.Stse.FlatReads.{further, native_value}

write_bytes-append :
    (xs ys : List ByteRange) (object : ℕ) (memory : ℕ → ℕ) (start : ℕ) (bytes : ℕ → ℕ)
    → write_bytes (xs ++ ys) object memory start bytes
      ≡ write_bytes ys object memory start (write_bytes xs object memory start bytes)
unfolding write_bytes
write_bytes-append [] ys object memory start bytes = refl
write_bytes-append (r ∷ xs) ys object memory start bytes =
    write_bytes-append xs ys object memory start _

module _ (e : EndianType) (is_host : is_native e ≡ true) where
  module _ (memory : ℕ → ℕ) (is_memory : IsMemory memory) (object start : ℕ) where
    serialize_items-write_bytes :
        (item : Kind) (s w : ℕ)
        → raw_size item ≡ struct_size item
        → ((s' w' : ℕ) (d : Span)
            → d.start ≡ start + w'
            → write_bytes (enumerate_object item s' w') object memory start d.bytes
              ≡ (write_fields e item (object + s') memory d).bytes)
        → (n i : ℕ) (d : Span) → d.start ≡ start + (w + struct_size item * i)
        → write_bytes
            (enumerate_items n i
              (λ j. enumerate_object item (s + struct_size item * j) (w + struct_size item * j)))
            object
            memory
            start
            d.bytes
          ≡ (for_items n i
              (λ j d'. write_fields e item (object + s + struct_size item * j) memory d')
              d).bytes
    unfolding write_bytes enumerate_items for_items
    serialize_items-write_bytes item s w laid each zero i d at = refl
    serialize_items-write_bytes item s w laid each (suc n) i d at =
        let ranges : ℕ → List ByteRange =
          λ j. enumerate_object item (s + struct_size item * j) (w + struct_size item * j) in
        let write : ℕ → Span → Span =
          λ j d'. write_fields e item (object + s + struct_size item * j) memory d' in
        let d' = write_fields e item (object + (s + struct_size item * i)) memory d in
        let (adv, _) =
          write_fields-Encodes e memory is_memory item (object + (s + struct_size item * i)) d in
        let next : struct_size item * i + struct_size item ≡ struct_size item * (i + 1) =
          grind arith in
        write_bytes-append (ranges i) (enumerate_items n (i + 1) ranges) object memory start d.bytes
        ∙ ap (λ b. write_bytes (enumerate_items n (i + 1) ranges) object memory start b)
            (each (s + struct_size item * i) (w + struct_size item * i) d at)
        ∙ serialize_items-write_bytes item s w laid each n (i + 1) d'
            (omega (arith, at, adv.start, next, laid))
        ∙ ap (λ a. (for_items n (i + 1) write (write_fields e item a memory d)).bytes)
            (sym (further object s (struct_size item * i)))

    mutual
      unfolding write_fields serialize_scalar enumerate_object write_bytes raw_size struct_size

      pub write_fields-write_bytes :
          (kind : Kind) (s w : ℕ) (d : Span)
          → IsLaid kind
          → d.start ≡ start + w
          → write_bytes (enumerate_object kind s w) object memory start d.bytes
            ≡ (write_fields e kind (object + s) memory d).bytes
      write_fields-write_bytes (scalar k n) s w d laid at =
          let value = value_at n memory (object + s) in
          ap (λ a. constexpr_memcpy a (object + s) n memory d.bytes) (sym at)
          ∙ memcpy_pointwise d.start (object + s) 0 n memory _ d.bytes (λ i lt.
            let first : 0 + i ≡ i = omega arith in
            sym (
              ap (byte_of (ordered e n value)) first
              ∙ ap (λ v. byte_of v i) (native_value e is_host n value)
              ∙ byte_of-object_bytes n memory (object + s) i is_memory lt))
      write_fields-write_bytes (container count item) s w d laid at =
          serialize_items-write_bytes item s w laid.1
            (λ s' w' d' at'. write_fields-write_bytes item s' w' d' laid.0 at') count 0 d
            (omega (arith, at))
      write_fields-write_bytes (aggregate safe size members) s w d laid at =
          write_members-write_bytes members size s w d laid at

      write_members-write_bytes :
          (members : Members) (size s w : ℕ) (d : Span)
          → AreLaid size members
          → d.start ≡ start + w
          → write_bytes (enumerate_members members s w) object memory start d.bytes
            ≡ (write_members e members (object + s) memory d).bytes
      write_members-write_bytes end size s w d laid at = refl
      write_members-write_bytes (member true offset kind members) size s w d laid at =
          write_members-write_bytes members size s (w + raw_size kind) (subspan (raw_size kind) d)
            laid.1.1 (omega (arith, at))
      write_members-write_bytes (member false offset kind members) size s w d laid at =
          let here = enumerate_object kind (s + offset) w in
          let later = enumerate_members members s (w + raw_size kind) in
          let d' = write_fields e kind (object + (s + offset)) memory d in
          let (adv, _) = write_fields-Encodes e memory is_memory kind (object + (s + offset)) d in
          write_bytes-append here later object memory start d.bytes
          ∙ ap (λ b. write_bytes later object memory start b)
              (write_fields-write_bytes kind (s + offset) w d laid.0 at)
          ∙ write_members-write_bytes members size s (w + raw_size kind) d' laid.1.1
              (omega (arith, at, adv.start))
          ∙ ap
              (λ a.
                (write_members e members (object + s) memory
                  (write_fields e kind a memory d)).bytes)
              (sym (further object s offset))
