-- ===== src/Stse/FlatReads.antt =====
-- include/stse/detail/deserialize.hpp: reading field by field in the host's byte order is copying
-- by the ranges.
use itch_order_book.Common.{
  ℕ, zero, suc, ◌+◌, ◌*◌, ◌≡◌, refl, sym, ap, ap₂, ◌∙◌, arith, true, false, List, [], ◌∷◌, ◌++◌,
}
use itch_order_book.Stse.{
  Kind, scalar, container, aggregate, Members, end, member, raw_size, raw_size_members, struct_size,
  ByteRange, enumerate_items, enumerate_object, enumerate_members, Span, subspan, read_bytes,
}
use itch_order_book.Stse.Laid.{IsLaid, AreLaid}
use itch_order_book.Stse.Fields.{
  EndianType, is_native, ordered, value_at, byte_of, for_items, deserialize_scalar, read_fields,
  read_members,
}
use itch_order_book.Stse.Bytes.{IsMemory, memcpy_pointwise, byte_of-object_bytes}
use itch_order_book.Stse.RoundTrip.{subspan-subspan, subspan-zero, read_container}

read_bytes-append :
    (xs ys : List ByteRange) (object : ℕ) (source : Span) (memory : ℕ → ℕ)
    → read_bytes (xs ++ ys) object source memory
      ≡ read_bytes ys object source (read_bytes xs object source memory)
unfolding read_bytes
read_bytes-append [] ys object source memory = refl
read_bytes-append (r ∷ xs) ys object source memory = read_bytes-append xs ys object source _

-- the ranges of the items, copied one after the other
read_bytes-enumerate_items :
    (n i : ℕ) (ranges : ℕ → List ByteRange) (object : ℕ) (source : Span) (memory : ℕ → ℕ)
    → read_bytes (enumerate_items n i ranges) object source memory
      ≡ for_items n i (λ j m. read_bytes (ranges j) object source m) memory
unfolding read_bytes enumerate_items for_items
read_bytes-enumerate_items zero i ranges object source memory = refl
read_bytes-enumerate_items (suc n) i ranges object source memory =
    read_bytes-append (ranges i) (enumerate_items n (i + 1) ranges) object source memory
    ∙ read_bytes-enumerate_items n (i + 1) ranges object source _

pub further : (a b c : ℕ) → a + b + c ≡ a + (b + c)
further a b c = omega arith

module _ (e : EndianType) (is_host : is_native e ≡ true) where
  pub native_value : (n value : ℕ) → ordered e n value ≡ value
  native_value n value = rw is_host refl

  module _ (source : Span) (is_memory : IsMemory source.bytes) where
    -- the members after one of `raw` bytes
    after_member :
        (members : Members) (raw w rest object : ℕ) (m m' : ℕ → ℕ)
        → read_members e members object (m, subspan (w + raw) source)
          ≡ (m', subspan rest (subspan (w + raw) source))
        → read_members e members object (m, subspan raw (subspan w source))
          ≡ (m', subspan (raw + rest) (subspan w source))
    after_member members raw w rest object m m' h =
        let span = subspan-subspan w raw (w + raw) source refl in
        ap (λ t. read_members e members object (m, t)) span
        ∙ h
        ∙ ap (λ t. (m', t))
            (ap (subspan rest) (sym span)
              ∙ subspan-subspan raw rest (raw + rest) (subspan w source) refl)

    mutual
      unfolding read_fields deserialize_scalar enumerate_object read_bytes raw_size struct_size

      pub read_fields-read_bytes :
          (kind : Kind) (object s w : ℕ) (m : ℕ → ℕ)
          → IsLaid kind
          → read_fields e kind (object + s) (m, subspan w source) ≡ (
            read_bytes (enumerate_object kind s w) object source m,
            subspan (raw_size kind) (subspan w source),
          )
      read_fields-read_bytes (scalar k n) object s w m laid =
          ap (λ x. (x, subspan n (subspan w source)))
            (memcpy_pointwise (object + s) 0 (source.start + w) n _ source.bytes m (λ i lt.
              let first : 0 + i ≡ i = omega arith in
              ap (byte_of (ordered e n (value_at n source.bytes (source.start + w)))) first
              ∙ ap (λ v. byte_of v i) (native_value n (value_at n source.bytes (source.start + w)))
              ∙ byte_of-object_bytes n source.bytes (source.start + w) i is_memory lt))
      read_fields-read_bytes (container count item) object s w m laid =
          let ranges : ℕ → List ByteRange =
            λ j. enumerate_object item (s + struct_size item * j) (w + struct_size item * j) in
          read_container (λ j x. read_fields e item (object + s + struct_size item * j) x)
            (λ j m'. read_bytes (ranges j) object source m') (raw_size item) count
            (subspan w source) m
            (λ j m' lt.
              let stride : w + raw_size item * j ≡ w + struct_size item * j =
                ap (λ k. w + k * j) laid.1 in
              let span =
                subspan-subspan w (raw_size item * j) (w + struct_size item * j) source stride in
              ap₂ (λ a t. read_fields e item a (m', t)) (further object s (struct_size item * j))
                span
              ∙ read_fields-read_bytes item object (s + struct_size item * j)
                  (w + struct_size item * j) m' laid.0
              ∙ ap (λ t. (read_bytes (ranges j) object source m', subspan (raw_size item) t))
                  (sym span))
          ∙ ap (λ x. (x, subspan (count * raw_size item) (subspan w source)))
              (sym (read_bytes-enumerate_items count 0 ranges object source m))
      read_fields-read_bytes (aggregate safe size members) object s w m laid =
          read_members-read_bytes members size object s w m laid

      read_members-read_bytes :
          (members : Members) (size object s w : ℕ) (m : ℕ → ℕ)
          → AreLaid size members
          → read_members e members (object + s) (m, subspan w source) ≡ (
            read_bytes (enumerate_members members s w) object source m,
            subspan (raw_size_members members) (subspan w source),
          )
      read_members-read_bytes end size object s w m laid =
          ap (λ t. (m, t)) (sym (subspan-zero 0 (subspan w source) refl))
      read_members-read_bytes (member true offset kind members) size object s w m laid =
          after_member members (raw_size kind) w (raw_size_members members) (object + s) m _
            (read_members-read_bytes members size object s (w + raw_size kind) m laid.1.1)
      read_members-read_bytes (member false offset kind members) size object s w m laid =
          let here = enumerate_object kind (s + offset) w in
          let m' = read_bytes here object source m in
          ap (λ a. read_members e members (object + s) (read_fields e kind a (m, subspan w source)))
            (further object s offset)
          ∙ ap (λ x. read_members e members (object + s) x)
              (read_fields-read_bytes kind object (s + offset) w m laid.0)
          ∙ after_member members (raw_size kind) w (raw_size_members members) (object + s) m' _
              (read_members-read_bytes members size object s (w + raw_size kind) m' laid.1.1)
          ∙ ap (λ x. (x, subspan (raw_size kind + raw_size_members members) (subspan w source)))
              (sym (
                read_bytes-append here (enumerate_members members s (w + raw_size kind)) object
                  source m))
