-- ===== src/Stse/Native.antt =====
-- include/stse/detail/serialize.hpp, deserialize.hpp: in the host's byte order the flat copies are
-- those of the fields, and whatever its routes, `serialize` writes field by field.
use itch_order_book.Common.{
  ℕ, zero, suc, ◌+◌, ◌*◌, ◌≡◌, refl, sym, ap, ap₂, ◌∙◌, arith, Bool, true, false, if◌then◌else◌,
}
use itch_order_book.Stse.{
  Kind, scalar, container, aggregate, Members, end, member, raw_size, struct_size, enumerate_object,
  Span, subspan, read_bytes, serialize_flat, deserialize_flat,
}
use itch_order_book.Stse.Laid.{IsLaid, AreLaid}
use itch_order_book.Stse.Compress.{compress_layout-copies}
use itch_order_book.Stse.Fields.{
  EndianType, is_native, for_items, write_fields, write_members, read_fields,
}
use itch_order_book.Stse.Routes.{is_bit_cast_safe, serialize_fields, serialize_members, serialize}
use itch_order_book.Stse.Bytes.{IsMemory}
use itch_order_book.Stse.Written.{write_fields-Encodes}
use itch_order_book.Stse.RoundTrip.{subspan-zero}
use itch_order_book.Stse.FlatReads.{read_fields-read_bytes}
use itch_order_book.Stse.FlatWrites.{write_fields-write_bytes}

-- two spans with the same fields
pub same_span : (s t : Span) → s.bytes ≡ t.bytes → s.start ≡ t.start → s.size ≡ t.size → s ≡ t
same_span s t a b c = λ i. record { bytes = a i; start = b i; size = c i }

pub plus_zero : (a : ℕ) → a + 0 ≡ a
plus_zero a = omega arith

serialize_flat-fields :
    (e : EndianType) (kind : Kind) (object : ℕ) (memory : ℕ → ℕ) (d : Span)
    → is_native e ≡ true
    → IsLaid kind
    → IsMemory memory
    → serialize_flat kind object memory d ≡ write_fields e kind object memory d
unfolding serialize_flat
serialize_flat-fields e kind object memory d host laid is_memory =
    let (adv, _) = write_fields-Encodes e memory is_memory kind object d in
    same_span (serialize_flat kind object memory d) (write_fields e kind object memory d)
      ((compress_layout-copies kind object memory d).2
        ∙ write_fields-write_bytes e host memory is_memory object d.start kind 0 0 d laid
            (sym (plus_zero d.start))
        ∙ ap (λ a. (write_fields e kind a memory d).bytes) (plus_zero object))
      (sym adv.start) (sym adv.size)

pub deserialize_flat-fields :
    (e : EndianType) (kind : Kind) (object : ℕ) (memory : ℕ → ℕ) (source : Span)
    → is_native e ≡ true
    → IsLaid kind
    → IsMemory source.bytes
    → deserialize_flat false kind object source memory ≡ read_fields e kind object (memory, source)
unfolding deserialize_flat
deserialize_flat-fields e kind object memory source host laid is_memory =
    ap (λ m. (m, subspan (raw_size kind) source))
      ((compress_layout-copies kind object memory source).0)
    ∙ ap
        (λ t.
          (read_bytes (enumerate_object kind 0 0) object source memory, subspan (raw_size kind) t))
        (sym (subspan-zero 0 source refl))
    ∙ sym (read_fields-read_bytes e host source is_memory kind object 0 0 memory laid)
    ∙ ap₂ (λ a t. read_fields e kind a (memory, t)) (plus_zero object) (subspan-zero 0 source refl)

-- whichever branch is taken, where both have one result
pub chosen {ℓ} :
    {A : Type ℓ} (host consteval safe : Bool) (flat fields result : A)
    → (host ≡ true → flat ≡ result)
    → fields ≡ result
    → (if host then (if consteval then (if safe then flat else fields) else flat) else fields)
      ≡ result
chosen true true true flat fields result h k = h refl
chosen true true false flat fields result h k = k
chosen true false safe flat fields result h k = h refl
chosen false consteval safe flat fields result h k = k

pub for_items-pointwise {ℓ} :
    {A : Type ℓ} (n i : ℕ) (f g : ℕ → A → A) (a : A)
    → ((j : ℕ) (b : A) → f j b ≡ g j b)
    → for_items n i f a ≡ for_items n i g a
unfolding for_items
for_items-pointwise zero i f g a each = refl
for_items-pointwise (suc n) i f g a each =
    ap (λ b. for_items n (i + 1) f b) (each i a) ∙ for_items-pointwise n (i + 1) f g (g i a) each

module _ (consteval : Bool) (e : EndianType) (memory : ℕ → ℕ) (is_memory : IsMemory memory) where
  mutual
    unfolding serialize_fields write_fields

    serialize_fields-write_fields :
        (kind : Kind) (object : ℕ) (d : Span)
        → IsLaid kind
        → serialize_fields consteval e kind object memory d ≡ write_fields e kind object memory d
    serialize_fields-write_fields (scalar k n) object d laid = refl
    serialize_fields-write_fields (container count item) object d laid =
        for_items-pointwise count 0 _ _ d (λ j d'.
          let at = object + struct_size item * j in
          chosen (is_native e) consteval (is_bit_cast_safe item) _ _ _
            (λ host. serialize_flat-fields e item at memory d' host laid.0 is_memory)
            (serialize_fields-write_fields item at d' laid.0))
    serialize_fields-write_fields (aggregate safe size members) object d laid =
        serialize_members-write_members members size object d laid

    serialize_members-write_members :
        (members : Members) (size object : ℕ) (d : Span)
        → AreLaid size members
        → serialize_members consteval e members object memory d
          ≡ write_members e members object memory d
    serialize_members-write_members end size object d laid = refl
    serialize_members-write_members (member true offset kind members) size object d laid =
        serialize_members-write_members members size object (subspan (raw_size kind) d) laid.1.1
    serialize_members-write_members (member false offset kind members) size object d laid =
        ap (λ d'. serialize_members consteval e members object memory d')
          (chosen (is_native e) consteval (is_bit_cast_safe kind) _ _ _
            (λ host. serialize_flat-fields e kind (object + offset) memory d host laid.0 is_memory)
            (serialize_fields-write_fields kind (object + offset) d laid.0))
        ∙ serialize_members-write_members members size object
            (write_fields e kind (object + offset) memory d) laid.1.1

  -- For a type whose members lie in their objects and whose containers have items without padding,
  -- `serialize` writes the object field by field, in every byte order, at compile time and at run
  -- time, whichever routes it takes for the object, its members and their items.
  pub serialize-write_fields :
      (kind : Kind) (object : ℕ) (d : Span)
      → IsLaid kind
      → serialize consteval e kind object memory d ≡ write_fields e kind object memory d
  unfolding serialize
  serialize-write_fields kind object d laid =
      chosen (is_native e) consteval (is_bit_cast_safe kind) _ _ _
        (λ host. serialize_flat-fields e kind object memory d host laid is_memory)
        (serialize_fields-write_fields kind object d laid)
