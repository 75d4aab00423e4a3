-- ===== src/Stse/Reads.antt =====
-- include/stse/detail/deserialize.hpp: whatever its routes, what `deserialize` reads, field by
-- field.
use itch_order_book.Common.{
  ℕ, ◌+◌, ◌*◌, ◌≡◌, ◌⊎◌, inl, inr, refl, ap, ap₂, ◌∙◌, Bool, true, false, Bool-cases, if◌then◌else◌,
  ◌&&◌,
}
use itch_order_book.Stse.{
  Kind, scalar, container, aggregate, Members, end, member, raw_size, struct_size, Span, subspan,
  constexpr_memcpy, deserialize_flat,
}
use itch_order_book.Stse.Laid.{IsLaid}
use itch_order_book.Stse.Fields.{EndianType, is_native, read_fields, read_members}
use itch_order_book.Stse.Routes.{
  is_bit_cast_safe, deserialize_fields, deserialize_members, deserialize,
}
use itch_order_book.Stse.Bytes.{IsMemory}
use itch_order_book.Stse.Encodes.{Encodes}
use itch_order_book.Stse.RoundTrip.{copy_fields, read_fields-copy}
use itch_order_book.Stse.Native.{chosen, for_items-pointwise, deserialize_flat-fields}

-- in another order than the host's, the fields route is the only one
module _ (consteval : Bool) (e : EndianType) (foreign : is_native e ≡ false) where
  mutual
    unfolding deserialize_fields read_fields

    deserialize_fields-read_fields :
        (kind : Kind) (object : ℕ) (s : (ℕ → ℕ) × Span)
        → deserialize_fields consteval e kind object s ≡ read_fields e kind object s
    deserialize_fields-read_fields (scalar k n) object s = refl
    deserialize_fields-read_fields (container count item) object s =
        for_items-pointwise count 0 _ _ s (λ j s'.
          chosen (is_native e) consteval (is_bit_cast_safe item) _ _ _
            (λ host. absurd (cc (foreign, host)))
            (deserialize_fields-read_fields item (object + struct_size item * j) s'))
    deserialize_fields-read_fields (aggregate safe size members) object s =
        deserialize_members-read_members members object s

    deserialize_members-read_members :
        (members : Members) (object : ℕ) (s : (ℕ → ℕ) × Span)
        → deserialize_members consteval e members object s ≡ read_members e members object s
    deserialize_members-read_members end object s = refl
    deserialize_members-read_members (member true offset kind members) object s =
        deserialize_members-read_members members object (s.0, subspan (raw_size kind) s.1)
    deserialize_members-read_members (member false offset kind members) object s =
        ap (λ s'. deserialize_members consteval e members object s')
          (chosen (is_native e) consteval (is_bit_cast_safe kind) _ _ _
            (λ host. absurd (cc (foreign, host)))
            (deserialize_fields-read_fields kind (object + offset) s))
        ∙ deserialize_members-read_members members object (read_fields e kind (object + offset) s)

-- a call at run time, or in another order than the host's: no object is replaced as a whole
abbrev pub IsInPlace : Bool → EndianType → Type 0
IsInPlace consteval e = (consteval ≡ false) ⊎ (is_native e ≡ false)

deserialize-read_fields :
    (consteval : Bool) (e : EndianType) (kind : Kind) (object : ℕ) (memory : ℕ → ℕ) (s : Span)
    → IsInPlace consteval e
    → IsLaid kind
    → IsMemory s.bytes
    → deserialize consteval e kind object (memory, s) ≡ read_fields e kind object (memory, s)
unfolding deserialize
deserialize-read_fields consteval e kind object memory s (inl run_time) laid is_memory =
    rw run_time (elim (Bool-cases (is_native e)) [
      | inl host ↦ rw host (deserialize_flat-fields e kind object memory s host laid is_memory)
      | inr foreign ↦
          rw foreign (deserialize_fields-read_fields false e foreign kind object (memory, s))
    ])
deserialize-read_fields consteval e kind object memory s (inr foreign) laid is_memory =
    rw foreign (deserialize_fields-read_fields consteval e foreign kind object (memory, s))

-- the memory after a change to an object, which is written in place, or made in an object of zeros
-- that replaces the whole object
abbrev pub replacing : Bool → Kind → (ℕ → (ℕ → ℕ) → ℕ → ℕ) → ℕ → (ℕ → ℕ) → ℕ → ℕ
replacing whole kind change object memory =
    if whole
    then constexpr_memcpy object 0 (struct_size kind) (change 0 (λ a. 0)) memory
    else change object memory

-- whether the objects are replaced: at compile time, in the host's order
abbrev pub is_whole : Bool → EndianType → Bool
is_whole consteval e = consteval && is_native e

-- For a type whose members lie in their objects and whose containers have items without padding:
-- `deserialize` reads the object field by field, at run time and in another order than the host's
-- in place; at compile time, in the host's order and for a type that is BitCastSafe, into an object
-- of zeros that replaces the whole object, so that what is not read becomes zero. The rest of the
-- source is what the fields leave.
pub deserialize-replacing :
    (consteval : Bool) (e : EndianType) (kind : Kind) (object : ℕ) (memory : ℕ → ℕ) (s : Span)
    → IsInPlace consteval e ⊎ (is_bit_cast_safe kind ≡ true)
    → IsLaid kind
    → IsMemory s.bytes
    → deserialize consteval e kind object (memory, s) ≡ (
      replacing
          (is_whole consteval e)
          kind
          (λ to m. (read_fields e kind to (m, s)).0)
          object
          memory,
      (read_fields e kind object (memory, s)).1,
    )
unfolding deserialize deserialize_flat
deserialize-replacing consteval e kind object memory s (inl (inl run_time)) laid is_memory =
    deserialize-read_fields consteval e kind object memory s (inl run_time) laid is_memory
    ∙ rw run_time refl
deserialize-replacing consteval e kind object memory s (inl (inr foreign)) laid is_memory =
    deserialize-read_fields consteval e kind object memory s (inr foreign) laid is_memory
    ∙ elim (Bool-cases consteval) [ inl c ↦ rw (c, foreign) refl | inr c ↦ rw c refl ]
deserialize-replacing consteval e kind object memory s (inr safe) laid is_memory =
    elim (Bool-cases consteval) [
      | inr c ↦
          deserialize-read_fields consteval e kind object memory s (inl c) laid is_memory
          ∙ rw c refl
      | inl c ↦ elim (Bool-cases (is_native e)) [
        | inr f ↦
            deserialize-read_fields consteval e kind object memory s (inr f) laid is_memory
            ∙ rw (c, f) refl
        | inl host ↦
            rw (c, host, safe)
              (ap₂ (λ m rest. (constexpr_memcpy object 0 (struct_size kind) m memory, rest))
                (ap (λ x. x.0) (deserialize_flat-fields e kind 0 (λ a. 0) s host laid is_memory))
                (ap (λ x. x.1)
                  (deserialize_flat-fields e kind object memory s host laid is_memory)))
      ]
    ]

-- reading back an object that was serialized
pub deserialize-copy :
    (consteval : Bool) (e : EndianType) (kind : Kind) (from to : ℕ) (memory m : ℕ → ℕ) (s : Span)
    → IsMemory memory
    → IsInPlace consteval e ⊎ (is_bit_cast_safe kind ≡ true)
    → IsLaid kind
    → IsMemory s.bytes
    → Encodes e kind from memory s.bytes s.start
    → deserialize consteval e kind to (m, s) ≡ (
      replacing (is_whole consteval e) kind (λ at m'. copy_fields kind at from memory m') to m,
      subspan (raw_size kind) s,
    )
deserialize-copy consteval e kind from to memory m s is_memory h laid k enc =
    deserialize-replacing consteval e kind to m s h laid k
    ∙ ap₂ (λ x rest. (x, rest))
        (elim (Bool-cases (is_whole consteval e)) [
          | inl w ↦ rw w (
              ap (λ x. constexpr_memcpy to 0 (struct_size kind) x.0 m)
                (read_fields-copy e memory is_memory kind from 0 (λ a. 0) s enc))
          | inr w ↦ rw w (ap (λ x. x.0) (read_fields-copy e memory is_memory kind from to m s enc))
        ])
        (ap (λ x. x.1) (read_fields-copy e memory is_memory kind from to m s enc))
