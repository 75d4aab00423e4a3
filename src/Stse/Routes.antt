-- ===== src/Stse/Routes.antt =====
-- include/stse/detail/serialize.hpp, deserialize.hpp, concepts.hpp: `serialize` and `deserialize`,
-- which choose between the flat copies and the fields, and choose again for every item and member.
-- `consteval` tells whether the call is evaluated at compile time.
use itch_order_book.Common.{ℕ, ◌+◌, ◌*◌, Bool, true, false, if◌then◌else◌}
use itch_order_book.Stse.{
  Kind, scalar, container, aggregate, Members, end, member, raw_size, struct_size, Span, subspan,
  serialize_flat, deserialize_flat,
}
use itch_order_book.Stse.Fields.{
  EndianType, is_native, for_items, serialize_scalar, deserialize_scalar,
}
use itch_order_book.Stse.Reflect.{is_pointer}

-- the concept BitCastSafe
unfoldable pub is_bit_cast_safe : Kind → Bool
is_bit_cast_safe (scalar k n) = if is_pointer k then false else true
is_bit_cast_safe (container count item) = is_bit_cast_safe item
is_bit_cast_safe (aggregate safe size members) = safe

-- the branches of `serialize` and of `deserialize`
abbrev pub route {ℓ} : {A : Type ℓ} → Bool → EndianType → Kind → A → A → A
route consteval e kind flat fields =
    if is_native e
    then (if consteval then (if is_bit_cast_safe kind then flat else fields) else flat)
    else fields

-- `serialize_fields`, `serialize_static_container` and `serialize_aggregate`; the body of
-- `serialize` stands where they call it
unfoldable mutual
  pub serialize_fields : Bool → EndianType → Kind → ℕ → (ℕ → ℕ) → Span → Span
  serialize_fields consteval e (scalar k n) object source destination =
      serialize_scalar e n object source destination
  serialize_fields consteval e (container count item) object source destination =
      for_items count 0
        (λ i d.
          let at = object + struct_size item * i in
          route consteval e item (serialize_flat item at source d)
            (serialize_fields consteval e item at source d))
        destination
  serialize_fields consteval e (aggregate safe size members) object source destination =
      serialize_members consteval e members object source destination

  pub serialize_members : Bool → EndianType → Members → ℕ → (ℕ → ℕ) → Span → Span
  serialize_members consteval e end object source destination = destination
  serialize_members consteval e (member ignored offset kind members) object source destination =
      let flat = serialize_flat kind (object + offset) source destination in
      let fields = serialize_fields consteval e kind (object + offset) source destination in
      serialize_members consteval e members object source (
        if ignored then subspan (raw_size kind) destination else route consteval e kind flat fields)

unfoldable pub serialize : Bool → EndianType → Kind → ℕ → (ℕ → ℕ) → Span → Span
serialize consteval e kind object source destination =
    route consteval e kind (serialize_flat kind object source destination)
      (serialize_fields consteval e kind object source destination)

-- `deserialize_fields`, `deserialize_static_container` and `deserialize_aggregate`, likewise
unfoldable mutual
  pub deserialize_fields : Bool → EndianType → Kind → ℕ → (ℕ → ℕ) × Span → (ℕ → ℕ) × Span
  deserialize_fields consteval e (scalar k n) object s = deserialize_scalar e n object s
  deserialize_fields consteval e (container count item) object s =
      for_items count 0
        (λ i s'.
          let at = object + struct_size item * i in
          route consteval e item (deserialize_flat consteval item at s'.1 s'.0)
            (deserialize_fields consteval e item at s'))
        s
  deserialize_fields consteval e (aggregate safe size members) object s =
      deserialize_members consteval e members object s

  pub deserialize_members : Bool → EndianType → Members → ℕ → (ℕ → ℕ) × Span → (ℕ → ℕ) × Span
  deserialize_members consteval e end object s = s
  deserialize_members consteval e (member ignored offset kind members) object s =
      let flat = deserialize_flat consteval kind (object + offset) s.1 s.0 in
      let fields = deserialize_fields consteval e kind (object + offset) s in
      deserialize_members consteval e members object
        (if ignored then (s.0, subspan (raw_size kind) s.1) else route consteval e kind flat fields)

unfoldable pub deserialize : Bool → EndianType → Kind → ℕ → (ℕ → ℕ) × Span → (ℕ → ℕ) × Span
deserialize consteval e kind object (destination, source) =
    route consteval e kind (deserialize_flat consteval kind object source destination)
      (deserialize_fields consteval e kind object (destination, source))
