-- ===== src/Stse/Fields.antt =====
-- include/stse/detail/serialize.hpp, deserialize.hpp, types.hpp: scalars in any byte order, and an
-- object written or read field by field, which the routes are compared with. An object is the bytes
-- at an address of a memory. The host is little endian.
use itch_order_book.Common.{
  ℕ, zero, suc, ◌+◌, ◌*◌, ◌/◌, ◌%◌, Bool, true, false, List, [], ◌∷◌, if◌then◌else◌,
}
use itch_order_book.Messages.Decode.{raw_value, byteswap}
use itch_order_book.Stse.{
  Kind, scalar, container, aggregate, Members, end, member, raw_size, struct_size, Span, subspan,
  constexpr_memcpy,
}

-- std::endian, and the order that each of `BigEndian`, `LittleEndian` and `NativeEndian` has
pub data Endian : Type 0 where
  little big : Endian

pub data EndianType : Type 0 where
  big_endian little_endian native_endian : EndianType

abbrev pub native : Endian
native = little

abbrev pub endian : EndianType → Endian
endian big_endian = big
endian little_endian = little
endian native_endian = native

abbrev pub is_native : EndianType → Bool
is_native e = elim (endian e) [ little ↦ true | big ↦ false ]

-- the bytes of an object of `n` bytes, and `std::bit_cast` from a value to bytes
unfoldable pub object_bytes : ℕ → (ℕ → ℕ) → ℕ → List ℕ
object_bytes zero memory address = []
object_bytes (suc n) memory address = memory address ∷ object_bytes n memory (address + 1)

unfoldable pub byte_of : ℕ → ℕ → ℕ
byte_of value zero = value % 256
byte_of value (suc i) = byte_of (value / 256) i

-- the value of a scalar, with its bytes swapped unless the order is the host's: `std::byteswap` on
-- the integer itself, or on the unsigned integer of its size
abbrev pub ordered : EndianType → ℕ → ℕ → ℕ
ordered e n value = if is_native e then value else byteswap n value

abbrev pub value_at : ℕ → (ℕ → ℕ) → ℕ → ℕ
value_at n memory address = raw_value (object_bytes n memory address)

unfoldable pub serialize_scalar : EndianType → ℕ → ℕ → (ℕ → ℕ) → Span → Span
serialize_scalar e n object source destination =
    let bytes = byte_of (ordered e n (value_at n source object)) in
    subspan n (record destination {
      bytes = constexpr_memcpy destination.start 0 n bytes destination.bytes;
    })

-- the fold over the items of a container
unfoldable pub for_items {ℓ} : {A : Type ℓ} → ℕ → ℕ → (ℕ → A → A) → A → A
for_items zero i f a = a
for_items (suc n) i f a = for_items n (i + 1) f (f i a)

-- an object written field by field, each scalar in the order that is asked for
unfoldable mutual
  pub write_fields : EndianType → Kind → ℕ → (ℕ → ℕ) → Span → Span
  write_fields e (scalar k n) object source destination =
      serialize_scalar e n object source destination
  write_fields e (container count item) object source destination =
      for_items count 0 (λ i d. write_fields e item (object + struct_size item * i) source d)
        destination
  write_fields e (aggregate safe size members) object source destination =
      write_members e members object source destination

  pub write_members : EndianType → Members → ℕ → (ℕ → ℕ) → Span → Span
  write_members e end object source destination = destination
  write_members e (member ignored offset kind members) object source destination =
      write_members e members object source (
        if ignored
        then subspan (raw_size kind) destination
        else write_fields e kind (object + offset) source destination)

-- the memory with the scalar, and the rest of the source
unfoldable pub deserialize_scalar : EndianType → ℕ → ℕ → (ℕ → ℕ) × Span → (ℕ → ℕ) × Span
deserialize_scalar e n object (destination, source) =
    let buffer = value_at n source.bytes source.start in
    (constexpr_memcpy object 0 n (byte_of (ordered e n buffer)) destination, subspan n source)

-- an object read field by field
unfoldable mutual
  pub read_fields : EndianType → Kind → ℕ → (ℕ → ℕ) × Span → (ℕ → ℕ) × Span
  read_fields e (scalar k n) object s = deserialize_scalar e n object s
  read_fields e (container count item) object s =
      for_items count 0 (λ i s'. read_fields e item (object + struct_size item * i) s') s
  read_fields e (aggregate safe size members) object s = read_members e members object s

  pub read_members : EndianType → Members → ℕ → (ℕ → ℕ) × Span → (ℕ → ℕ) × Span
  read_members e end object s = s
  read_members e (member ignored offset kind members) object s = read_members e members object (
      if ignored
      then (s.0, subspan (raw_size kind) s.1)
      else read_fields e kind (object + offset) s)
