-- ===== src/Stse.antt =====
-- include/stse/detail/layout.hpp, memory.hpp: the byte ranges of a type in memory and in its serial
-- form, and the copies by them. A type that is reflected on is described by a Kind: members marked
-- stse::skip are left out of it, and `sizeof` and the offsets of members are the compiler's.
pub mod Compress
pub mod Laid
pub mod Fields
pub mod Routes
pub mod Bytes
pub mod Encodes
pub mod Written
pub mod ByteValues
pub mod RoundTrip
pub mod FlatReads
pub mod FlatWrites
pub mod Native
pub mod Reads
pub mod Api
pub mod Calls
pub mod Reflect
pub mod Serializable
pub mod ClassMembers
mod ReflectTests
mod Tests
use itch_order_book.Common.{
  ℕ, zero, suc, ◌+◌, ◌-◌, ◌*◌, Bool, true, false, List, [], ◌∷◌, ◌++◌, ◌==◌, if◌then◌else◌, ◌&&◌,
  update,
}

-- the scalar types, as the traits of <type_traits> tell them apart
pub data ScalarKind : Type 0 where
  integral floating_point enumeration pointer member_pointer null_pointer : ScalarKind

-- a Scalar of some bytes; a StaticContainer of some items; an Aggregate with whether it is
-- BitCastSafe, its `sizeof` and its members, each with its mark stse::ignore, its offset and its
-- type
mutual
  pub data Kind : Type 0 where
    scalar : ScalarKind → ℕ → Kind
    container : ℕ → Kind → Kind
    aggregate : Bool → ℕ → Members → Kind

  pub data Members : Type 0 where
    end : Members
    member : Bool → ℕ → Kind → Members → Members

-- `sizeof`
unfoldable pub struct_size : Kind → ℕ
struct_size (scalar k n) = n
struct_size (container count item) = count * struct_size item
struct_size (aggregate safe size members) = size

-- `size_of`, `raw_size`
unfoldable mutual
  pub raw_size : Kind → ℕ
  raw_size (scalar k n) = n
  raw_size (container count item) = count * raw_size item
  raw_size (aggregate safe size members) = raw_size_members members

  pub raw_size_members : Members → ℕ
  raw_size_members end = 0
  raw_size_members (member ignored offset kind members) = raw_size kind + raw_size_members members

pub record ByteRange : Type 0 where
  pub struct_offset : ℕ
  pub wire_offset : ℕ
  pub count : ℕ

-- the ranges of the items `i`, `i + 1`, ... of a container
unfoldable pub enumerate_items : ℕ → ℕ → (ℕ → List ByteRange) → List ByteRange
enumerate_items zero i item_ranges = []
enumerate_items (suc n) i item_ranges = item_ranges i ++ enumerate_items n (i + 1) item_ranges

-- `enumerate_object`; both strides of a container are the `sizeof` of its items
unfoldable mutual
  pub enumerate_object : Kind → ℕ → ℕ → List ByteRange
  enumerate_object (scalar k n) struct_offset wire_offset =
      record { struct_offset = struct_offset; wire_offset = wire_offset; count = n } ∷ []
  enumerate_object (container count item) struct_offset wire_offset = enumerate_items count 0 (λ i.
      enumerate_object item (struct_offset + struct_size item * i)
        (wire_offset + struct_size item * i))
  enumerate_object (aggregate safe size members) struct_offset wire_offset =
      enumerate_members members struct_offset wire_offset

  pub enumerate_members : Members → ℕ → ℕ → List ByteRange
  enumerate_members end struct_offset current_wire = []
  enumerate_members (member ignored offset kind members) struct_offset current_wire =
      let rest = enumerate_members members struct_offset (current_wire + raw_size kind) in
      let this = enumerate_object kind (struct_offset + offset) current_wire in
      if ignored then rest else this ++ rest

-- the ranges of `compress_layout` from `compressed.back()` on
unfoldable pub compress_from : ByteRange → List ByteRange → List ByteRange
compress_from back [] = back ∷ []
compress_from back (r ∷ raw_sequence) =
    let joined = compress_from (record back { count = back.count + r.count }) raw_sequence in
    let apart = compress_from r raw_sequence in
    if (r.struct_offset == back.struct_offset + back.count)
      && (r.wire_offset == back.wire_offset + back.count)
    then joined
    else back ∷ apart

unfoldable pub compress_layout : List ByteRange → List ByteRange
compress_layout [] = []
compress_layout (r ∷ raw_sequence) = compress_from r raw_sequence

-- `build_sequence`, `byte_layout_of`
unfoldable pub build_sequence : Kind → List ByteRange
build_sequence kind = compress_layout (enumerate_object kind 0 0)

-- `constexpr_memcpy` from an offset of one memory to an offset of another
unfoldable pub constexpr_memcpy : ℕ → ℕ → ℕ → (ℕ → ℕ) → (ℕ → ℕ) → ℕ → ℕ
constexpr_memcpy to from zero source destination = destination
constexpr_memcpy to from (suc n) source destination =
    update (constexpr_memcpy to from n source destination) (to + n) (source (from + n))

-- a span of bytes: the memory that it is in, where it starts there, and its size
pub record Span : Type 0 where
  pub bytes : ℕ → ℕ
  pub start : ℕ
  pub size : ℕ

abbrev pub subspan : ℕ → Span → Span
subspan n s = record s { start = s.start + n; size = s.size - n }

-- the loop of `deserialize_flat` into the object at an address of a memory, and that of
-- `serialize_flat` from it
unfoldable pub read_bytes : List ByteRange → ℕ → Span → (ℕ → ℕ) → ℕ → ℕ
read_bytes [] object source memory = memory
read_bytes (r ∷ ranges) object source memory = read_bytes ranges object source (
    constexpr_memcpy (object + r.struct_offset) (source.start + r.wire_offset) r.count source.bytes
      memory)

unfoldable pub write_bytes : List ByteRange → ℕ → (ℕ → ℕ) → ℕ → (ℕ → ℕ) → ℕ → ℕ
write_bytes [] object memory start bytes = bytes
write_bytes (r ∷ ranges) object memory start bytes =
    write_bytes ranges object memory start
      (constexpr_memcpy (start + r.wire_offset) (object + r.struct_offset) r.count memory bytes)

-- the memory with the object, and the rest of the source: at compile time the whole object is
-- replaced by an array whose bytes are zero at first, and at run time it is written in place
unfoldable pub deserialize_flat : Bool → Kind → ℕ → Span → (ℕ → ℕ) → (ℕ → ℕ) × Span
deserialize_flat consteval kind object source memory =
    let raw_bytes = read_bytes (build_sequence kind) 0 source (λ a. 0) in
    (
      if consteval
          then constexpr_memcpy object 0 (struct_size kind) raw_bytes memory
          else read_bytes (build_sequence kind) object source memory,
      subspan (raw_size kind) source,
    )

-- the rest of the destination
unfoldable pub serialize_flat : Kind → ℕ → (ℕ → ℕ) → Span → Span
serialize_flat kind object memory destination = subspan (raw_size kind) (record destination {
  bytes = write_bytes (build_sequence kind) object memory destination.start destination.bytes;
})
