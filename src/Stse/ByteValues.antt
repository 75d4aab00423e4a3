-- ===== src/Stse/ByteValues.antt =====
-- include/stse/detail/serialize.hpp: what is written field by field are bytes.
use itch_order_book.Common.{ℕ, zero, suc, ◌+◌, ◌*◌, ◌/◌, ◌<◌, arith, true, false}
use itch_order_book.Stse.{
  Kind, scalar, container, aggregate, Members, end, member, raw_size, struct_size, Span, subspan,
  constexpr_memcpy,
}
use itch_order_book.Stse.Fields.{
  EndianType, ordered, value_at, byte_of, for_items, serialize_scalar, write_fields, write_members,
}
use itch_order_book.Stse.Bytes.{IsMemory}

byte_of-lt : (value i : ℕ) → byte_of value i < 256
unfolding byte_of
byte_of-lt value zero = omega arith
byte_of-lt value (suc i) = byte_of-lt (value / 256) i

memcpy-IsMemory :
    (to from n : ℕ) (source destination : ℕ → ℕ)
    → IsMemory source
    → IsMemory destination
    → IsMemory (constexpr_memcpy to from n source destination)
unfolding constexpr_memcpy
memcpy-IsMemory to from zero source destination h k = k
memcpy-IsMemory to from (suc n) source destination h k = λ a.
    let rest = memcpy-IsMemory to from n source destination h k in
    ground (arith, rest a, h (from + n))

for_items-keeps {ℓ κ} :
    {A : Type ℓ} (P : A → Type κ) (f : ℕ → A → A) (n i : ℕ) (a : A)
    → ((j : ℕ) (b : A) → P b → P (f j b))
    → P a
    → P (for_items n i f a)
unfolding for_items
for_items-keeps P f zero i a each h = h
for_items-keeps P f (suc n) i a each h = for_items-keeps P f n (i + 1) (f i a) each (each i a h)

-- what is written is bytes
mutual
  unfolding write_fields serialize_scalar

  pub write_fields-IsMemory :
      (e : EndianType) (kind : Kind) (object : ℕ) (memory : ℕ → ℕ) (d : Span)
      → IsMemory d.bytes
      → IsMemory (write_fields e kind object memory d).bytes
  write_fields-IsMemory e (scalar k n) object memory d h =
      memcpy-IsMemory d.start 0 n _ d.bytes (byte_of-lt (ordered e n (value_at n memory object))) h
  write_fields-IsMemory e (container count item) object memory d h =
      for_items-keeps (λ (d' : Span). IsMemory d'.bytes) _ count 0 d
        (λ j d' k. write_fields-IsMemory e item (object + struct_size item * j) memory d' k) h
  write_fields-IsMemory e (aggregate safe size members) object memory d h =
      write_members-IsMemory e members object memory d h

  write_members-IsMemory :
      (e : EndianType) (members : Members) (object : ℕ) (memory : ℕ → ℕ) (d : Span)
      → IsMemory d.bytes
      → IsMemory (write_members e members object memory d).bytes
  write_members-IsMemory e end object memory d h = h
  write_members-IsMemory e (member true offset kind members) object memory d h =
      write_members-IsMemory e members object memory (subspan (raw_size kind) d) h
  write_members-IsMemory e (member false offset kind members) object memory d h =
      write_members-IsMemory e members object memory _
        (write_fields-IsMemory e kind (object + offset) memory d h)
