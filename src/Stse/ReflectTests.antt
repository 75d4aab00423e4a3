-- ===== src/Stse/ReflectTests.antt =====
-- include/stse/: the questions on types and the calls, at messages and at small classes.
use itch_order_book.Common.{ℕ, ◌≡◌, refl, arith, true, false, some, List, [], ◌∷◌}
use itch_order_book.Messages.Layouts.{
  struct, char_type, header_view_type, add_order_type, order_delete_type,
}
use itch_order_book.Stse.{pointer, raw_size, struct_size, Span}
use itch_order_book.Stse.Laid.{IsLaid}
use itch_order_book.Stse.Fields.{native_endian, write_fields}
use itch_order_book.Stse.Bytes.{IsMemory}
use itch_order_book.Stse.Routes.{serialize}
use itch_order_book.Stse.Native.{serialize-write_fields}
use itch_order_book.Stse.Calls.{Transfer}
use itch_order_book.Stse.Reflect.{
  skipserialization, has_annotation, Reflected, scalar_type, no_members, data_member,
  not_serializable, is_serializable, is_trivially_copyable, has_pointer_member, kind_of,
}
use itch_order_book.Stse.Serializable.{
  IsPlain, is_serializable-IsPlain, is_serializable-has_pointer_member,
}

is_serializable-IsPlain_example : IsPlain (kind_of header_view_type)
unfolding header_view_type is_serializable not_serializable has_annotation is_trivially_copyable
is_serializable-IsPlain_example = is_serializable-IsPlain header_view_type refl

is_serializable-has_pointer_member_example : has_pointer_member order_delete_type ≡ some false
unfolding order_delete_type is_serializable not_serializable has_annotation is_trivially_copyable
is_serializable-has_pointer_member_example =
    is_serializable-has_pointer_member order_delete_type refl
      (tt, (refl, refl, (tt, (refl, refl, tt, tt)), tt))

-- a class with a pointer that is skipped is serializable, and not BitCastSafe
abbrev handle : Reflected
handle = struct 16 (
    data_member [] 0 char_type
      (data_member (skipserialization ∷ []) 8 (scalar_type pointer 8) no_members))

handle-is_serializable : is_serializable handle ≡ true
unfolding is_serializable not_serializable has_annotation
handle-is_serializable = refl

handle_has_pointer : has_pointer_member handle ≡ some true
unfolding has_pointer_member not_serializable
handle_has_pointer = refl

add_order-IsLaid : IsLaid (kind_of add_order_type)
unfolding add_order_type kind_of struct_size raw_size has_annotation
add_order-IsLaid = (
  (tt, (omega arith, tt)),
  (
    omega arith,
    (
      tt,
      (
        omega arith,
        (
          (tt, (omega arith, tt)),
          (omega arith, ((tt, refl), (omega arith, ((tt, (omega arith, tt)), (omega arith, tt))))),
        ),
      ),
    ),
  ),
)

abbrev sevens : ℕ → ℕ
sevens a = 7

sevens-IsMemory : IsMemory sevens
sevens-IsMemory a = omega arith

abbrev buffer : Span
buffer = record { bytes = sevens; start = 3; size = 40 }

serialize-write_fields_example :
    serialize true native_endian (kind_of add_order_type) 0 sevens buffer
    ≡ write_fields native_endian (kind_of add_order_type) 0 sevens buffer
serialize-write_fields_example =
    serialize-write_fields true native_endian sevens sevens-IsMemory (kind_of add_order_type) 0
      buffer add_order-IsLaid

-- an add message and a delete message, serialized one after the other
abbrev two_messages : List Transfer
two_messages =
    record { kind = kind_of add_order_type; from = 0; to = 64 }
    ∷ record { kind = kind_of order_delete_type; from = 32; to = 128 }
    ∷ []
