-- ===== src/Stse/Tests.antt =====
-- include/stse/: the layouts of a message and of a small type with padding.
use itch_order_book.Common.{ℕ, ◌≡◌, inr, refl, arith, true, false, [], ◌∷◌}
use itch_order_book.Stse.{
  Kind, Span, scalar, integral, container, aggregate, end, member, struct_size, raw_size,
  build_sequence, enumerate_object, enumerate_items, compress_layout, compress_from,
  constexpr_memcpy, deserialize_flat, serialize_flat, read_bytes, write_bytes,
}
use itch_order_book.Stse.Fields.{native_endian, read_fields}
use itch_order_book.Stse.Routes.{is_bit_cast_safe, deserialize}
use itch_order_book.Stse.Reads.{replacing, deserialize-replacing}
use itch_order_book.Stse.Compress.{compress_layout-copies}
use itch_order_book.Stse.Laid.{IsLaid, AreWithin, build_sequence-AreWithin}

-- nasdaq::HeaderView: a char, a BigEndian<uint16_t> at 2, and two members that are ignored
abbrev header_view : Kind
header_view = aggregate true 12 (
    member false 0 (scalar integral 1) (
      member false 2 (aggregate true 2 (member false 0 (scalar integral 2) end)) (
        member true 4 (aggregate true 2 (member false 0 (scalar integral 2) end)) (
          member true 6 (aggregate true 6 (member false 0 (container 6 (scalar integral 1)) end))
            end))))

header_view_size : raw_size header_view ≡ 11
unfolding raw_size
header_view_size = refl

-- the two members are not adjacent in memory
header_view_sequence :
    build_sequence header_view
    ≡ record { struct_offset = 0; wire_offset = 0; count = 1 }
      ∷ record { struct_offset = 2; wire_offset = 1; count = 2 }
      ∷ []
unfolding build_sequence enumerate_object enumerate_items raw_size struct_size compress_layout
    compress_from
header_view_sequence = refl

header_view-IsLaid : IsLaid header_view
unfolding struct_size raw_size
header_view-IsLaid = (
  tt,
  (
    omega arith,
    (
      (tt, (omega arith, tt)),
      (
        omega arith,
        (
          (tt, (omega arith, tt)),
          (omega arith, (((tt, refl), (omega arith, tt)), (omega arith, tt))),
        ),
      ),
    ),
  ),
)

build_sequence-AreWithin_example :
    AreWithin 0 (struct_size header_view) 0 (raw_size header_view) (build_sequence header_view)
build_sequence-AreWithin_example = build_sequence-AreWithin header_view header_view-IsLaid

abbrev counting : ℕ → ℕ
counting a = a

abbrev form : Span
form = record { bytes = counting; start = 100; size = 11 }

compress_layout-copies_example :
    ((deserialize_flat false header_view 40 form counting).0
      ≡ read_bytes (enumerate_object header_view 0 0) 40 form counting)
    × ((deserialize_flat true header_view 40 form counting).0
        ≡ constexpr_memcpy 40 0
            (struct_size header_view)
            (read_bytes (enumerate_object header_view 0 0) 0 form (λ a. 0))
            counting)
    × ((serialize_flat header_view 40 counting form).bytes
        ≡ write_bytes (enumerate_object header_view 0 0) 40 counting 100 counting)
compress_layout-copies_example = compress_layout-copies header_view 40 counting form

abbrev sevens : ℕ → ℕ
sevens a = 7

abbrev sevens_form : Span
sevens_form = record { bytes = sevens; start = 100; size = 11 }

deserialize-replacing_example :
    deserialize true native_endian header_view 40 (sevens, sevens_form) ≡ (
      replacing true header_view
          (λ to m. (read_fields native_endian header_view to (m, sevens_form)).0)
          40
          sevens,
      (read_fields native_endian header_view 40 (sevens, sevens_form)).1,
    )
unfolding is_bit_cast_safe
deserialize-replacing_example =
    deserialize-replacing true native_endian header_view 40 sevens sevens_form (inr refl)
      header_view-IsLaid (λ a. omega arith)

-- the first ignored member is at 44: it becomes zero at compile time, and stays at run time
ignored_member :
    ((deserialize true native_endian header_view 40 (sevens, sevens_form)).0 44 ≡ 0)
    × ((deserialize false native_endian header_view 40 (sevens, sevens_form)).0 44 ≡ 7)
unfolding deserialize is_bit_cast_safe deserialize_flat build_sequence enumerate_object
    enumerate_items raw_size struct_size compress_layout compress_from read_bytes constexpr_memcpy
ignored_member = (refl, refl)

-- two items of a char and an integer of four bytes: the second item is looked for at 8 of the
-- serial form, which has the items at 0 and 5 and ends at 10
abbrev padded : Kind
padded =
    container 2 (
      aggregate true 8
        (member false 0 (scalar integral 1) (member false 4 (scalar integral 4) end)))

padded_size : raw_size padded ≡ 10
unfolding raw_size
padded_size = refl

padded_sequence :
    build_sequence padded
    ≡ record { struct_offset = 0; wire_offset = 0; count = 1 }
      ∷ record { struct_offset = 4; wire_offset = 1; count = 4 }
      ∷ record { struct_offset = 8; wire_offset = 8; count = 1 }
      ∷ record { struct_offset = 12; wire_offset = 9; count = 4 }
      ∷ []
unfolding build_sequence enumerate_object enumerate_items raw_size struct_size compress_layout
    compress_from
padded_sequence = refl
