-- ===== src/Messages/Layouts.antt =====
-- include/market_data/messages.h: the message types as the compiler reflects them, with the offsets
-- of their members on the host, and what a handler reads from an object of each.
use itch_order_book.Common.{ℕ, true, false, List, [], ◌∷◌}
use itch_order_book.Stse.{integral}
use itch_order_book.Stse.Fields.{native_endian, object_bytes}
use itch_order_book.Stse.Routes.{deserialize}
use itch_order_book.Stse.Reflect.{
  Annotation, ignoreserialization, Traits, Reflected, scalar_type, array_type, class_type, no_bases,
  DataMembers, no_members, data_member, kind_of,
}
use itch_order_book.Messages.{
  HeaderView, AddOrderMessage, OrderExecutedMessage, OrderCancelMessage, OrderDeleteMessage,
  OrderReplaceMessage,
}
use itch_order_book.Messages.Decode.{raw_value, big_endian}

-- a class of data only
abbrev pub plain : Traits
plain = record { is_polymorphic = false; is_trivially_copyable = true; has_endian = false }

abbrev pub struct : ℕ → DataMembers → Reflected
struct size members = class_type plain size no_bases members

-- `BigEndian`, char and `short_string`
abbrev pub big_endian_type : ℕ → Reflected
big_endian_type n = struct n (data_member [] 0 (scalar_type integral n) no_members)

abbrev pub char_type : Reflected
char_type = scalar_type integral 1

abbrev pub short_string : ℕ → Reflected
short_string n = array_type n char_type

abbrev pub timestamp_type : Reflected
timestamp_type = struct 6 (data_member [] 0 (array_type 6 (scalar_type integral 1)) no_members)

-- the members marked stse::ignore
abbrev ignored : List Annotation
ignored = ignoreserialization ∷ []

unfoldable pub header_view_type : Reflected
header_view_type = struct 12 (
    data_member [] 0 char_type (
      data_member [] 2 (big_endian_type 2) (
        data_member ignored 4 (big_endian_type 2)
          (data_member ignored 6 timestamp_type no_members))))

unfoldable pub add_order_type : Reflected
add_order_type = struct 32 (
    data_member [] 0 (big_endian_type 8) (
      data_member [] 8 char_type (
        data_member [] 12 (big_endian_type 4)
          (data_member [] 16 (short_string 8) (data_member [] 24 (big_endian_type 4) no_members)))))

unfoldable pub add_order_mpid_type : Reflected
add_order_mpid_type = struct 32 (
    data_member [] 0 (big_endian_type 8) (
      data_member [] 8 char_type (
        data_member [] 12 (big_endian_type 4) (
          data_member [] 16 (short_string 8) (
            data_member [] 24 (big_endian_type 4)
              (data_member ignored 28 (short_string 4) no_members))))))

unfoldable pub order_executed_type : Reflected
order_executed_type = struct 24 (
    data_member [] 0 (big_endian_type 8) (
      data_member [] 8 (big_endian_type 4) (data_member ignored 16 (big_endian_type 8) no_members)))

unfoldable pub order_executed_with_price_type : Reflected
order_executed_with_price_type = struct 32 (
    data_member [] 0 (big_endian_type 8) (
      data_member [] 8 (big_endian_type 4) (
        data_member ignored 16 (big_endian_type 8) (
          data_member ignored 24 char_type
            (data_member ignored 28 (big_endian_type 4) no_members)))))

unfoldable pub order_cancel_type : Reflected
order_cancel_type =
    struct 16
      (data_member [] 0 (big_endian_type 8) (data_member [] 8 (big_endian_type 4) no_members))

unfoldable pub order_delete_type : Reflected
order_delete_type = struct 8 (data_member [] 0 (big_endian_type 8) no_members)

unfoldable pub order_replace_type : Reflected
order_replace_type = struct 24 (
    data_member [] 0 (big_endian_type 8) (
      data_member [] 8 (big_endian_type 8)
        (data_member [] 16 (big_endian_type 4) (data_member [] 20 (big_endian_type 4) no_members))))

-- the values of an object's members
abbrev integer_member : ℕ → ℕ → (ℕ → ℕ) → ℕ
integer_member offset n object = big_endian (object_bytes n object offset)

abbrev char_member : ℕ → (ℕ → ℕ) → ℕ
char_member offset object = raw_value (object_bytes 1 object offset)

unfoldable pub header_view : (ℕ → ℕ) → HeaderView
header_view object = record {
  message_type = char_member 0 object;
  stock_locate = integer_member 2 2 object;
}

-- AddOrderMessage and AddOrderMPIDMessage, whose members read by the handler stand at one place
unfoldable pub add_order : (ℕ → ℕ) → AddOrderMessage
add_order object = record {
  order_reference_number = integer_member 0 8 object;
  buy_sell_indicator = char_member 8 object;
  shares = integer_member 12 4 object;
  stock = object_bytes 8 object 16;
  price = integer_member 24 4 object;
}

unfoldable pub order_executed : (ℕ → ℕ) → OrderExecutedMessage
order_executed object = record {
  order_reference_number = integer_member 0 8 object;
  executed_shares = integer_member 8 4 object;
}

unfoldable pub order_cancel : (ℕ → ℕ) → OrderCancelMessage
order_cancel object = record {
  order_reference_number = integer_member 0 8 object;
  cancelled_shares = integer_member 8 4 object;
}

unfoldable pub order_delete : (ℕ → ℕ) → OrderDeleteMessage
order_delete object = record { order_reference_number = integer_member 0 8 object }

unfoldable pub order_replace : (ℕ → ℕ) → OrderReplaceMessage
order_replace object = record {
  original_order_reference_number = integer_member 0 8 object;
  new_order_reference_number = integer_member 8 8 object;
  shares = integer_member 16 4 object;
  price = integer_member 20 4 object;
}

-- the object that `stse::deserialize_advance(buffer, object)` leaves of `n` bytes
abbrev pub object_of : Reflected → ℕ → (ℕ → ℕ) → (ℕ → ℕ) → ℕ → ℕ
object_of type n buffer object =
    (deserialize false native_endian (kind_of type) 0
      (object, record { bytes = buffer; start = 0; size = n })).0
