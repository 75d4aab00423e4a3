-- ===== src/Messages/Decode.antt =====
-- include/market_data/big_endian.h, types.h and messages.h: the values of messages from their
-- bytes. stse::deserialize reads the members in order, without padding, and passes over those
-- marked stse::ignore. The host is little endian.
use itch_order_book.Common.{
  ℕ, zero, suc, ◌+◌, ◌*◌, ◌/◌, ◌%◌, ◌^◌, List, [], ◌∷◌, length, take, drop, replicate,
}
use itch_order_book.Messages.{
  Stock, HeaderView, AddOrderMessage, OrderExecutedMessage, OrderCancelMessage, OrderDeleteMessage,
  OrderReplaceMessage,
}

-- `raw_value`, as a little-endian host reads the bytes
unfoldable pub raw_value : List ℕ → ℕ
raw_value [] = 0
raw_value (b ∷ bytes) = b + 256 * raw_value bytes

-- `std::byteswap` of an integer of `n` bytes
unfoldable pub byteswap : ℕ → ℕ → ℕ
byteswap zero x = 0
byteswap (suc n) x = (x % 256) * 256 ^ n + byteswap n (x / 256)

-- `BigEndian<T>::operator T`
unfoldable pub big_endian : List ℕ → ℕ
big_endian bytes = byteswap (length bytes) (raw_value bytes)

-- `Timestamp::operator std::uint64_t`; the shifted bytes have no bit in common, so that `|` adds
unfoldable pub timestamp : ℕ → ℕ → ℕ → ℕ → ℕ → ℕ → ℕ
timestamp b0 b1 b2 b3 b4 b5 =
    b0 * 2 ^ 40 + b1 * 2 ^ 32 + b2 * 2 ^ 24 + b3 * 2 ^ 16 + b4 * 2 ^ 8 + b5

-- `make_ticker`: the characters, then spaces
unfoldable pub make_ticker : ℕ → List ℕ → Stock
make_ticker zero ticker = []
make_ticker (suc n) [] = replicate (suc n) b' '
make_ticker (suc n) (c ∷ ticker) = c ∷ make_ticker n ticker

-- the member of `n` bytes at an offset
abbrev bytes_at : ℕ → ℕ → List ℕ → List ℕ
bytes_at offset n bytes = take n (drop offset bytes)

abbrev integer_at : ℕ → ℕ → List ℕ → ℕ
integer_at offset n bytes = big_endian (bytes_at offset n bytes)

abbrev char_at : ℕ → List ℕ → ℕ
char_at offset bytes = raw_value (bytes_at offset 1 bytes)

-- `stse::serial_size_v<HeaderView>`: 1, 2, 2 and 6 bytes
abbrev pub header_size : ℕ
header_size = 11

unfoldable pub decode_header : List ℕ → HeaderView
decode_header bytes = record { message_type = char_at 0 bytes; stock_locate = integer_at 1 2 bytes }

-- AddOrderMessage and AddOrderMPIDMessage, whose attribution is ignored
unfoldable pub decode_add_order : List ℕ → AddOrderMessage
decode_add_order bytes = record {
  order_reference_number = integer_at 0 8 bytes;
  buy_sell_indicator = char_at 8 bytes;
  shares = integer_at 9 4 bytes;
  stock = bytes_at 13 8 bytes;
  price = integer_at 21 4 bytes;
}

-- OrderExecutedMessage and OrderExecutedWithPriceMessage, whose other members are ignored
unfoldable pub decode_order_executed : List ℕ → OrderExecutedMessage
decode_order_executed bytes = record {
  order_reference_number = integer_at 0 8 bytes;
  executed_shares = integer_at 8 4 bytes;
}

unfoldable pub decode_order_cancel : List ℕ → OrderCancelMessage
decode_order_cancel bytes = record {
  order_reference_number = integer_at 0 8 bytes;
  cancelled_shares = integer_at 8 4 bytes;
}

unfoldable pub decode_order_delete : List ℕ → OrderDeleteMessage
decode_order_delete bytes = record { order_reference_number = integer_at 0 8 bytes }

unfoldable pub decode_order_replace : List ℕ → OrderReplaceMessage
decode_order_replace bytes = record {
  original_order_reference_number = integer_at 0 8 bytes;
  new_order_reference_number = integer_at 8 8 bytes;
  shares = integer_at 16 4 bytes;
  price = integer_at 20 4 bytes;
}
