-- ===== src/Messages/Tests.antt =====
-- include/market_data/: conversions of single values.
use itch_order_book.Common.{ℕ, ◌+◌, ◌≡◌, refl, arith, [], ◌∷◌}
use itch_order_book.Messages.Decode.{
  big_endian, make_ticker, decode_header, decode_add_order, decode_order_executed,
  decode_order_cancel, decode_order_delete, decode_order_replace,
}
use itch_order_book.Messages.Layouts.{
  header_view_type, add_order_type, add_order_mpid_type, order_executed_type,
  order_executed_with_price_type, order_cancel_type, order_delete_type, order_replace_type,
  header_view, add_order, order_executed, order_cancel, order_delete, order_replace,
}
use itch_order_book.Messages.Deserialize.{Decodes, decode-deserialize}
use itch_order_book.Messages.Endian.{network_value, big_endian-network_value}

big_endian-network_value_example :
    big_endian (1 ∷ 2 ∷ 3 ∷ 4 ∷ []) ≡ network_value (1 ∷ 2 ∷ 3 ∷ 4 ∷ [])
big_endian-network_value_example =
    big_endian-network_value (1 ∷ 2 ∷ 3 ∷ 4 ∷ [])
      (omega arith, (omega arith, (omega arith, (omega arith, tt))))

-- the static_assert of types.h
tsla :
    make_ticker 8 (b'T' ∷ b'S' ∷ b'L' ∷ b'A' ∷ [])
    ≡ b'T' ∷ b'S' ∷ b'L' ∷ b'A' ∷ b' ' ∷ b' ' ∷ b' ' ∷ b' ' ∷ []
unfolding make_ticker
tsla = refl

decode-deserialize_example :
    let buffer : ℕ → ℕ = λ a. a + 1 in
    let object : ℕ → ℕ = λ a. 0 in
    Decodes header_view_type 11 header_view decode_header buffer object
    × Decodes add_order_type 25 add_order decode_add_order buffer object
    × Decodes add_order_mpid_type 29 add_order decode_add_order buffer object
    × Decodes order_executed_type 20 order_executed decode_order_executed buffer object
    × Decodes order_executed_with_price_type 25 order_executed decode_order_executed buffer object
    × Decodes order_cancel_type 12 order_cancel decode_order_cancel buffer object
    × Decodes order_delete_type 8 order_delete decode_order_delete buffer object
    × Decodes order_replace_type 24 order_replace decode_order_replace buffer object
decode-deserialize_example = decode-deserialize (λ a. a + 1) (λ a. 0)
