-- ===== src/Messages/Endian.antt =====
-- include/market_data/big_endian.h: the conversion of an integer in network order.
use itch_order_book.Common.{
  ℕ, ◌+◌, ◌*◌, ◌/◌, ◌%◌, ◌^◌, ◌<◌, ◌≡◌, refl, arith, List, [], ◌∷◌, length,
}
use itch_order_book.Messages.Decode.{raw_value, byteswap, big_endian, timestamp}

abbrev pub AreBytes : List ℕ → Type 0
AreBytes [] = Unit
AreBytes (b ∷ bytes) = (b < 256) × AreBytes bytes

-- the number that bytes stand for, the most significant first
unfoldable pub network_value : List ℕ → ℕ
network_value [] = 0
network_value (b ∷ bytes) = b * 256 ^ length bytes + network_value bytes

-- For bytes in network order, of any number, `BigEndian` converts to the number that they stand
-- for.
pub big_endian-network_value :
    (bytes : List ℕ) → AreBytes bytes → big_endian bytes ≡ network_value bytes
unfolding big_endian raw_value byteswap network_value
big_endian-network_value [] h = refl
big_endian-network_value (b ∷ bytes) h =
    let low : (b + 256 * raw_value bytes) % 256 ≡ b = omega arith in
    let high : (b + 256 * raw_value bytes) / 256 ≡ raw_value bytes = omega arith in
    rw (low, high, big_endian-network_value bytes h.1) refl

-- `Timestamp` converts to the number that its six bytes stand for.
pub timestamp-network_value :
    (b0 b1 b2 b3 b4 b5 : ℕ)
    → timestamp b0 b1 b2 b3 b4 b5 ≡ network_value (b0 ∷ b1 ∷ b2 ∷ b3 ∷ b4 ∷ b5 ∷ [])
unfolding timestamp network_value
timestamp-network_value b0 b1 b2 b3 b4 b5 = omega arith
