-- ===== src/Handler/PacketTests.antt =====
-- include/market_data/market_data_handler.h: polls of small feeds.
use itch_order_book.Common.{
  ℕ, ◌≡◌, refl, arith, ap, Option, some, none, Bool, true, false, List, [], ◌∷◌, ◌++◌,
}
use itch_order_book.Book.{buy, empty_book}
use itch_order_book.AddressMap.{new_map}
use itch_order_book.Messages.{Stock}
use itch_order_book.Messages.Decode.{big_endian, raw_value, byteswap, decode_header}
use itch_order_book.Handler.{Run, ok, ◌>>=◌, Orders}
use itch_order_book.Handler.Polling.{handler_of, poll, poll_all}
use itch_order_book.Handler.Framing.{Packet, IsPacket, frame}
use itch_order_book.Handler.Market.Work.{work_all, poll_all-work_all}
use itch_order_book.Handler.Replay.{receive, frames, handler_at, poll-receive}

abbrev pub target : Stock
target = b'T' ∷ b'S' ∷ b'L' ∷ b'A' ∷ b' ' ∷ b' ' ∷ b' ' ∷ b' ' ∷ []

abbrev pub first_orders : Orders
first_orders = record {
  order_book = empty_book;
  order_records = new_map (record { side = buy; price = 0; shares = 0 });
  cache_stock_locate = 0;
}

abbrev pub header_with : ℕ → ℕ → List ℕ
header_with message_type locate = message_type ∷ 0 ∷ locate ∷ 0 ∷ 0 ∷ 0 ∷ 0 ∷ 0 ∷ 0 ∷ 0 ∷ 0 ∷ []

-- a system event, which the handler skips
abbrev pub system_event : Packet
system_event = record { size = 0 ∷ 12 ∷ []; header = header_with b'S' 0; body = b'O' ∷ [] }

-- the order 7 to buy 100 shares of the target at 300
abbrev pub add_packet : Packet
add_packet = record {
  size = 0 ∷ 36 ∷ [];
  header = header_with b'A' 5;
  body =
      0 ∷ 0 ∷ 0 ∷ 0 ∷ 0 ∷ 0 ∷ 0 ∷ 7 ∷ b'B' ∷ 0 ∷ 0 ∷ 0 ∷ 100 ∷ b'T' ∷ b'S' ∷ b'L' ∷ b'A' ∷ b' '
      ∷ b' ' ∷ b' ' ∷ b' ' ∷ 0 ∷ 0 ∷ 1 ∷ 44 ∷ [];
}

abbrev case_size : Option (ℕ × (List ℕ → Orders → Run Orders)) → ℕ
case_size none = 0
case_size (some (size, handler)) = size

abbrev is_case : Option (ℕ × (List ℕ → Orders → Run Orders)) → Bool
is_case none = false
is_case (some x) = true

pub system_event-IsPacket : IsPacket target system_event
unfolding big_endian raw_value byteswap handler_of decode_header
system_event-IsPacket = record {
  size_bytes = refl;
  header_bytes = refl;
  sized = refl;
  short = omega arith;
  typed = λ n f e. absurd (cc (ap is_case e));
}

pub add_packet-IsPacket : IsPacket target add_packet
unfolding big_endian raw_value byteswap handler_of decode_header
add_packet-IsPacket = record {
  size_bytes = refl;
  header_bytes = refl;
  sized = refl;
  short = omega arith;
  typed = λ n f e. ap case_size e;
}

-- the sale of 60 shares of the order 7
abbrev pub execute_packet : Packet
execute_packet = record {
  size = 0 ∷ 31 ∷ [];
  header = header_with b'E' 5;
  body = 0 ∷ 0 ∷ 0 ∷ 0 ∷ 0 ∷ 0 ∷ 0 ∷ 7 ∷ 0 ∷ 0 ∷ 0 ∷ 60 ∷ 0 ∷ 0 ∷ 0 ∷ 0 ∷ 0 ∷ 0 ∷ 0 ∷ 1 ∷ [];
}

pub execute_packet-IsPacket : IsPacket target execute_packet
unfolding big_endian raw_value byteswap handler_of decode_header
execute_packet-IsPacket = record {
  size_bytes = refl;
  header_bytes = refl;
  sized = refl;
  short = omega arith;
  typed = λ n f e. ap case_size e;
}

poll-receive_example :
    poll target (handler_at (frame add_packet ++ frame system_event) false (0, first_orders))
    ≡ receive target add_packet (0, first_orders) >>= λ r.
        ok (true, handler_at (frame system_event) false r)
poll-receive_example =
    poll-receive target add_packet add_packet-IsPacket (frame system_event) false (0, first_orders)

poll_all-work_all_example :
    poll_all target 3 (handler_at (frames (system_event ∷ add_packet ∷ [])) true (0, first_orders))
    ≡ work_all target (system_event ∷ add_packet ∷ []) (0, first_orders) >>= λ r.
        ok (true, handler_at [] true r)
poll_all-work_all_example =
    poll_all-work_all target (system_event ∷ add_packet ∷ []) (0, first_orders)
      (system_event-IsPacket, (add_packet-IsPacket, tt))
