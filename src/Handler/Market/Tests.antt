-- ===== src/Handler/Market/Tests.antt =====
-- include/market_data/market_data_handler.h: a session of three packets.
use itch_order_book.Common.{◌≡◌, refl, arith, true, List, [], ◌∷◌}
use itch_order_book.Book.{buy}
use itch_order_book.Messages.Decode.{
  big_endian, raw_value, byteswap, decode_header, decode_add_order, decode_order_executed,
}
use itch_order_book.Handler.{OrderRecord, Orders, ok, capacity, same_stock}
use itch_order_book.Handler.Framing.{Packet}
use itch_order_book.Handler.Polling.{poll_all}
use itch_order_book.Handler.PacketTests.{
  target, first_orders, system_event, add_packet, execute_packet, system_event-IsPacket,
  add_packet-IsPacket, execute_packet-IsPacket,
}
use itch_order_book.Handler.Replay.{ArePackets, frames, handler_at}
use itch_order_book.Handler.Market.{
  Market, find_order, remove_order, lower_order, shares_of, opens, executes, add, execute,
}
use itch_order_book.Handler.Market.Shows.{Shows, Shows-start}
use itch_order_book.Handler.Market.Session.{
  message_of, Session, closes, unhandled, handled, poll_all-Session,
}

abbrev pub feed : List Packet
feed = system_event ∷ add_packet ∷ execute_packet ∷ []

abbrev pub no_orders : Market
no_orders = record { orders = []; locate = 0 }

abbrev bid : OrderRecord
bid = record { side = buy; price = 300; shares = 100 }

-- the order 7 after the sale
abbrev pub half_sold : Market
half_sold = record { orders = (7, record bid { shares = 40 }) ∷ []; locate = 5 }

pub feed-ArePackets : ArePackets target feed
feed-ArePackets = (system_event-IsPacket, (add_packet-IsPacket, (execute_packet-IsPacket, tt)))

pub feed-Session : Session target feed (0, no_orders) (2, half_sold)
unfolding message_of decode_header decode_add_order decode_order_executed big_endian raw_value
    byteswap find_order remove_order lower_order shares_of same_stock capacity
feed-Session = unhandled refl (
    handled
      (add 5 (record {
        order_reference_number = 7;
        buy_sell_indicator = b'B';
        shares = 100;
        stock = target;
        price = 300;
      }))
      (λ other. other.0 refl) refl (opens refl refl (omega arith) (omega arith) (omega arith))
      (handled (execute (record { order_reference_number = 7; executed_shares = 60 }))
        (λ other. other.1 refl) refl (executes bid refl (omega arith) (omega arith)) closes))

poll_all-Session_example :
    (o : Orders) × (poll_all target 4 (handler_at (frames feed) true (0, first_orders))
      ≡ ok (true, handler_at [] true (2, o)))
    × Shows half_sold o
poll_all-Session_example =
    poll_all-Session target feed (0, no_orders) (2, half_sold) first_orders feed-ArePackets
      feed-Session (Shows-start (record { side = buy; price = 0; shares = 0 }) 0)
