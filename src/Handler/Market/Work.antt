-- ===== src/Handler/Market/Work.antt =====
-- include/market_data/market_data_handler.h, bench/replay.cpp: a worker on a whole feed, faults
-- included, against the messages of the packets.
use itch_order_book.Common.{
  ℕ, ◌+◌, ◌≡◌, refl, ◌∙◌, ap, arith, true, List, [], ◌∷◌, length, ◌==◌, ◌||◌, if◌then◌else◌,
}
use itch_order_book.Messages.{Stock}
use itch_order_book.Handler.{Orders, Run, ok, ◌>>=◌}
use itch_order_book.Handler.Polling.{is_other_stock, poll_all}
use itch_order_book.Handler.Framing.{Packet, view_of}
use itch_order_book.Handler.Replay.{
  ArePackets, frames, handler_at, receive, receive_all, >>=-pointwise, poll_all-receive_all,
}
use itch_order_book.Handler.Market.Session.{message_of, by_message, receive-by_message}

-- A packet of type 'A', or with the locate code of the stock, acts on the orders as the message
-- that its type names, and is counted, if there is one; any other packet is passed over.
abbrev pub work : Stock → Packet → ℕ × Orders → Run (ℕ × Orders)
work target p r =
    let header = view_of p in
    if (header.message_type == b'A') || (header.stock_locate == r.1.cache_stock_locate)
    then by_message target (message_of header p.body) r
    else ok r

abbrev pub work_all : Stock → List Packet → ℕ × Orders → Run (ℕ × Orders)
work_all target [] r = ok r
work_all target (p ∷ ps) r = work target p r >>= λ r'. work_all target ps r'

receive-work : (target : Stock) (p : Packet) (r : ℕ × Orders) → receive target p r ≡ work target p r
unfolding is_other_stock
receive-work target p r = receive-by_message target p r ∙ ground arith

receive_all-work_all :
    (target : Stock) (ps : List Packet) (r : ℕ × Orders)
    → receive_all target ps r ≡ work_all target ps r
unfolding receive_all
receive_all-work_all target [] r = refl
receive_all-work_all target (p ∷ ps) r =
    ap (λ x. x >>= receive_all target ps) (receive-work target p r)
    ∙ >>=-pointwise (work target p r) _ _ (λ r'. receive_all-work_all target ps r')

-- On a closed queue of whole packets, from any state, the worker's loop does within one poll more
-- than there are packets what the packets say, in their order: a packet of type 'A', or with the
-- stock's locate code, runs the handler of the message that its type names, and is counted, if its
-- type names one, and every other packet changes nothing. The loop then ends with the queue empty;
-- a fault of a handler is the loop's.
pub poll_all-work_all :
    (target : Stock) (ps : List Packet) (r : ℕ × Orders)
    → ArePackets target ps
    → poll_all target (length ps + 1) (handler_at (frames ps) true r)
      ≡ work_all target ps r >>= λ r'. ok (true, handler_at [] true r')
poll_all-work_all target ps r packets =
    poll_all-receive_all target ps r packets
    ∙ ap (λ x. x >>= λ r'. ok (true, handler_at [] true r')) (receive_all-work_all target ps r)
