-- ===== src/Handler/Market/Session.antt =====
-- include/market_data/market_data_handler.h, bench/replay.cpp: a worker on a whole feed, against
-- what the feed's packets do to the list of open orders.
use itch_order_book.Common.{
  ℕ, ◌+◌, ◌≡◌, ◌≢◌, ◌⊎◌, refl, ◌∙◌, arith, true, false, Option, none, some, List, [], ◌∷◌, length,
  ◌==◌, if◌then◌else◌, add64, Bool-cases, inl, inr,
}
use itch_order_book.Messages.{Stock, HeaderView}
use itch_order_book.Messages.Decode.{
  decode_add_order, decode_order_executed, decode_order_cancel, decode_order_delete,
  decode_order_replace,
}
use itch_order_book.Handler.{Orders, Run, ok, ◌>>=◌}
use itch_order_book.Handler.Polling.{handler_of, is_other_stock, poll_all}
use itch_order_book.Handler.Framing.{Packet, view_of}
use itch_order_book.Handler.Replay.{
  ArePackets, frames, handler_at, receive, receive_all, poll_all-receive_all,
}
use itch_order_book.Handler.Market.{
  Message, Market, act, add, execute, cancel, delete, replace, Changes,
}
use itch_order_book.Handler.Market.Shows.{Shows}
use itch_order_book.Handler.Market.Refines.{act-Shows}

-- the order message that a body is, by the type in its header
unfoldable pub message_of : HeaderView → List ℕ → Option Message
message_of header body =
    let t = header.message_type in
    if t == b'A'
    then some (add header.stock_locate (decode_add_order body))
    else if t == b'F'
    then some (add header.stock_locate (decode_add_order body))
    else if t == b'E'
    then some (execute (decode_order_executed body))
    else if t == b'C'
    then some (execute (decode_order_executed body))
    else if t == b'X'
    then some (cancel (decode_order_cancel body))
    else if t == b'D'
    then some (delete (decode_order_delete body))
    else if t == b'U'
    then some (replace (decode_order_replace body))
    else none

-- the packet is of another stock: no add message, and of another locate code
abbrev pub IsForeign : HeaderView → Market → Type 0
IsForeign header m = (header.message_type ≢ b'A') × (header.stock_locate ≢ m.locate)

-- what a sequence of packets does to the count of messages and the market
pub data Session (target : Stock) : List Packet → ℕ × Market → ℕ × Market → Type 0 where
  closes : {d : ℕ × Market} → Session target [] d d
  foreign :
      {p : Packet} {ps : List Packet} {d d' : ℕ × Market}
      → IsForeign (view_of p) d.1
      → Session target ps d d'
      → Session target (p ∷ ps) d d'
  unhandled :
      {p : Packet} {ps : List Packet} {d d' : ℕ × Market}
      → message_of (view_of p) p.body ≡ none
      → Session target ps d d'
      → Session target (p ∷ ps) d d'
  handled :
      {p : Packet} {ps : List Packet} {count : ℕ} {m m' : Market} {d' : ℕ × Market}
      (message : Message)
      → ¬ IsForeign (view_of p) m
      → message_of (view_of p) p.body ≡ some message
      → Changes target message m m'
      → Session target ps (add64 count 1, m') d'
      → Session target (p ∷ ps) (count, m) d'

-- what the message of a packet does to the count and the orders; no message, nothing
abbrev pub by_message : Stock → Option Message → ℕ × Orders → Run (ℕ × Orders)
by_message target none r = ok r
by_message target (some message) r = act target message r.1 >>= λ o'. ok (add64 r.0 1, o')

pub receive-by_message :
    (target : Stock) (p : Packet) (r : ℕ × Orders)
    → receive target p r ≡ (
        if is_other_stock (view_of p) r.1
        then ok r
        else by_message target (message_of (view_of p) p.body) r)
unfolding receive message_of handler_of act
receive-by_message target p r = ground arith

-- the filter of `poll` is the description's
is_other_stock-IsForeign :
    (header : HeaderView) (m : Market) (o : Orders)
    → Shows m o
    → ((is_other_stock header o ≡ true) × IsForeign header m)
      ⊎ ((is_other_stock header o ≡ false) × (¬ IsForeign header m))
unfolding is_other_stock
is_other_stock-IsForeign header m o h = ground (arith, h.locate)

passed :
    (target : Stock) (p : Packet) (r : ℕ × Orders)
    → is_other_stock (view_of p) r.1 ≡ true
    → receive target p r ≡ ok r
passed target p r e = receive-by_message target p r ∙ ground (arith, e)

ignored :
    (target : Stock) (p : Packet) (r : ℕ × Orders)
    → message_of (view_of p) p.body ≡ none
    → receive target p r ≡ ok r
ignored target p r e =
    receive-by_message target p r
    ∙ elim (Bool-cases (is_other_stock (view_of p) r.1)) [ inl f ↦ rw f | inr f ↦ rw (f, e) ]

acted_on :
    (target : Stock) (p : Packet) (r : ℕ × Orders) (message : Message) (o : Orders)
    → is_other_stock (view_of p) r.1 ≡ false
    → message_of (view_of p) p.body ≡ some message
    → act target message r.1 ≡ ok o
    → receive target p r ≡ ok (add64 r.0 1, o)
acted_on target p r message o f e run = receive-by_message target p r ∙ rw (f, e, run) refl

-- Running the packets of a session, from a state that shows the market at its start, does not
-- fault, and leaves the count and a state that shows the market at its end.
pub receive_all-Shows :
    (target : Stock) (ps : List Packet) (d d' : ℕ × Market) (o : Orders)
    → Session target ps d d'
    → Shows d.1 o
    → (o' : Orders) × (receive_all target ps (d.0, o) ≡ ok (d'.0, o')) × Shows d'.1 o'
unfolding receive_all
receive_all-Shows target ps d d' o closes h = (o, refl, h)
receive_all-Shows target ps d d' o (foreign {p} {ps = rest} other s) h =
    let (o', run, shown) = receive_all-Shows target rest d d' o s h in
    elim (is_other_stock-IsForeign (view_of p) d.1 o h) [
      | inl (e, _) ↦ (o', rw (passed target p (d.0, o) e) run, shown)
      | inr (e, same) ↦ absurd (same other)
    ]
receive_all-Shows target ps d d' o (unhandled {p} {ps = rest} nothing s) h =
    let (o', run, shown) = receive_all-Shows target rest d d' o s h in
    (o', rw (ignored target p (d.0, o) nothing) run, shown)
receive_all-Shows target ps d d' o
      (handled {p} {ps = rest} {count} {m} {m'} message mine known changes s) h =
    let (o1, run, shown) = act-Shows target message m m' o changes h in
    let (o', runs, shown') = receive_all-Shows target rest (add64 count 1, m') d' o1 s shown in
    elim (is_other_stock-IsForeign (view_of p) m o h) [
      | inl (e, other) ↦ absurd (mine other)
      | inr (e, _) ↦ (o', rw (acted_on target p (count, o) message o1 e known run) runs, shown')
    ]

-- A worker on a closed queue with the packets of a session, from a state that shows the market at
-- its start: the worker's loop ends within one poll more than there are packets, with no fault and
-- the queue empty. It has counted the handled messages, and its table, book and locate code show
-- the market at the session's end.
pub poll_all-Session :
    (target : Stock) (ps : List Packet) (d d' : ℕ × Market) (o : Orders)
    → ArePackets target ps
    → Session target ps d d'
    → Shows d.1 o
    → (o' : Orders) × (poll_all target (length ps + 1) (handler_at (frames ps) true (d.0, o))
        ≡ ok (true, handler_at [] true (d'.0, o')))
      × Shows d'.1 o'
poll_all-Session target ps d d' o packets s h =
    let (o', run, shown) = receive_all-Shows target ps d d' o s h in
    (o', poll_all-receive_all target ps (d.0, o) packets ∙ rw (run, ◌>>=◌) refl, shown)
