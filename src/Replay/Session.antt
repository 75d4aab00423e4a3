-- ===== src/Replay/Session.antt =====
-- bench/replay.cpp: from the file to the books of the workers.
use itch_order_book.Common.{
  ℕ, ◌+◌, ◌≡◌, refl, sym, ap, ap₂, ◌∙◌, arith, true, some, List, [], ◌∷◌, ◌++◌, length,
  length-append,
}
use itch_order_book.Messages.{Stock}
use itch_order_book.Feed
use itch_order_book.Feed.Frames.{Record, AreRecords, file_of, responses_of, poll_all-file_of}
use itch_order_book.Handler.{OrderRecord, Orders, ok}
use itch_order_book.Handler.Framing.{Packet}
use itch_order_book.Handler.Replay.{ArePackets, frames, handler_at}
use itch_order_book.Handler.Market.{Market}
use itch_order_book.Handler.Market.Shows.{Shows, Shows-start}
use itch_order_book.Handler.Market.Session.{Session, poll_all-Session}
use itch_order_book.Replay.{create_worker, feed_worker}

-- a packet as the feed sees it: its size field, and the rest
abbrev pub record_of : Packet → Record
record_of p = record { size = p.size; payload = p.header ++ p.body }

records_of : List Packet → List Record
records_of [] = []
records_of (p ∷ ps) = record_of p ∷ records_of ps

file_of-frames : (ps : List Packet) → file_of (records_of ps) ≡ frames ps
unfolding records_of
file_of-frames [] = refl
file_of-frames (p ∷ ps) = rw (file_of-frames ps)

length-records_of : (ps : List Packet) → length (records_of ps) ≡ length ps
unfolding records_of
length-records_of [] = refl
length-records_of (p ∷ ps) = omega (arith, length-records_of ps)

AreRecords-ArePackets :
    (target : Stock) (ps : List Packet) → ArePackets target ps → AreRecords (records_of ps)
unfolding records_of
AreRecords-ArePackets target [] h = tt
AreRecords-ArePackets target (p ∷ ps) h = (
  record {
    size_bytes = h.0.size_bytes;
    sized = h.0.sized ∙ omega (arith, length-append p.header p.body, h.0.header_bytes);
  },
  AreRecords-ArePackets target ps h.1,
)

-- the feed publishes the packets of its file
feed_worker-frames :
    (target : Stock) (ps : List Packet) (waits : List ℕ)
    → ArePackets target ps
    → length waits ≡ length ps
    → feed_worker (length ps + 1) (responses_of waits) (frames ps)
      ≡ some (true, [], record { source = []; published = frames ps })
unfolding feed_worker
feed_worker-frames target ps waits packets one_each =
    let n = length-records_of ps in
    let f = file_of-frames ps in
    ap₂
      (λ k file.
        Feed.poll_all (k + 1) (responses_of waits) (record { source = file; published = [] }))
      (sym n) (sym f)
    ∙ poll_all-file_of (records_of ps) waits [] (AreRecords-ArePackets target ps packets)
        (one_each ∙ sym n)
    ∙ ap (λ file. some (true, [], record { source = []; published = file })) f

-- A file of whole packets that make a session from a market with no open orders, with a producer
-- that finds the buffer full any number of times before it publishes each packet: the feed's loop
-- ends and publishes bytes on which the worker's loop ends too, both within one poll more than
-- there are packets. The worker does not fault, has counted the messages that it handled, and its
-- table, book and locate code show the market at the session's end.
pub replay-Session :
    (target : Stock) (ps : List Packet) (waits : List ℕ) (value : OrderRecord) (locate : ℕ)
    (d : ℕ × Market)
    → ArePackets target ps
    → length waits ≡ length ps
    → Session target ps (0, record { orders = []; locate = locate }) d
    → (published : List ℕ) × (feed_worker (length ps + 1) (responses_of waits) (frames ps)
        ≡ some (true, [], record { source = []; published = published }))
      × (o : Orders) × (create_worker target value locate (length ps + 1) published
          ≡ ok (true, handler_at [] true (d.0, o)))
      × Shows d.1 o
unfolding create_worker
replay-Session target ps waits value locate d packets one_each s =
    let (o, run, shown) =
      poll_all-Session target ps (0, record { orders = []; locate = locate }) d _ packets s
        (Shows-start value locate) in
    (frames ps, feed_worker-frames target ps waits packets one_each, o, run, shown)
