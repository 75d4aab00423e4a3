-- ===== src/Replay/Tests.antt =====
-- bench/replay.cpp: the replay of a file of three packets.
use itch_order_book.Common.{ℕ, ◌≡◌, refl, true, some, List, [], ◌∷◌}
use itch_order_book.Book.{buy}
use itch_order_book.Feed.Frames.{responses_of}
use itch_order_book.Handler.{OrderRecord, Orders, ok}
use itch_order_book.Handler.PacketTests.{target}
use itch_order_book.Handler.Replay.{frames, handler_at}
use itch_order_book.Handler.Market.Shows.{Shows}
use itch_order_book.Handler.Market.Tests.{feed, half_sold, feed-ArePackets, feed-Session}
use itch_order_book.Replay.{create_worker, feed_worker}
use itch_order_book.Replay.Session.{replay-Session}

abbrev blank : OrderRecord
blank = record { side = buy; price = 0; shares = 0 }

replay-Session_example :
    (published : List ℕ) × (feed_worker 4 (responses_of (0 ∷ 2 ∷ 1 ∷ [])) (frames feed)
      ≡ some (true, [], record { source = []; published = published }))
    × (o : Orders) × (create_worker target blank 0 4 published
        ≡ ok (true, handler_at [] true (2, o)))
    × Shows half_sold o
replay-Session_example =
    replay-Session target feed (0 ∷ 2 ∷ 1 ∷ []) blank 0 (2, half_sold) feed-ArePackets refl
      feed-Session
