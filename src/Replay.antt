-- ===== src/Replay.antt =====
-- bench/replay.cpp: a file is fed to the queue by one thread, and read by a worker for each stock.
pub mod Session
mod Tests
use itch_order_book.Common.{ℕ, Bool, true, Option, List, []}
use itch_order_book.Book.{empty_book}
use itch_order_book.AddressMap.{new_map}
use itch_order_book.Messages.{Stock}
use itch_order_book.Spmc.{ProduceResponse}
use itch_order_book.Feed
use itch_order_book.Feed.{FeedHandler}
use itch_order_book.Handler.{OrderRecord, Orders, Run}
use itch_order_book.Handler.Polling
use itch_order_book.Handler.Polling.{MarketDataHandler}

-- the handler that a worker makes: an empty book, a table whose slots all hold one value, and the
-- locate code, which is not initialised
abbrev pub first_orders : OrderRecord → ℕ → Orders
first_orders value locate = record {
  order_book = empty_book;
  order_records = new_map value;
  cache_stock_locate = locate;
}

-- the worker of a stock, for at most the given number of polls, once the feed has published these
-- bytes and closed the queue
unfoldable pub create_worker : Stock → OrderRecord → ℕ → ℕ → List ℕ → Run (Bool × MarketDataHandler)
create_worker target value locate polls published = Polling.poll_all target polls (record {
  message_count = 0;
  queue = record { bytes = published; is_closed = true };
  orders = first_orders value locate;
})

-- the feed's thread on the bytes of a file, for at most the given number of polls, with the
-- responses that its producer gets
unfoldable pub feed_worker :
    ℕ → List ProduceResponse → List ℕ → Option (Bool × List ProduceResponse × FeedHandler)
feed_worker polls responses file =
    Feed.poll_all polls responses (record { source = file; published = [] })
