-- ===== src/Lib.antt =====
-- A limit order book for one stock, rebuilt from a NASDAQ ITCH feed.
--
-- A feed thread reads packets from a file (include/feed, src/feed) and publishes their bytes to a
-- ring buffer with one producer and several consumers (include/spmc). Each consumer thread runs a
-- market data handler for one stock (include/market_data), which decodes messages, keeps a table of
-- the open orders (include/util/open_address_map.h) and an order book of the shares at each price
-- (include/book, src/book).
--
-- Files:
--   Common      helpers: Boolean tests, lists and arrays over the native naturals, 64-bit words
--   Capacity    powers of two as capacities, where `& MASK` is the remainder
--   Book        src/book/order_book.cpp: OrderBook; PriceMap is std::map<price_t, shares_t>
--   AddressMap  include/util/open_address_map.h: OpenAddressMap, generic in its Probe. Sequence is
--               what the theorems ask of a probe, and the linear probe fills it; View is the map
--               that a table stands for; Rehash is the variant with Rehash true
--   Spmc        include/spmc: the ring buffer's operations as functions of its shared state. System
--               is the step relation of the producer and the consumers, a step for each load, store
--               and copy; Invariant holds between any two steps; Calls has the producer's calls as
--               runs of steps. Indices are taken not to reach 2 ^ 64, and loads may return old values
--   Feed        src/feed/file_source.cpp, include/feed/feed_handler.h: FileSource::next on the bytes of
--               the file, FeedHandler::poll and the loop of the feed's thread
--   Messages    include/market_data/messages.h, types.h, big_endian.h: the messages, and their members
--               in the bytes of a packet (Decode). Layouts has the types as the compiler reflects
--               them, and Deserialize compares the decoders with the library of include/stse on them
--   Stse        include/stse: the serialization library over descriptions of types. Reflect has the
--               questions on types (meta_utils.hpp, concepts.hpp), Stse the layouts and the flat
--               copies (layout.hpp, memory.hpp), Fields the scalars and an object field by field,
--               Routes the choice between flat copies and fields, for an object and again for each
--               item and member, at compile time and at run time (serialize.hpp, deserialize.hpp),
--               and Api the client's calls (stse.hpp)
--   RingBuffer  include/util/ring_buffer.h: the last samples of a latency recorder; Quartile is
--               quartile_buffer.h and latency_recorder.h: the samples of each rank
--   Handler     include/market_data/market_data_handler.h: add_order to replace_order on the orders
--               and the book; Polling is poll and simulate_message over the bytes of the queue;
--               Handler/Replay has a worker's loop packet by packet, and View ties
--               the queue's bytes to the ring buffer. Market is the specification: a list of open
--               orders, and what each message does to it; Market/Work has a worker's loop by the
--               messages of the packets, faults included
--   Replay      bench/replay.cpp: the feed's thread and the worker of a stock, from the bytes of the file
--
-- Indices, shares and counts are naturals below 2 ^ 64; additions and subtractions of the source are
-- add64 and sub64, which wrap. An array is a function from the index. Undefined behaviour is none, or
-- `undefined` in Handler.Run, and a thrown MapSaturatedException is `saturated`. The loop of
-- probe_for_slot_idx gets 2 * Capacity rounds, while a walk has Capacity slots, and `spinning` is the
-- end of the rounds. The loops of the threads get a number of polls: one for each packet, and one that
-- finds the end. A producer's responses to the feed are an argument of FeedHandler's poll.
--
-- An object of a C++ type is the bytes at an address of a memory, and a span is a memory with a start
-- and a size. The host is little endian. A contract of include/stse/stse.hpp that does not hold is none.
--
-- Not modelled: files and memory maps, threads and affinity, clocks, printed reports, the
-- schema of include/stse, which is text for people, and the compiler's reflection, whose answers are the
-- descriptions of types that Stse/Reflect starts from. Members that are C arrays and scalars whose size
-- has no unsigned integer type are not described; they do not compile where they are serialized. The
-- consumer's queue is the list of the bytes it has still to read.

pub mod Common
pub mod Capacity
pub mod Book
pub mod AddressMap
pub mod Spmc
pub mod Feed
pub mod RingBuffer
pub mod Stse
pub mod Messages
pub mod Handler
pub mod Replay
