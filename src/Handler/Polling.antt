-- ===== src/Handler/Polling.antt =====
-- include/market_data/market_data_handler.h: `poll`, which reads one message from the queue. The
-- consumer's queue is the list of the published bytes that it has not read, and the closing flag.
-- Without assertions, as in the release build, an unsafe read that fails gives zeros.
use itch_order_book.Common.{
  ℕ, zero, suc, Bool, true, false, Option, none, some, List, length, take, drop, replicate, ◌==◌,
  leb, if◌then◌else◌, sub64, add64,
}
use itch_order_book.Messages.{Stock, HeaderView}
use itch_order_book.Messages.Decode.{
  big_endian, header_size, decode_header, decode_add_order, decode_order_executed,
  decode_order_cancel, decode_order_delete, decode_order_replace,
}
use itch_order_book.Handler.{
  Run, ok, ◌>>=◌, Orders, add_order, execute_order, cancel_order, delete_order, replace_order,
}

pub record ByteQueue : Type 0 where
  pub bytes : List ℕ
  pub is_closed : Bool

pub data MessageStatus : Type 0 where
  simulated skipped : MessageStatus

-- the members of MarketDataHandler
pub record MarketDataHandler : Type 0 where
  pub message_count : ℕ
  pub queue : ByteQueue
  pub orders : Orders

abbrev pub without : ℕ → ByteQueue → ByteQueue
without n q = record q { bytes = drop n q.bytes }

-- `try_skip_many`, whose status is not looked at
unfoldable pub skip_many : ℕ → ByteQueue → ByteQueue
skip_many n q = if leb n (length q.bytes) then without n q else q

-- `try_read_from_queue`, up to the deserialization: none where `try_pop_many` fails
unfoldable pub try_read_from_queue : ℕ → ByteQueue → Option (List ℕ × ByteQueue)
try_read_from_queue n q =
    if leb n (length q.bytes) then some (take n q.bytes, without n q) else none

unfoldable pub read_from_queue_unsafe : ℕ → ByteQueue → List ℕ × ByteQueue
read_from_queue_unsafe n q =
    if leb n (length q.bytes) then (take n q.bytes, without n q) else (replicate n 0, q)

-- the cases of `simulate_message`: the size of the message, and its handler
unfoldable pub handler_of : Stock → ℕ → ℕ → Option (ℕ × (List ℕ → Orders → Run Orders))
handler_of target stock_locate message_type =
    if message_type == b'A'
    then some (25, λ bytes. add_order target stock_locate (decode_add_order bytes))
    else if message_type == b'F'
    then some (29, λ bytes. add_order target stock_locate (decode_add_order bytes))
    else if message_type == b'E'
    then some (20, λ bytes. execute_order (decode_order_executed bytes))
    else if message_type == b'C'
    then some (25, λ bytes. execute_order (decode_order_executed bytes))
    else if message_type == b'X'
    then some (12, λ bytes. cancel_order (decode_order_cancel bytes))
    else if message_type == b'D'
    then some (8, λ bytes. delete_order (decode_order_delete bytes))
    else if message_type == b'U'
    then some (24, λ bytes. replace_order (decode_order_replace bytes))
    else none

unfoldable pub simulate_message :
    Stock → ℕ → ℕ → ByteQueue → Orders → Run (MessageStatus × ByteQueue × Orders)
simulate_message target message_type stock_locate q o =
    elim (handler_of target stock_locate message_type) [
      | none ↦ ok (skipped, q, o)
      | some (size, handler) ↦
          let (bytes, q') = read_from_queue_unsafe size q in
          handler bytes o >>= λ o'. ok (simulated, q', o')
    ]

-- the filter on the locate code
unfoldable pub is_other_stock : HeaderView → Orders → Bool
is_other_stock header o =
    if header.message_type == b'A'
    then false
    else if header.stock_locate == o.cache_stock_locate
    then false
    else true

-- the state after a message that was, or was not, simulated
abbrev pub settle :
    MarketDataHandler → ℕ → MessageStatus × ByteQueue × Orders → Bool × MarketDataHandler
settle h packet_body_size (skipped, q, o) =
    (true, record h { queue = skip_many packet_body_size q; orders = o })
settle h packet_body_size (simulated, q, o) =
    (true, record { message_count = add64 h.message_count 1; queue = q; orders = o })

-- whether to poll again, and the state
unfoldable pub poll : Stock → MarketDataHandler → Run (Bool × MarketDataHandler)
poll target h = elim (try_read_from_queue 2 h.queue) [
  | none ↦ ok (if h.queue.is_closed then false else true, h)
  | some (size_bytes, q) ↦
      let packet_body_size = sub64 (big_endian size_bytes) header_size in
      let (header_bytes, q') = read_from_queue_unsafe header_size q in
      let header = decode_header header_bytes in
      if is_other_stock header h.orders
      then ok (true, record h { queue = skip_many packet_body_size q' })
      else simulate_message target header.message_type header.stock_locate q' h.orders >>= λ r.
          ok (settle h packet_body_size r)
]

-- `while (market_data_handler.poll())`, for at most the given number of polls: whether it has ended
unfoldable pub poll_all : Stock → ℕ → MarketDataHandler → Run (Bool × MarketDataHandler)
poll_all target zero h = ok (false, h)
poll_all target (suc n) h =
    poll target h >>= λ r. let rest = poll_all target n r.1 in if r.0 then rest else ok (true, r.1)
