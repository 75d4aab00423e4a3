-- ===== src/Handler/Framing.antt =====
-- include/market_data/market_data_handler.h: `poll` over a queue of whole packets.
use itch_order_book.Common.{
  ℕ, zero, suc, ◌+◌, ◌^◌, ◌<◌, ◌≡◌, refl, ap, arith, Bool, true, some, List, [], ◌∷◌, ◌++◌, length,
  take, drop, length-append, leb,
}
use itch_order_book.Messages.{Stock, HeaderView}
use itch_order_book.Messages.Decode.{big_endian, header_size, decode_header}
use itch_order_book.Handler.{Run, Orders}
use itch_order_book.Handler.Polling.{
  ByteQueue, without, skip_many, try_read_from_queue, read_from_queue_unsafe, handler_of,
}

-- a packet: its size field, its header and the rest of it
pub record Packet : Type 0 where
  pub size : List ℕ
  pub header : List ℕ
  pub body : List ℕ

abbrev pub frame : Packet → List ℕ
frame p = p.size ++ (p.header ++ p.body)

abbrev pub view_of : Packet → HeaderView
view_of p = decode_header p.header

-- the size field counts header and body, and the body has the size of its type of message
pub record IsPacket (target : Stock) (p : Packet) : Type 0 where
  pub size_bytes : length p.size ≡ 2
  pub header_bytes : length p.header ≡ header_size
  pub sized : big_endian p.size ≡ header_size + length p.body
  pub short : length p.body < 2 ^ 16
  pub typed :
      (n : ℕ) (f : List ℕ → Orders → Run Orders)
      → handler_of target (view_of p).stock_locate (view_of p).message_type ≡ some (n, f)
      → length p.body ≡ n

pub take-append_exact {ℓ} :
    {A : Type ℓ} (xs ys : List A) (n : ℕ) → length xs ≡ n → take n (xs ++ ys) ≡ xs
take-append_exact [] ys zero h = refl
take-append_exact [] ys (suc n) h = absurd (omega arith)
take-append_exact (x ∷ xs) ys zero h = absurd (omega arith)
take-append_exact (x ∷ xs) ys (suc n) h = ap (λ l. x ∷ l) (take-append_exact xs ys n (omega arith))

pub drop-append_exact {ℓ} :
    {A : Type ℓ} (xs ys : List A) (n : ℕ) → length xs ≡ n → drop n (xs ++ ys) ≡ ys
drop-append_exact [] ys zero h = refl
drop-append_exact [] ys (suc n) h = absurd (omega arith)
drop-append_exact (x ∷ xs) ys zero h = absurd (omega arith)
drop-append_exact (x ∷ xs) ys (suc n) h = drop-append_exact xs ys n (omega arith)

module _ (n : ℕ) (xs ys : List ℕ) (closed : Bool) (all : length xs ≡ n) where
  abbrev joined : ByteQueue
  joined = record { bytes = xs ++ ys; is_closed = closed }

  abbrev rest : ByteQueue
  rest = record { bytes = ys; is_closed = closed }

  fits : leb n (length (xs ++ ys)) ≡ true
  fits = ground (arith, length-append xs ys)

  without-rest : without n joined ≡ rest
  without-rest = ap (λ l. record { bytes = l; is_closed = closed }) (drop-append_exact xs ys n all)

  pub skip_many-joined : skip_many n joined ≡ rest
  unfolding skip_many
  skip_many-joined = rw fits without-rest

  pub try_read_from_queue-joined : try_read_from_queue n joined ≡ some (xs, rest)
  unfolding try_read_from_queue
  try_read_from_queue-joined =
      rw (fits, take-append_exact xs ys n all, drop-append_exact xs ys n all) refl

  pub read_from_queue_unsafe-joined : read_from_queue_unsafe n joined ≡ (xs, rest)
  unfolding read_from_queue_unsafe
  read_from_queue_unsafe-joined =
      rw (fits, take-append_exact xs ys n all, drop-append_exact xs ys n all) refl
