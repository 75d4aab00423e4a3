-- ===== src/Feed/Frames.antt =====
-- src/feed/file_source.cpp, include/feed/feed_handler.h: the packets of a whole file, and the
-- behaviour on a truncated one.
use mathlib.Core.List.{append_assoc, append-nil}
use itch_order_book.Common.{
  ℕ, zero, suc, ◌+◌, ◌≤◌, ◌<◌, ◌≡◌, refl, ap, ap₂, sym, ◌∙◌, arith, true, false, some, List, [],
  ◌∷◌, ◌++◌, length, take, drop, replicate, length-append, length-take, take-append-drop, ltb,
  Bool-cases, ltb→lt, ltb→le, inl, inr, ◌⊎◌,
}
use itch_order_book.Messages.Decode.{big_endian}
use itch_order_book.Messages.Endian.{AreBytes, network_value, big_endian-network_value}
use itch_order_book.Spmc.{ProduceResponse, success, failed_buffer_full}
use itch_order_book.Feed.{
  ReadResult, frame, failed, invalid_format, total_packet_size, next, FeedHandler, publish_queue,
  poll, poll_all,
}

-- a packet of a file: its size field and as many bytes as that says
pub record Record : Type 0 where
  pub size : List ℕ
  pub payload : List ℕ

abbrev pub bytes_of : Record → List ℕ
bytes_of r = r.size ++ r.payload

pub record IsRecord (r : Record) : Type 0 where
  pub size_bytes : length r.size ≡ 2
  pub sized : big_endian r.size ≡ length r.payload

abbrev pub AreRecords : List Record → Type 0
AreRecords [] = Unit
AreRecords (r ∷ rs) = IsRecord r × AreRecords rs

abbrev pub file_of : List Record → List ℕ
file_of [] = []
file_of (r ∷ rs) = bytes_of r ++ file_of rs

-- the branches of `next` on a file that is not at its end
next-cases :
    (bytes : List ℕ)
    → 0 < length bytes
    → ((length bytes < total_packet_size bytes) × (next bytes ≡ (failed invalid_format, bytes)))
      ⊎ ((total_packet_size bytes ≤ length bytes)
          × (next bytes ≡ (
            frame (take (total_packet_size bytes) bytes),
            drop (total_packet_size bytes) bytes,
          )))
unfolding next
next-cases [] h = absurd (omega arith)
next-cases (b ∷ bytes) h =
    let ptr = b ∷ bytes in
    elim (Bool-cases (ltb (length ptr) 2)) [
      | inl e ↦ inl (omega (arith, ltb→lt (length ptr) 2 e), rw (next, e) refl)
      | inr e ↦ elim (Bool-cases (ltb (length ptr) (total_packet_size ptr))) [
        | inl f ↦ inl (ltb→lt (length ptr) (total_packet_size ptr) f, rw (next, e, f) refl)
        | inr f ↦ inr (ltb→le (length ptr) (total_packet_size ptr) f, rw (next, e, f) refl)
      ]
    ]

abbrev content : ReadResult → List ℕ
content (frame bytes) = bytes
content (failed f) = []

big_endian-take : (bytes : List ℕ) → AreBytes bytes → big_endian (take 2 bytes) < 65536
unfolding network_value
big_endian-take [] h = rw (big_endian-network_value [] tt) (omega arith)
big_endian-take (a ∷ []) h = rw (big_endian-network_value (a ∷ []) h) (omega (arith, h.0))
big_endian-take (a ∷ b ∷ bytes) h =
    rw (big_endian-network_value (a ∷ b ∷ []) (h.0, (h.1.0, tt))) (omega (arith, h.0, h.1.0))

-- The bytes that `next` returns are the front of the file and the rest is what follows, so that no
-- byte is lost or read twice; a frame has at least its size field and at most 65537 bytes, less
-- than the capacity of the queue.
pub next-splits :
    (bytes read_bytes rest : List ℕ)
    → AreBytes bytes
    → next bytes ≡ (frame read_bytes, rest)
    → (read_bytes ++ rest ≡ bytes) × (2 ≤ length read_bytes) × (length read_bytes ≤ 65537)
unfolding next
next-splits [] f rest h e = absurd (cc e)
next-splits (b ∷ bytes) f rest h e =
    let ptr = b ∷ bytes in
    let n = total_packet_size ptr in
    elim (next-cases ptr (omega arith)) [
      | inl q ↦ absurd (cc (sym q.1 ∙ e))
      | inr q ↦
          let same = sym q.1 ∙ e in
          let front : take n ptr ≡ f = ap (λ x. content x.0) same in
          let back : drop n ptr ≡ rest = ap (λ x. x.1) same in
          let long : length f ≡ n = rw (sym front) (omega (arith, length-take n ptr, q.0)) in
          (
            rw (sym front, sym back) (take-append-drop n ptr),
            omega (arith, long),
            omega (arith, long, big_endian-take ptr h),
          )
    ]

take-all {ℓ} : {A : Type ℓ} (xs ys : List A) (n : ℕ) → n ≡ length xs → take n (xs ++ ys) ≡ xs
take-all [] ys n e = rw e refl
take-all (x ∷ xs) ys n e = rw e (ap (λ l. x ∷ l) (take-all xs ys (length xs) refl))

drop-all {ℓ} : {A : Type ℓ} (xs ys : List A) (n : ℕ) → n ≡ length xs → drop n (xs ++ ys) ≡ ys
drop-all [] ys n e = rw e refl
drop-all (x ∷ xs) ys n e = rw e (drop-all xs ys (length xs) refl)

-- `next` on a file that starts with a whole packet returns that packet and leaves what follows it.
pub next-record :
    (r : Record) (after : List ℕ)
    → IsRecord r
    → next (bytes_of r ++ after) ≡ (frame (bytes_of r), after)
next-record r after h =
    let size : take 2 (bytes_of r ++ after) ≡ r.size =
      rw (append_assoc r.size r.payload after)
        (take-all r.size (r.payload ++ after) 2 (sym h.size_bytes)) in
    let total : total_packet_size (bytes_of r ++ after) ≡ length (bytes_of r) =
      rw size (omega (arith, h.size_bytes, h.sized, length-append r.size r.payload)) in
    let long : length (bytes_of r ++ after) ≡ length (bytes_of r) + length after =
      length-append (bytes_of r) after in
    elim (next-cases (bytes_of r ++ after)
      (omega (arith, long, h.size_bytes, length-append r.size r.payload))) [
        | inl q ↦ absurd (omega (arith, q.0, total, long))
        | inr q ↦
            q.1
            ∙ ap₂ (λ x y. (frame x, y)) (take-all (bytes_of r) after _ total)
                (drop-all (bytes_of r) after _ total)
      ]

-- the responses of a producer that finds the buffer full some times before each success
abbrev pub responses_of : List ℕ → List ProduceResponse
responses_of [] = []
responses_of (k ∷ waits) = replicate k failed_buffer_full ++ success ∷ responses_of waits

publish_queue-waits :
    (k : ℕ) (later : List ProduceResponse)
    → publish_queue (replicate k failed_buffer_full ++ success ∷ later) ≡ some later
unfolding publish_queue
publish_queue-waits zero later = refl
publish_queue-waits (suc k) later = publish_queue-waits k later

poll-record :
    (r : Record) (after out : List ℕ) (k : ℕ) (later : List ProduceResponse)
    → IsRecord r
    → poll
        (replicate k failed_buffer_full ++ success ∷ later)
        (record { source = bytes_of r ++ after; published = out })
      ≡ some (true, later, record { source = after; published = out ++ bytes_of r })
unfolding poll
poll-record r after out k later h =
    rw (poll, next-record r after h, publish_queue-waits k later)
      (ap (λ x. some (true, later, record { source = x.1; published = out ++ bytes_of r }))
        (next-record r after h))

poll_all-again :
    (n : ℕ) (responses later : List ProduceResponse) (h h' : FeedHandler)
    → poll responses h ≡ some (true, later, h')
    → poll_all (suc n) responses h ≡ poll_all n later h'
unfolding poll_all
poll_all-again n responses later h h' e = rw (poll_all, e) refl

-- On a file of whole packets, with a producer that finds the buffer full any number of times before
-- it publishes each packet, the feed's loop ends within one poll more than there are packets, and
-- has published the bytes of the file, all of them and in order.
pub poll_all-file_of :
    (records : List Record) (waits : List ℕ) (out : List ℕ)
    → AreRecords records
    → length waits ≡ length records
    → poll_all
        (length records + 1)
        (responses_of waits)
        (record { source = file_of records; published = out })
      ≡ some (true, [], record { source = []; published = out ++ file_of records })
unfolding poll_all poll next
poll_all-file_of [] [] out h e =
    ap (λ l. some (true, [], record { source = []; published = l })) (sym (append-nil out))
poll_all-file_of [] (k ∷ waits) out h e = absurd (omega arith)
poll_all-file_of (r ∷ records) [] out h e = absurd (omega arith)
poll_all-file_of (r ∷ records) (k ∷ waits) out h e =
    let fuel : suc (length records) + 1 ≡ suc (length records + 1) = omega arith in
    ap
      (λ n.
        poll_all n (responses_of (k ∷ waits))
          (record { source = bytes_of r ++ file_of records; published = out }))
      fuel
    ∙ poll_all-again (length records + 1) (responses_of (k ∷ waits)) (responses_of waits)
        (record { source = bytes_of r ++ file_of records; published = out })
        (record { source = file_of records; published = out ++ bytes_of r })
        (poll-record r (file_of records) out k (responses_of waits) h.0)
    ∙ poll_all-file_of records waits (out ++ bytes_of r) h.1 (omega arith)
    ∙ ap (λ l. some (true, [], record { source = []; published = l }))
        (append_assoc out (bytes_of r) (file_of records))

-- On a file that is cut off within a packet `poll` returns true and changes nothing: however often
-- the feed's loop polls, it does not end.
pub poll_all-truncated :
    (n : ℕ) (responses : List ProduceResponse) (h : FeedHandler)
    → 0 < length h.source
    → length h.source < total_packet_size h.source
    → poll_all n responses h ≡ some (false, responses, h)
unfolding poll_all poll
poll_all-truncated zero responses h some_left cut = refl
poll_all-truncated (suc n) responses h some_left cut = elim (next-cases h.source some_left) [
  | inl q ↦
      poll_all-again n responses responses h h
        (rw (poll, q.1) (ap (λ x. some (true, responses, record h { source = x.1 })) q.1))
      ∙ poll_all-truncated n responses h some_left cut
  | inr q ↦ absurd (omega (arith, q.0))
]
