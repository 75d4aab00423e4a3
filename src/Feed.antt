-- ===== src/Feed.antt =====
-- include/feed/, src/feed/file_source.cpp: the packets of a file, published one by one. The mapped
-- file is the list of its bytes; opening and mapping it are not modelled.
pub mod Frames
mod Tests
use itch_order_book.Common.{
  ℕ, zero, suc, ◌+◌, Bool, true, false, Option, none, some, List, [], ◌∷◌, ◌++◌, length, take, drop,
  ltb, if◌then◌else◌,
}
use itch_order_book.Messages.Decode.{big_endian}
use itch_order_book.Spmc.{ProduceResponse, success, failed_buffer_full, failed_payload_too_large}

pub data DataReadFailure : Type 0 where
  invalid_format stream_closed : DataReadFailure

-- `ReadResult`
pub data ReadResult : Type 0 where
  frame : List ℕ → ReadResult
  failed : DataReadFailure → ReadResult

-- `sizeof(nasdaq::PacketSize)`
abbrev pub size_of_packet_size : ℕ
size_of_packet_size = 2

-- `total_packet_size`
abbrev pub total_packet_size : List ℕ → ℕ
total_packet_size bytes = size_of_packet_size + big_endian (take size_of_packet_size bytes)

-- `FileSource::next` on the bytes of `ptr_`: its result, and `ptr_` after it
unfoldable pub next : List ℕ → ReadResult × List ℕ
next [] = (failed stream_closed, [])
next (b ∷ bytes) =
    let ptr = b ∷ bytes in
    if ltb (length ptr) size_of_packet_size
    then (failed invalid_format, ptr)
    else if ltb (length ptr) (total_packet_size ptr)
    then (failed invalid_format, ptr)
    else (frame (take (total_packet_size ptr) ptr), drop (total_packet_size ptr) ptr)

-- the source, and all that the producer has published
pub record FeedHandler : Type 0 where
  pub source : List ℕ
  pub published : List ℕ

-- `while (try_push_many(next_frame) != SUCCESS)`, over the responses that it gets: those after the
-- first success, or none if there is no success
unfoldable pub publish_queue : List ProduceResponse → Option (List ProduceResponse)
publish_queue [] = none
publish_queue (success ∷ responses) = some responses
publish_queue (failed_buffer_full ∷ responses) = publish_queue responses
publish_queue (failed_payload_too_large ∷ responses) = publish_queue responses

-- `check_stream_closed`: whether the result has a value
abbrev pub check_stream_closed : DataReadFailure → Bool
check_stream_closed stream_closed = false
check_stream_closed invalid_format = true

-- `poll`: whether to poll again, the responses still to come and the state; none where the loop of
-- `publish_queue` does not end
unfoldable pub poll :
    List ProduceResponse → FeedHandler → Option (Bool × List ProduceResponse × FeedHandler)
poll responses h =
    let (result, source) = next h.source in
    elim result [
      | failed failure ↦ some (check_stream_closed failure, responses, record h { source = source })
      | frame bytes ↦ elim (publish_queue responses) [
        | none ↦ none
        | some later ↦
            some (true, later, record { source = source; published = h.published ++ bytes })
      ]
    ]

-- `while (feed_handler.poll())`, for at most the given number of polls: whether it has ended
unfoldable pub poll_all :
    ℕ → List ProduceResponse → FeedHandler → Option (Bool × List ProduceResponse × FeedHandler)
poll_all zero responses h = some (false, responses, h)
poll_all (suc n) responses h = elim (poll responses h) [
  | none ↦ none
  | some (again, later, h') ↦
      let rest = poll_all n later h' in if again then rest else some (true, later, h')
]
