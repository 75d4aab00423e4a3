-- ===== src/Feed/Tests.antt =====
-- src/feed/file_source.cpp, include/feed/feed_handler.h: runs on small files.
use itch_order_book.Common.{
  ℕ, ◌≤◌, ◌≡◌, refl, arith, true, false, some, List, [], ◌∷◌, ◌++◌, length,
}
use itch_order_book.Messages.Decode.{big_endian, raw_value, byteswap}
use itch_order_book.Feed.{next, poll_all, FeedHandler}
use itch_order_book.Feed.Frames.{
  Record, IsRecord, file_of, responses_of, next-splits, poll_all-file_of, poll_all-truncated,
}

abbrev three_bytes : Record
three_bytes = record { size = 0 ∷ 3 ∷ []; payload = 7 ∷ 8 ∷ 9 ∷ [] }

abbrev one_byte : Record
one_byte = record { size = 0 ∷ 1 ∷ []; payload = 4 ∷ [] }

three_bytes-IsRecord : IsRecord three_bytes
unfolding big_endian raw_value byteswap
three_bytes-IsRecord = record { size_bytes = refl; sized = refl }

one_byte-IsRecord : IsRecord one_byte
unfolding big_endian raw_value byteswap
one_byte-IsRecord = record { size_bytes = refl; sized = refl }

abbrev first_bytes : List ℕ
first_bytes = 0 ∷ 1 ∷ 4 ∷ []

abbrev last_byte : List ℕ
last_byte = 5 ∷ []

next-splits_example :
    (first_bytes ++ last_byte ≡ 0 ∷ 1 ∷ 4 ∷ 5 ∷ [])
    × (2 ≤ length first_bytes)
    × (length first_bytes ≤ 65537)
unfolding next big_endian raw_value byteswap
next-splits_example =
    next-splits (0 ∷ 1 ∷ 4 ∷ 5 ∷ []) first_bytes last_byte
      (omega arith, (omega arith, (omega arith, (omega arith, tt)))) refl

poll_all-file_of_example :
    poll_all 3
      (responses_of (2 ∷ 0 ∷ []))
      (record { source = file_of (three_bytes ∷ one_byte ∷ []); published = [] })
    ≡ some (true, [], record { source = []; published = file_of (three_bytes ∷ one_byte ∷ []) })
poll_all-file_of_example =
    poll_all-file_of (three_bytes ∷ one_byte ∷ []) (2 ∷ 0 ∷ []) []
      (three_bytes-IsRecord, (one_byte-IsRecord, tt)) refl

-- a file that ends within its only packet
abbrev cut_off : FeedHandler
cut_off = record { source = 0 ∷ 3 ∷ 7 ∷ []; published = [] }

poll_all-truncated_example : poll_all 100 [] cut_off ≡ some (false, [], cut_off)
unfolding big_endian raw_value byteswap
poll_all-truncated_example = poll_all-truncated 100 [] cut_off (omega arith) (omega arith)
