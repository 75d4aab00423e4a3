-- ===== src/Book/Tests.antt =====
-- src/book/order_book.cpp: runs of the calls, and the theorems at a small book.
use itch_order_book.Common.{ℕ, ◌≡◌, ◌↔◌, refl, arith, some, none, [], ◌∷◌, word_mod, ◌<◌}
use itch_order_book.Book.{
  buy, sell, OrderBook, lookup, assign, erase, shares_at, add_shares, remove_shares, add_order,
  execute_order, cancel_order, delete_order, replace_order,
}
use itch_order_book.Book.Depth.{depth, IsValid}
use itch_order_book.Book.Calls.{Deepens, Thins, add_order_lem, removal_lem, removal_faults}
use itch_order_book.Book.Exchange.{cancel_order-add_order}

-- two bid levels and one ask level
abbrev sample : OrderBook
sample = record { buys = (100, 5) ∷ (101, 7) ∷ []; sells = (105, 9) ∷ [] }

sample-shown : (p n : ℕ) → lookup p sample.buys ≡ some n → (0 < n) × (n < word_mod)
unfolding lookup
sample-shown p n h = ground arith

sample-IsValid : IsValid sample
unfolding lookup
sample-IsValid = record {
  buys = record { sorted = ((omega arith, tt), (tt, tt)); shown = sample-shown };
  sells = record { sorted = (tt, tt); shown = λ p n h. ground arith };
}

new_level : add_order buy 99 3 sample ≡ record sample { buys = (99, 3) ∷ (100, 5) ∷ (101, 7) ∷ [] }
unfolding add_order add_shares assign shares_at lookup
new_level = refl

level_gone : execute_order sell 105 9 sample ≡ some (record sample { sells = [] })
unfolding execute_order remove_shares erase assign lookup
level_gone = refl

no_level : cancel_order sell 104 1 sample ≡ none
unfolding cancel_order remove_shares lookup
no_level = refl

moved_within : replace_order buy 101 7 100 2 sample ≡ some (record sample { buys = (100, 7) ∷ [] })
unfolding replace_order remove_shares add_shares erase assign shares_at lookup
moved_within = refl

add_order_lem_example : Deepens buy 101 4 sample (add_order buy 101 4 sample)
unfolding depth shares_at lookup
add_order_lem_example = add_order_lem buy 101 4 sample sample-IsValid (omega arith) (omega arith)

removal_lem_example :
    (b : OrderBook) × (execute_order buy 101 6 sample ≡ some b)
    × (cancel_order buy 101 6 sample ≡ some b)
    × (delete_order buy 101 6 sample ≡ some b)
    × Thins buy 101 6 sample b
unfolding depth shares_at lookup
removal_lem_example = removal_lem buy 101 6 sample sample-IsValid (omega arith) (omega arith)

removal_faults_example :
    ((execute_order buy 102 1 sample ≡ none) ↔ (depth sample buy 102 ≡ 0))
    × ((cancel_order buy 102 1 sample ≡ none) ↔ (depth sample buy 102 ≡ 0))
    × ((delete_order buy 102 1 sample ≡ none) ↔ (depth sample buy 102 ≡ 0))
removal_faults_example = removal_faults buy 102 1 sample sample-IsValid

cancel_order-add_order_example : cancel_order buy 99 3 (add_order buy 99 3 sample) ≡ some sample
unfolding depth shares_at lookup
cancel_order-add_order_example =
    cancel_order-add_order buy 99 3 sample sample-IsValid (omega arith) (omega arith)
