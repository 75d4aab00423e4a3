-- ===== src/Handler/Unknown.antt =====
-- include/market_data/market_data_handler.h: messages on a reference that is not open.
use itch_order_book.Common.{ℕ, ◌≡◌, refl, inl, inr}
use itch_order_book.AddressMap.Probe.{Holds}
use itch_order_book.Messages.{
  OrderExecutedMessage, OrderCancelMessage, OrderDeleteMessage, OrderReplaceMessage,
}
use itch_order_book.Handler.{
  Orders, Run, ◌>>=◌, dereference, execute_order, cancel_order, delete_order, replace_order,
}
use itch_order_book.Handler.Resting.{walk}
use itch_order_book.Handler.Consistent.{IsConsistent}
use itch_order_book.Handler.Lookup.{NullHandle, dereference-undefined}

-- whatever follows, the outcome stays
>>=-NullHandle :
    {A B : Type 0} (o : Orders) (key : ℕ) (r : Run A) (f : A → Run B)
    → NullHandle o key r
    → NullHandle o key (r >>= f)
>>=-NullHandle o key r f (inl (gap, e)) = inl (gap, rw (e, ◌>>=◌) refl)
>>=-NullHandle o key r f (inr (taken, e)) = inr (taken, rw (e, ◌>>=◌) refl)

-- In a consistent state where no slot of the table holds a reference, the execution, the cancel,
-- the delete and the replacement of an order under it never return. Either a slot of the table is
-- free, and each of them dereferences a null handle, which is undefined; or every slot is taken by
-- another order, and each of them throws out of the search.
pub unknown-NullHandle :
    (o : Orders) (key : ℕ)
    → IsConsistent o
    → ((i : ℕ) → ¬ Holds walk o.order_records.table i key)
    → ((message : OrderExecutedMessage)
        → message.order_reference_number ≡ key
        → NullHandle o key (execute_order message o))
      × ((message : OrderCancelMessage)
          → message.order_reference_number ≡ key
          → NullHandle o key (cancel_order message o))
      × ((message : OrderDeleteMessage)
          → message.order_reference_number ≡ key
          → NullHandle o key (delete_order message o))
      × ((message : OrderReplaceMessage)
          → message.original_order_reference_number ≡ key
          → NullHandle o key (replace_order message o))
unfolding execute_order cancel_order delete_order replace_order
unknown-NullHandle o key c absent =
    let fault : (q : ℕ) → q ≡ key → NullHandle o key (dereference q o.order_records) =
      λ q e. rw e (dereference-undefined o key c absent) in
    (
      λ message e.
          >>=-NullHandle o key (dereference message.order_reference_number o.order_records) _
            (fault _ e),
      λ message e.
          >>=-NullHandle o key (dereference message.order_reference_number o.order_records) _
            (fault _ e),
      λ message e.
          >>=-NullHandle o key (dereference message.order_reference_number o.order_records) _
            (fault _ e),
      λ message e.
          >>=-NullHandle o key (dereference message.original_order_reference_number o.order_records)
            _ (fault _ e),
    )
