-- ===== src/Handler/Market/Refines.antt =====
-- include/market_data/market_data_handler.h: each order message against the list of open orders.
use itch_order_book.Common.{◌≡◌, refl, subst, ◌∙◌, arith, ◌∷◌, inl, inr}
use itch_order_book.Messages.{Stock}
use itch_order_book.Handler.{Orders, ok}
use itch_order_book.Handler.Insert.{open_count-HasRoom}
use itch_order_book.Handler.Adds.{order_in, add_order-Opens, add_order-other}
use itch_order_book.Handler.Fills.{execute_order_lem, cancel_order_lem}
use itch_order_book.Handler.Replaces.{order_after, delete_order_lem, replace_order-Replaces}
use itch_order_book.Handler.Market.{
  Message, Market, act, Changes, opens, other_stock, executes, cancels, deletes, replaces,
}
use itch_order_book.Handler.Market.Laws.{lower_order_all}
use itch_order_book.Handler.Market.Shows.{Shows, Opens-Shows, Lowers-Shows, Replaces-Shows}

-- A message that changes the list of open orders, handled in a state that shows the list, does not
-- fault, and leaves a state that shows the changed list.
pub act-Shows :
    (target : Stock) (message : Message) (m m' : Market) (o : Orders)
    → Changes target message m m'
    → Shows m o
    → (o' : Orders) × (act target message o ≡ ok o') × Shows m' o'
unfolding act
act-Shows target message m m' o (opens {locate} {message = a} same fresh room pos fits) h =
    let (o', run, opened, at) =
      add_order-Opens target locate a o h.consistent same (h.found _ ∙ fresh)
        (open_count-HasRoom o.order_records (omega (arith, h.counts, room))) pos
        (omega (arith, h.depths (order_in a).side a.price, fits)) in
    (
      o',
      run,
      subst
          (λ l.
            Shows
              (record { orders = (a.order_reference_number, order_in a) ∷ m.orders; locate = l })
              o')
          at (Opens-Shows m o o' h a.order_reference_number (order_in a) fresh opened),
    )
act-Shows target message m m' o (other_stock {locate} {message = a} other) h =
    (o, add_order-other target locate a o other, h)
act-Shows target message m m' o (executes {message = a} r there pos le) h =
    let (o', run, lowered) = execute_order_lem o a r h.consistent (h.found _ ∙ there) pos le in
    (o', run, Lowers-Shows m o o' h _ r a.executed_shares there le lowered)
act-Shows target message m m' o (cancels {message = a} r there pos le) h =
    let (o', run, lowered) = cancel_order_lem o a r h.consistent (h.found _ ∙ there) pos le in
    (o', run, Lowers-Shows m o o' h _ r a.cancelled_shares there le lowered)
act-Shows target message m m' o (deletes {message = a} r there) h =
    let (o', run, lowered) = delete_order_lem o a r h.consistent (h.found _ ∙ there) in
    (
      o',
      run,
      subst (λ orders. Shows (record m { orders = orders }) o')
          (lower_order_all a.order_reference_number r m.orders)
          (Lowers-Shows m o o' h _ r r.shares there (omega arith) lowered),
    )
act-Shows target message m m' o (replaces {message = a} r there fresh pos fits) h =
    let (o', run, replaced) =
      replace_order-Replaces o a r h.consistent (h.found _ ∙ there)
        (elim fresh [ inl e ↦ inl e | inr e ↦ inr (h.found _ ∙ e) ]) pos
        (omega (arith, h.depths r.side a.price, fits)) in
    (o', run, Replaces-Shows m o o' h _ r _ (order_after r a) there fresh refl replaced)
