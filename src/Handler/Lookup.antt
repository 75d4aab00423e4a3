-- ===== src/Handler/Lookup.antt =====
-- include/market_data/market_data_handler.h: `*order_records_.find(reference)` on a consistent
-- state.
use itch_order_book.Common.{
  ℕ, ◌≤◌, ◌<◌, ◌≡◌, ◌⊎◌, sym, ◌∙◌, ap, subst, arith, some, word_mod, Option-cases, inl, inr,
}
use mathlib.Core.Option.{some-injective}
use itch_order_book.Book.{Side, OrderBook, shares_at, lookup, get_order_side}
use itch_order_book.Book.Depth
use itch_order_book.Book.Depth.{depth, side-IsLevels}
use itch_order_book.AddressMap.{OpenAddressMap}
use itch_order_book.AddressMap.Probe.{Holds, AllTaken}
use itch_order_book.AddressMap.Valid.{IsTable}
use itch_order_book.AddressMap.Find.{HasFree}
use itch_order_book.AddressMap.Contract.{present, missing, full, find_lem, IsTable-same, view-same}
use itch_order_book.Handler.{OrderRecord, Orders, dereference, Run, ok, undefined}
use itch_order_book.Handler.Resting.{walk, order_of, resting, open_count}
use itch_order_book.Handler.Consistent.{IsConsistent, AllOpen, shares-le-depth}

-- a table with the same slots, and the slot of an open order in it
pub record Finds (o : Orders) (key : ℕ) (r : OrderRecord) (i : ℕ)
    (found : OpenAddressMap OrderRecord) : Type 0 where
  pub runs : dereference key o.order_records ≡ ok (i, found)
  pub table : IsTable walk found.table
  pub holds : Holds walk found.table i key
  pub value : (found.table i).value ≡ r
  pub live : AllOpen found
  pub agrees : (s : Side) (p : ℕ) → depth o.order_book s p ≡ resting s p found.table
  pub orders : (q : ℕ) → order_of found q ≡ order_of o.order_records q
  pub counts : open_count found.table ≡ open_count o.order_records.table
  pub enough : r.shares ≤ depth o.order_book r.side r.price
  pub positive : 0 < r.shares

pub depth-lt : (b : OrderBook) (s : Side) (p : ℕ) → Depth.IsValid b → depth b s p < word_mod
unfolding depth shares_at
depth-lt b s p v = elim (Option-cases (lookup p (get_order_side s b))) [
  | inl e ↦ rw (e, shares_at) (omega arith)
  | inr (n, e) ↦ rw (e, shares_at) ((side-IsLevels s b v).shown p n e).1
]

same-Finds :
    (o : Orders) (key : ℕ) (r : OrderRecord) (i : ℕ) (found : OpenAddressMap OrderRecord)
    → IsConsistent o
    → dereference key o.order_records ≡ ok (i, found)
    → found.table ≡ o.order_records.table
    → Holds walk o.order_records.table i key
    → (o.order_records.table i).value ≡ r
    → Finds o key r i found
same-Finds o key r i found c e same h there = record {
  runs = e;
  table = IsTable-same walk o.order_records found same c.table;
  holds = subst (λ t. Holds walk t i key) (sym same) h;
  value = ap (λ t. (t i).value) same ∙ there;
  live = λ j q g. rw same (c.live j q (subst (λ t. Holds walk t j q) same g));
  agrees = λ s p. c.agrees s p ∙ ap (resting s p) (sym same);
  orders = λ q. view-same walk o.order_records found q same c.table;
  counts = ap open_count same;
  enough =
      subst (λ (x : OrderRecord). x.shares ≤ depth o.order_book x.side x.price) there
        (shares-le-depth o i key c h);
  positive = subst (λ (x : OrderRecord). 0 < x.shares) there (c.live i key h);
}

-- In a consistent state the handle of an open order is not null, and its slot holds the order.
pub dereference_lem :
    (o : Orders) (key : ℕ) (r : OrderRecord)
    → IsConsistent o
    → order_of o.order_records key ≡ some r
    → (i : ℕ) × (found : OpenAddressMap OrderRecord) × Finds o key r i found
unfolding dereference
dereference_lem o key r c e = elim (find_lem walk o.order_records key c.table) [
  | full run a no_slot nothing ↦ cc
  | missing m' run same no_slot gap nothing ↦ cc
  | present i m' run same h there ↦ (
    i,
    m',
    same-Finds o key r i m' c (rw (run, dereference)) same h (some-injective _ _ (sym there ∙ e)),
  )
]

-- what comes of dereferencing the handle of a reference under which no order is open: undefined
-- behaviour, where a slot of the table is free; the exception, where each is taken by another order
abbrev pub NullHandle {ℓ} : {A : Type ℓ} → Orders → ℕ → Run A → Type ℓ
NullHandle o key r =
    (HasFree walk o.order_records.table × (r ≡ undefined))
    ⊎ (AllTaken walk o.order_records.table key × (r ≡ Run.saturated))

-- The handle of an order that no slot holds is null: dereferencing it is undefined, unless the
-- search throws because the table is full.
pub dereference-undefined :
    (o : Orders) (key : ℕ)
    → IsConsistent o
    → ((i : ℕ) → ¬ Holds walk o.order_records.table i key)
    → NullHandle o key (dereference key o.order_records)
unfolding dereference
dereference-undefined o key c absent = elim (find_lem walk o.order_records key c.table) [
  | full run a no_slot nothing ↦ inr (a, rw (run, dereference))
  | missing m' run same no_slot gap nothing ↦ inl (gap, rw (run, dereference))
  | present i m' run same h there ↦ absurd (absent i h)
]
