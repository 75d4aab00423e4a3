-- ===== src/Handler/Replay.antt =====
-- include/market_data/market_data_handler.h, bench/replay.cpp: what a worker does with a feed of
-- whole packets, against a description that knows packets and no queue.
use itch_order_book.Common.{
  ℕ, suc, ◌+◌, ◌≡◌, refl, ap, sym, ◌∙◌, arith, Bool, true, false, none, some, List, [], ◌∷◌, ◌++◌,
  length, if◌then◌else◌, sub64, add64, Bool-cases, Option-cases, inl, inr,
}
use mathlib.Core.List.{append_assoc}
use itch_order_book.Messages.{Stock}
use itch_order_book.Messages.Decode.{header_size, big_endian}
use itch_order_book.Handler.{Run, ok, ◌>>=◌, undefined, saturated, spinning, Orders}
use itch_order_book.Handler.Polling.{
  ByteQueue, MarketDataHandler, simulated, skipped, skip_many, try_read_from_queue, handler_of,
  simulate_message, is_other_stock, settle, poll, poll_all,
}
use itch_order_book.Handler.Framing.{
  Packet, frame, view_of, IsPacket, skip_many-joined, try_read_from_queue-joined,
  read_from_queue_unsafe-joined,
}

-- What `poll` does with a packet once it is framed: it passes over one that its filter or its
-- switch leaves out, and runs the handler of any other on the body and counts it.
unfoldable pub receive : Stock → Packet → ℕ × Orders → Run (ℕ × Orders)
receive target p r =
    if is_other_stock (view_of p) r.1
    then ok r
    else elim (handler_of target (view_of p).stock_locate (view_of p).message_type) [
      | none ↦ ok r
      | some (size, handler) ↦ handler p.body r.1 >>= λ o'. ok (add64 r.0 1, o')
    ]

unfoldable pub receive_all : Stock → List Packet → ℕ × Orders → Run (ℕ × Orders)
receive_all target [] r = ok r
receive_all target (p ∷ ps) r = receive target p r >>= λ r'. receive_all target ps r'

abbrev pub frames : List Packet → List ℕ
frames [] = []
frames (p ∷ ps) = frame p ++ frames ps

abbrev pub ArePackets : Stock → List Packet → Type 0
ArePackets target [] = Unit
ArePackets target (p ∷ ps) = IsPacket target p × ArePackets target ps

-- the handler with this count and these orders, and these bytes to read
abbrev pub handler_at : List ℕ → Bool → ℕ × Orders → MarketDataHandler
handler_at bytes closed r = record {
  message_count = r.0;
  queue = record { bytes = bytes; is_closed = closed };
  orders = r.1;
}

>>=-assoc :
    {A B C : Type 0} (r : Run A) (f : A → Run B) (g : B → Run C)
    → (r >>= f) >>= g ≡ r >>= (λ a. f a >>= g)
>>=-assoc (ok a) f g = refl
>>=-assoc undefined f g = refl
>>=-assoc saturated f g = refl
>>=-assoc spinning f g = refl

module _ (target : Stock) (p : Packet) (h : IsPacket target p) (after : List ℕ) (closed : Bool)
    (r : ℕ × Orders) where
  body_size : sub64 (big_endian p.size) header_size ≡ length p.body
  body_size = omega (arith, h.sized, h.short)

  abbrev behind : ByteQueue
  behind = record { bytes = after; is_closed = closed }

  abbrev before : ByteQueue
  before = record { bytes = p.body ++ after; is_closed = closed }

  parts : frame p ++ after ≡ p.size ++ (p.header ++ (p.body ++ after))
  parts =
      append_assoc p.size (p.header ++ p.body) after
      ∙ ap (λ l. p.size ++ l) (append_assoc p.header p.body after)

  skipped-behind : skip_many (sub64 (big_endian p.size) header_size) before ≡ behind
  skipped-behind = rw body_size (skip_many-joined (length p.body) p.body after closed refl)

  -- the two cases of the switch
  simulate_message-none :
      handler_of target (view_of p).stock_locate (view_of p).message_type ≡ none
      → simulate_message target (view_of p).message_type (view_of p).stock_locate before r.1
        ≡ ok (skipped, before, r.1)
  unfolding simulate_message
  simulate_message-none e = rw (simulate_message, e) refl

  simulate_message-some :
      (size : ℕ) (handler : List ℕ → Orders → Run Orders)
      → handler_of target (view_of p).stock_locate (view_of p).message_type ≡ some (size, handler)
      → simulate_message target (view_of p).message_type (view_of p).stock_locate before r.1
        ≡ handler p.body r.1 >>= λ o'. ok (simulated, behind, o')
  unfolding simulate_message
  simulate_message-some size handler e =
      rw
        (
          simulate_message,
          e,
          read_from_queue_unsafe-joined size p.body after closed (h.typed size handler e),
        )
        refl

  described : Run (ℕ × Orders)
  described = elim (handler_of target (view_of p).stock_locate (view_of p).message_type) [
    | none ↦ ok r
    | some (size, handler) ↦ handler p.body r.1 >>= λ o'. ok (add64 r.0 1, o')
  ]

  simulated-described :
      simulate_message target (view_of p).message_type (view_of p).stock_locate before r.1 >>= (λ x.
        ok (
          settle
            (handler_at (frame p ++ after) closed r)
            (sub64 (big_endian p.size) header_size)
            x))
      ≡ described >>= λ r'. ok (true, handler_at after closed r')
  unfolding described
  simulated-described =
      elim (Option-cases (handler_of target (view_of p).stock_locate (view_of p).message_type)) [
        | inl e ↦ rw (simulate_message-none e, described, e, skipped-behind) refl
        | inr ((size, handler), e) ↦
            rw (simulate_message-some size handler e, described, e)
              (>>=-assoc (handler p.body r.1) _ _ ∙ sym (>>=-assoc (handler p.body r.1) _ _))
      ]

  -- Where the queue starts with a whole packet, `poll` reads exactly that packet, acts on it as its
  -- description says, and asks to be called again.
  pub poll-receive :
      poll target (handler_at (frame p ++ after) closed r)
      ≡ receive target p r >>= λ r'. ok (true, handler_at after closed r')
  unfolding poll receive described
  poll-receive =
      rw
        (
          poll,
          receive,
          parts,
          try_read_from_queue-joined 2 p.size (p.header ++ (p.body ++ after)) closed h.size_bytes,
          read_from_queue_unsafe-joined header_size p.header (p.body ++ after) closed
              h.header_bytes,
        )
        (elim (Bool-cases (is_other_stock (view_of p) r.1)) [
          | inl e ↦ rw (e, skipped-behind) refl
          | inr e ↦ rw e simulated-described
        ])

poll-closed :
    (target : Stock) (r : ℕ × Orders)
    → poll target (handler_at [] true r) ≡ ok (false, handler_at [] true r)
unfolding poll try_read_from_queue
poll-closed target r = refl

pub >>=-pointwise :
    {A B : Type 0} (r : Run A) (f g : A → Run B) → ((a : A) → f a ≡ g a) → r >>= f ≡ r >>= g
>>=-pointwise (ok a) f g e = e a
>>=-pointwise undefined f g e = refl
>>=-pointwise saturated f g e = refl
>>=-pointwise spinning f g e = refl

poll_all-suc :
    (target : Stock) (n : ℕ) (h : MarketDataHandler) (run : Run (ℕ × Orders))
    (k : ℕ × Orders → MarketDataHandler)
    → poll target h ≡ run >>= (λ r. ok (true, k r))
    → poll_all target (suc n) h ≡ run >>= (λ r. poll_all target n (k r))
unfolding poll_all
poll_all-suc target n h run k e = rw (poll_all, e) (>>=-assoc run _ _)

-- On a closed queue of whole packets the worker's loop ends within one poll more than there are
-- packets, with the queue empty; it has acted on the packets in order, each as its description
-- says.
pub poll_all-receive_all :
    (target : Stock) (ps : List Packet) (r : ℕ × Orders)
    → ArePackets target ps
    → poll_all target (length ps + 1) (handler_at (frames ps) true r)
      ≡ receive_all target ps r >>= λ r'. ok (true, handler_at [] true r')
unfolding poll_all receive_all
poll_all-receive_all target [] r h = rw (poll-closed target r) refl
poll_all-receive_all target (p ∷ ps) r h =
    let fuel : suc (length ps) + 1 ≡ suc (length ps + 1) = omega arith in
    ap (λ n. poll_all target n (handler_at (frame p ++ frames ps) true r)) fuel
    ∙ poll_all-suc target (length ps + 1) _ (receive target p r) _
        (poll-receive target p h.0 (frames ps) true r)
    ∙ >>=-pointwise (receive target p r) _ _ (λ r'. poll_all-receive_all target ps r' h.1)
    ∙ sym (>>=-assoc (receive target p r) _ _)
