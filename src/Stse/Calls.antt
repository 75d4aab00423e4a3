-- ===== src/Stse/Calls.antt =====
-- include/stse/stse.hpp: what the calls on several objects do together.
use itch_order_book.Common.{ℕ, ◌+◌, ◌≡◌, ◌⊎◌, Bool, true, List, [], ◌∷◌}
use itch_order_book.Stse.{Kind, raw_size, Span}
use itch_order_book.Stse.Laid.{IsLaid}
use itch_order_book.Stse.Fields.{EndianType}
use itch_order_book.Stse.Bytes.{IsMemory}
use itch_order_book.Stse.Encodes.{Encodes, Advances}
use itch_order_book.Stse.RoundTrip.{copy_fields}
use itch_order_book.Stse.Routes.{is_bit_cast_safe}
use itch_order_book.Stse.Reads.{IsInPlace, replacing}
use itch_order_book.Stse.Api.{Argument, serial_size}

-- an object that is serialized, and the address of the one that it is read back into
pub record Transfer : Type 0 where
  pub kind : Kind
  pub from : ℕ
  pub to : ℕ

abbrev pub sources : List Transfer → List Argument
sources [] = []
sources (t ∷ ts) = record { kind = t.kind; address = t.from } ∷ sources ts

abbrev pub targets : List Transfer → List Argument
targets [] = []
targets (t ∷ ts) = record { kind = t.kind; address = t.to } ∷ targets ts

abbrev pub AreLaidOut : List Transfer → Type 0
AreLaidOut [] = Unit
AreLaidOut (t ∷ ts) = IsLaid t.kind × AreLaidOut ts

-- every object is read in place, or is BitCastSafe
abbrev pub AreRead : Bool → EndianType → List Transfer → Type 0
AreRead consteval e [] = Unit
AreRead consteval e (t ∷ ts) =
    (IsInPlace consteval e ⊎ (is_bit_cast_safe t.kind ≡ true)) × AreRead consteval e ts

-- the assignments of all the objects, one after the other, each of an object that is replaced or of
-- one that is written in place
unfoldable pub copy_each : Bool → List Transfer → (ℕ → ℕ) → (ℕ → ℕ) → ℕ → ℕ
copy_each whole [] memory m = m
copy_each whole (t ∷ ts) memory m =
    copy_each whole ts memory
      (replacing whole t.kind (λ at m'. copy_fields t.kind at t.from memory m') t.to m)

module _ (consteval : Bool) (e : EndianType) (memory : ℕ → ℕ) (is_memory : IsMemory memory) where
  abbrev EncodesEach : List Transfer → (ℕ → ℕ) → ℕ → Type 0
  EncodesEach [] bytes start = Unit
  EncodesEach (t ∷ ts) bytes start =
      Encodes e t.kind t.from memory bytes start × EncodesEach ts bytes (start + raw_size t.kind)

  -- the bytes that the calls write
  record Writes (ts : List Transfer) (d d' : Span) : Type 0 where
    advances : Advances (serial_size (sources ts)) d d'
    encodes : EncodesEach ts d'.bytes d.start
    is_bytes : IsMemory d'.bytes
