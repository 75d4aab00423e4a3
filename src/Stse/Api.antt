-- ===== src/Stse/Api.antt =====
-- include/stse/stse.hpp: the calls of a client, on any number of objects. A contract that does not
-- hold is `none`.
use itch_order_book.Common.{ℕ, ◌+◌, Bool, Option, none, some, List, [], ◌∷◌, leb, if◌then◌else◌}
use itch_order_book.Stse.{Kind, raw_size, Span}
use itch_order_book.Stse.Routes
use itch_order_book.Stse.Fields.{EndianType, native_endian}

-- an argument of a call: its type and its address
pub record Argument : Type 0 where
  pub kind : Kind
  pub address : ℕ

-- `serial_size_v`
unfoldable pub serial_size : List Argument → ℕ
serial_size [] = 0
serial_size (a ∷ args) = raw_size a.kind + serial_size args

-- the folds of the calls of `detail::serialize` and `detail::deserialize`
unfoldable pub serialize_each : Bool → EndianType → List Argument → (ℕ → ℕ) → Span → Span
serialize_each consteval e [] memory write_ptr = write_ptr
serialize_each consteval e (a ∷ args) memory write_ptr =
    serialize_each consteval e args memory
      (Routes.serialize consteval e a.kind a.address memory write_ptr)

unfoldable pub deserialize_each :
    Bool → EndianType → List Argument → (ℕ → ℕ) × Span → (ℕ → ℕ) × Span
deserialize_each consteval e [] s = s
deserialize_each consteval e (a ∷ parsed) s =
    deserialize_each consteval e parsed (Routes.deserialize consteval e a.kind a.address s)

-- `serialize`: the array, whose bytes are zero at first
unfoldable pub serialize : Bool → EndianType → List Argument → (ℕ → ℕ) → Span
serialize consteval endianness args memory =
    let buffer : Span = record { bytes = λ a. 0; start = 0; size = serial_size args } in
    record buffer { bytes = (serialize_each consteval endianness args memory buffer).bytes }

unfoldable pub serialize_advance : Bool → EndianType → List Argument → (ℕ → ℕ) → Span → Option Span
serialize_advance consteval endianness args memory destination =
    if leb (serial_size args) destination.size
    then some (serialize_each consteval endianness args memory destination)
    else none

-- the memory with the parsed objects, and the rest
unfoldable pub deserialize_advance :
    Bool → EndianType → List Argument → (ℕ → ℕ) → Span → Option ((ℕ → ℕ) × Span)
deserialize_advance consteval endianness parsed memory source =
    if leb (serial_size parsed) source.size
    then some (deserialize_each consteval endianness parsed (memory, source))
    else none

-- `deserialize`: `DeserializeResult`, whose objects are those of a tuple, zero at first
unfoldable pub deserialize : Bool → EndianType → List Argument → Span → Option ((ℕ → ℕ) × Span)
deserialize consteval endianness objects source =
    deserialize_advance consteval endianness objects (λ a. 0) source

-- the calls without a byte order
abbrev pub serialize_native : Bool → List Argument → (ℕ → ℕ) → Span
serialize_native consteval args memory = serialize consteval native_endian args memory

abbrev pub serialize_advance_native : Bool → List Argument → (ℕ → ℕ) → Span → Option Span
serialize_advance_native consteval args memory destination =
    serialize_advance consteval native_endian args memory destination

abbrev pub deserialize_native : Bool → List Argument → Span → Option ((ℕ → ℕ) × Span)
deserialize_native consteval objects source = deserialize consteval native_endian objects source

abbrev pub deserialize_advance_native :
    Bool → List Argument → (ℕ → ℕ) → Span → Option ((ℕ → ℕ) × Span)
deserialize_advance_native consteval parsed memory source =
    deserialize_advance consteval native_endian parsed memory source
