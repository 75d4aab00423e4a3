-- ===== src/Messages/Deserialize.antt =====
-- include/market_data/messages.h: the decoders of messages against `stse::deserialize_advance`.
use itch_order_book.Common.{ℕ, ◌≡◌, refl, List}
use itch_order_book.Stse.{
  raw_size, struct_size, enumerate_object, enumerate_items, compress_layout, compress_from,
  build_sequence, constexpr_memcpy, read_bytes, deserialize_flat,
}
use itch_order_book.Stse.Fields.{object_bytes}
use itch_order_book.Stse.Routes.{deserialize}
use itch_order_book.Stse.Reflect.{has_annotation, Reflected, kind_of}
use itch_order_book.Messages.Decode.{
  decode_header, decode_add_order, decode_order_executed, decode_order_cancel, decode_order_delete,
  decode_order_replace,
}
use itch_order_book.Messages.Layouts.{
  header_view_type, add_order_type, add_order_mpid_type, order_executed_type,
  order_executed_with_price_type, order_cancel_type, order_delete_type, order_replace_type,
  header_view, add_order, order_executed, order_cancel, order_delete, order_replace, object_of,
}

-- what a handler reads of an object of a type, once it is deserialized, is what the decoder of its
-- bytes gives, whose number is the size of the serial form
abbrev pub Decodes {ℓ} :
    {M : Type ℓ} → Reflected → ℕ → ((ℕ → ℕ) → M) → (List ℕ → M) → (ℕ → ℕ) → (ℕ → ℕ) → Type ℓ
Decodes type n read decode buffer object =
    (raw_size (kind_of type) ≡ n)
    × (read (object_of type n buffer object) ≡ decode (object_bytes n buffer 0))

header_view-Decodes :
    (buffer object : ℕ → ℕ) → Decodes header_view_type 11 header_view decode_header buffer object
unfolding header_view_type header_view decode_header deserialize deserialize_flat kind_of
    build_sequence compress_layout compress_from enumerate_object enumerate_items raw_size
    struct_size read_bytes constexpr_memcpy object_bytes has_annotation
header_view-Decodes buffer object = (refl, refl)

add_order-Decodes :
    (buffer object : ℕ → ℕ) → Decodes add_order_type 25 add_order decode_add_order buffer object
unfolding add_order_type add_order decode_add_order deserialize deserialize_flat kind_of
    build_sequence compress_layout compress_from enumerate_object enumerate_items raw_size
    struct_size read_bytes constexpr_memcpy object_bytes has_annotation
add_order-Decodes buffer object = (refl, refl)

add_order_mpid-Decodes :
    (buffer object : ℕ → ℕ)
    → Decodes add_order_mpid_type 29 add_order decode_add_order buffer object
unfolding add_order_mpid_type add_order decode_add_order deserialize deserialize_flat kind_of
    build_sequence compress_layout compress_from enumerate_object enumerate_items raw_size
    struct_size read_bytes constexpr_memcpy object_bytes has_annotation
add_order_mpid-Decodes buffer object = (refl, refl)

order_executed-Decodes :
    (buffer object : ℕ → ℕ)
    → Decodes order_executed_type 20 order_executed decode_order_executed buffer object
unfolding order_executed_type order_executed decode_order_executed deserialize deserialize_flat
    kind_of build_sequence compress_layout compress_from enumerate_object enumerate_items raw_size
    struct_size read_bytes constexpr_memcpy object_bytes has_annotation
order_executed-Decodes buffer object = (refl, refl)

order_executed_with_price-Decodes :
    (buffer object : ℕ → ℕ)
    → Decodes order_executed_with_price_type 25 order_executed decode_order_executed buffer object
unfolding order_executed_with_price_type order_executed decode_order_executed deserialize
    deserialize_flat kind_of build_sequence compress_layout compress_from enumerate_object
    enumerate_items raw_size struct_size read_bytes constexpr_memcpy object_bytes has_annotation
order_executed_with_price-Decodes buffer object = (refl, refl)

order_cancel-Decodes :
    (buffer object : ℕ → ℕ)
    → Decodes order_cancel_type 12 order_cancel decode_order_cancel buffer object
unfolding order_cancel_type order_cancel decode_order_cancel deserialize deserialize_flat kind_of
    build_sequence compress_layout compress_from enumerate_object enumerate_items raw_size
    struct_size read_bytes constexpr_memcpy object_bytes has_annotation
order_cancel-Decodes buffer object = (refl, refl)

order_delete-Decodes :
    (buffer object : ℕ → ℕ)
    → Decodes order_delete_type 8 order_delete decode_order_delete buffer object
unfolding order_delete_type order_delete decode_order_delete deserialize deserialize_flat kind_of
    build_sequence compress_layout compress_from enumerate_object enumerate_items raw_size
    struct_size read_bytes constexpr_memcpy object_bytes has_annotation
order_delete-Decodes buffer object = (refl, refl)

order_replace-Decodes :
    (buffer object : ℕ → ℕ)
    → Decodes order_replace_type 24 order_replace decode_order_replace buffer object
unfolding order_replace_type order_replace decode_order_replace deserialize deserialize_flat kind_of
    build_sequence compress_layout compress_from enumerate_object enumerate_items raw_size
    struct_size read_bytes constexpr_memcpy object_bytes has_annotation
order_replace-Decodes buffer object = (refl, refl)

-- For each type of message and for the header, and whatever the buffer and the object hold: the
-- serial form has as many bytes as the handler reads from the queue for it, and the members that
-- the handler reads from the deserialized object are those that its decoder takes from the bytes.
pub decode-deserialize :
    (buffer object : ℕ → ℕ)
    → (Decodes header_view_type 11 header_view decode_header buffer object)
      × (Decodes add_order_type 25 add_order decode_add_order buffer object)
      × (Decodes add_order_mpid_type 29 add_order decode_add_order buffer object)
      × (Decodes order_executed_type 20 order_executed decode_order_executed buffer object)
      × (Decodes order_executed_with_price_type 25 order_executed decode_order_executed buffer
          object)
      × (Decodes order_cancel_type 12 order_cancel decode_order_cancel buffer object)
      × (Decodes order_delete_type 8 order_delete decode_order_delete buffer object)
      × (Decodes order_replace_type 24 order_replace decode_order_replace buffer object)
decode-deserialize buffer object = (
  header_view-Decodes buffer object,
  add_order-Decodes buffer object,
  add_order_mpid-Decodes buffer object,
  order_executed-Decodes buffer object,
  order_executed_with_price-Decodes buffer object,
  order_cancel-Decodes buffer object,
  order_delete-Decodes buffer object,
  order_replace-Decodes buffer object,
)
