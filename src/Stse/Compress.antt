-- ===== src/Stse/Compress.antt =====
-- include/stse/detail/layout.hpp: copying by the compressed layout.
use itch_order_book.Common.{
  ℕ, zero, suc, ◌+◌, ◌≡◌, refl, ap, arith, true, false, List, [], ◌∷◌, ◌==◌, ◌&&◌, Bool-cases, inl,
  inr,
}
use itch_order_book.Stse.{
  Kind, struct_size, Span, ByteRange, enumerate_object, compress_from, compress_layout,
  build_sequence, constexpr_memcpy, read_bytes, write_bytes, deserialize_flat, serialize_flat,
}

-- two copies side by side are one
memcpy-add :
    (to from n m : ℕ) (source destination : ℕ → ℕ)
    → constexpr_memcpy to from (n + m) source destination
      ≡ constexpr_memcpy
          (to + n)
          (from + n)
          m
          source
          (constexpr_memcpy to from n source destination)
unfolding constexpr_memcpy
memcpy-add to from n zero source destination =
    ap (λ k. constexpr_memcpy to from k source destination) (omega arith)
memcpy-add to from n (suc m) source destination =
    let e : n + suc m ≡ suc (n + m) = omega arith in
    let a : to + (n + m) ≡ to + n + m = omega arith in
    let b : from + (n + m) ≡ from + n + m = omega arith in
    rw (e, memcpy-add to from n m source destination, a, b) refl

-- the test for a range that continues the last one
pub continues :
    (back r : ByteRange)
    → ((r.struct_offset == back.struct_offset + back.count)
          && (r.wire_offset == back.wire_offset + back.count)
        ≡ true)
    → (r.struct_offset ≡ back.struct_offset + back.count)
      × (r.wire_offset ≡ back.wire_offset + back.count)
continues back r e = ground arith

further : (base offset count : ℕ) → base + (offset + count) ≡ base + offset + count
further base offset count = omega arith

-- the ranges are those of an object at an address, and of a serial form with a start
module _ (object start : ℕ) (source : ℕ → ℕ) where
  read_bytes-compress_from :
      (back : ByteRange) (ranges : List ByteRange) (size : ℕ) (memory : ℕ → ℕ)
      → let s : Span = record { bytes = source; start = start; size = size } in
        read_bytes (compress_from back ranges) object s memory
        ≡ read_bytes (back ∷ ranges) object s memory
  unfolding compress_from read_bytes
  read_bytes-compress_from back [] size memory = refl
  read_bytes-compress_from back (r ∷ ranges) size memory =
      elim (Bool-cases (
        (r.struct_offset == back.struct_offset + back.count)
        && (r.wire_offset == back.wire_offset + back.count))) [
          | inl e ↦
              let c = continues back r e in
              rw
                (
                  compress_from,
                  e,
                  read_bytes-compress_from _ ranges size memory,
                  c.0,
                  c.1,
                  further object back.struct_offset back.count,
                  further start back.wire_offset back.count,
                  memcpy-add (object + back.struct_offset) (start + back.wire_offset) back.count
                      r.count source memory,
                )
                refl
          | inr e ↦ rw (compress_from, e) (read_bytes-compress_from r ranges size _)
        ]

  write_bytes-compress_from :
      (back : ByteRange) (ranges : List ByteRange) (bytes : ℕ → ℕ)
      → write_bytes (compress_from back ranges) object source start bytes
        ≡ write_bytes (back ∷ ranges) object source start bytes
  unfolding compress_from write_bytes
  write_bytes-compress_from back [] bytes = refl
  write_bytes-compress_from back (r ∷ ranges) bytes =
      elim (Bool-cases (
        (r.struct_offset == back.struct_offset + back.count)
        && (r.wire_offset == back.wire_offset + back.count))) [
          | inl e ↦
              let c = continues back r e in
              rw
                (
                  compress_from,
                  e,
                  write_bytes-compress_from _ ranges bytes,
                  c.0,
                  c.1,
                  further object back.struct_offset back.count,
                  further start back.wire_offset back.count,
                  memcpy-add (start + back.wire_offset) (object + back.struct_offset) back.count
                      r.count source bytes,
                )
                refl
          | inr e ↦ rw (compress_from, e) (write_bytes-compress_from r ranges _)
        ]

pub read_bytes-compress_layout :
    (ranges : List ByteRange) (object : ℕ) (source : Span) (memory : ℕ → ℕ)
    → read_bytes (compress_layout ranges) object source memory
      ≡ read_bytes ranges object source memory
unfolding compress_layout
read_bytes-compress_layout [] object source memory = refl
read_bytes-compress_layout (r ∷ ranges) object source memory =
    read_bytes-compress_from object source.start source.bytes r ranges source.size memory

pub write_bytes-compress_layout :
    (ranges : List ByteRange) (object : ℕ) (memory : ℕ → ℕ) (start : ℕ) (bytes : ℕ → ℕ)
    → write_bytes (compress_layout ranges) object memory start bytes
      ≡ write_bytes ranges object memory start bytes
unfolding compress_layout
write_bytes-compress_layout [] object memory start bytes = refl
write_bytes-compress_layout (r ∷ ranges) object memory start bytes =
    write_bytes-compress_from object start memory r ranges bytes

-- For every type, object, source and destination, the copies by the compressed layout, which
-- `deserialize_flat` and `serialize_flat` make, give the same memory, byte for byte, as copying
-- each scalar by itself: `deserialize_flat` into the object at run time, and at compile time into
-- an object of zeros, which then replaces the whole object.
pub compress_layout-copies :
    (kind : Kind) (object : ℕ) (memory : ℕ → ℕ) (span : Span)
    → ((deserialize_flat false kind object span memory).0
        ≡ read_bytes (enumerate_object kind 0 0) object span memory)
      × ((deserialize_flat true kind object span memory).0
          ≡ constexpr_memcpy object 0
              (struct_size kind)
              (read_bytes (enumerate_object kind 0 0) 0 span (λ a. 0))
              memory)
      × ((serialize_flat kind object memory span).bytes
          ≡ write_bytes (enumerate_object kind 0 0) object memory span.start span.bytes)
unfolding deserialize_flat serialize_flat build_sequence
compress_layout-copies kind object memory span = (
  read_bytes-compress_layout (enumerate_object kind 0 0) object span memory,
  ap (λ raw_bytes. constexpr_memcpy object 0 (struct_size kind) raw_bytes memory)
      (read_bytes-compress_layout (enumerate_object kind 0 0) 0 span (λ a. 0)),
  write_bytes-compress_layout (enumerate_object kind 0 0) object memory span.start span.bytes,
)
