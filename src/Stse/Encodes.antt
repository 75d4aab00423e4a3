-- ===== src/Stse/Encodes.antt =====
-- include/stse/detail/serialize.hpp: what the serial form of an object is, and when it
-- is kept.
use native.Mathlib.Nat.{mul-le-mul_left, mul-suc, mul_comm}
use itch_order_book.Common.{
  ℕ, zero, suc, ◌+◌, ◌-◌, ◌*◌, ◌≤◌, ◌<◌, ◌≡◌, ◌⊎◌, refl, ◌∙◌, arith, false,
}
use itch_order_book.Stse.{
  Kind, scalar, container, aggregate, Members, end, member, raw_size, raw_size_members, struct_size,
  Span,
}
use itch_order_book.Stse.Fields.{EndianType, object_bytes}
use itch_order_book.Stse.Bytes.{arranged}

-- the bytes from an index on are the object's fields in order, each scalar with its bytes in the
-- given order; nothing is said of the bytes of ignored members
abbrev mutual
  pub Encodes : EndianType → Kind → ℕ → (ℕ → ℕ) → (ℕ → ℕ) → ℕ → Type 0
  Encodes e (scalar k n) object memory bytes start =
      object_bytes n bytes start ≡ arranged e (object_bytes n memory object)
  Encodes e (container count item) object memory bytes start =
      (i : ℕ)
      → i < count
      → Encodes e item (object + struct_size item * i) memory bytes (start + raw_size item * i)
  Encodes e (aggregate safe size members) object memory bytes start =
      EncodesMembers e members object memory bytes start

  pub EncodesMembers : EndianType → Members → ℕ → (ℕ → ℕ) → (ℕ → ℕ) → ℕ → Type 0
  EncodesMembers e end object memory bytes start = Unit
  EncodesMembers e (member ignored offset kind members) object memory bytes start =
      (ignored ≡ false → Encodes e kind (object + offset) memory bytes start)
      × EncodesMembers e members object memory bytes (start + raw_size kind)

pub object_bytes_pointwise :
    (n : ℕ) (memory memory' : ℕ → ℕ) (a : ℕ)
    → ((j : ℕ) → a ≤ j → j < a + n → memory' j ≡ memory j)
    → object_bytes n memory' a ≡ object_bytes n memory a
unfolding object_bytes
object_bytes_pointwise zero memory memory' a h = refl
object_bytes_pointwise (suc n) memory memory' a h =
    rw
      (
        h a (omega arith) (omega arith),
        object_bytes_pointwise n memory memory' (a + 1)
            (λ j lo hi. h j (omega arith) (omega arith)),
      )
      refl

pub item_inside : (count size i : ℕ) → i < count → size * i + size ≤ count * size
item_inside count size i h =
    let up : size * suc i ≤ size * count = mul-le-mul_left size (omega arith) in
    omega (arith, up, mul-suc size i, mul_comm size count)

-- the serial form depends on its own bytes alone
mutual
  unfolding raw_size

  pub Encodes-frame :
      (e : EndianType) (kind : Kind) (object : ℕ) (memory bytes bytes' : ℕ → ℕ) (start : ℕ)
      → ((j : ℕ) → start ≤ j → j < start + raw_size kind → bytes' j ≡ bytes j)
      → Encodes e kind object memory bytes start
      → Encodes e kind object memory bytes' start
  Encodes-frame e (scalar k n) object memory bytes bytes' start same h =
      object_bytes_pointwise n bytes bytes' start same ∙ h
  Encodes-frame e (container count item) object memory bytes bytes' start same h = λ i lt.
      let fits = item_inside count (raw_size item) i lt in
      Encodes-frame e item (object + struct_size item * i) memory bytes bytes'
        (start + raw_size item * i) (λ j lo hi. same j (omega arith) (omega (arith, fits))) (h i lt)
  Encodes-frame e (aggregate safe size members) object memory bytes bytes' start same h =
      EncodesMembers-frame e members object memory bytes bytes' start same h

  EncodesMembers-frame :
      (e : EndianType) (members : Members) (object : ℕ) (memory bytes bytes' : ℕ → ℕ) (start : ℕ)
      → ((j : ℕ) → start ≤ j → j < start + raw_size_members members → bytes' j ≡ bytes j)
      → EncodesMembers e members object memory bytes start
      → EncodesMembers e members object memory bytes' start
  EncodesMembers-frame e end object memory bytes bytes' start same h = tt
  EncodesMembers-frame e (member ignored offset kind members) object memory bytes bytes' start same
        h =
      (
        λ kept.
            Encodes-frame e kind (object + offset) memory bytes bytes' start
              (λ j lo hi. same j lo (omega arith)) (h.0 kept),
        EncodesMembers-frame e members object memory bytes bytes' (start + raw_size kind)
            (λ j lo hi. same j (omega arith) (omega arith)) h.1,
      )

-- what a write of `n` bytes at the start of a span leaves
pub record Advances (n : ℕ) (d d' : Span) : Type 0 where
  pub start : d'.start ≡ d.start + n
  pub size : d'.size ≡ d.size - n
  pub outside : (j : ℕ) → (j < d.start) ⊎ (d.start + n ≤ j) → d'.bytes j ≡ d.bytes j

pub Advances-trans :
    (n m : ℕ) (d d' d'' : Span) → Advances n d d' → Advances m d' d'' → Advances (n + m) d d''
Advances-trans n m d d' d'' h k = record {
  start = omega (arith, h.start, k.start);
  size = omega (arith, h.size, k.size);
  outside = λ j out. k.outside j (ground (arith, h.start)) ∙ h.outside j (ground arith);
}

pub Advances-zero : (n : ℕ) (d : Span) → n ≡ 0 → Advances n d d
Advances-zero n d e = record {
  start = omega (arith, e);
  size = omega (arith, e);
  outside = λ j out. refl;
}
