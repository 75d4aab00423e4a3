-- ===== src/Stse/Serializable.antt =====
-- include/stse/detail/concepts.hpp: what the concepts Serializable and BitCastSafe promise.
use itch_order_book.Common.{
  ◌≡◌, refl, sym, ap, ◌∙◌, arith, Bool, true, false, some, if◌then◌else◌, Bool-cases, inl, inr,
}
use mathlib.Core.Option.{some-injective}
use itch_order_book.Stse.Routes.{is_bit_cast_safe}
use itch_order_book.Stse.{Kind, scalar, container, aggregate, Members, end, member}
use itch_order_book.Stse.Reflect.{
  skipserialization, ignoreserialization, has_annotation, Reflected, scalar_type, array_type,
  class_type, Bases, no_bases, base, DataMembers, no_members, data_member, is_trivially_copyable,
  has_no_pointer, is_pointer, is_null_pointer, not_serializable, is_serializable,
  are_serializable_parents, is_serializable_parent, are_serializable, has_pointer_member,
  parents_have_pointer, parent_has_pointer, members_have_pointer, kind_of, kinds_of_parents,
  kinds_of_parent, kinds_of,
}

-- no scalar that is copied is a pointer or a null pointer
abbrev mutual
  pub IsPlain : Kind → Type 0
  IsPlain (scalar k n) = (is_pointer k ≡ false) × (is_null_pointer k ≡ false)
  IsPlain (container count item) = IsPlain item
  IsPlain (aggregate safe size members) = ArePlain members

  pub ArePlain : Members → Type 0
  ArePlain end = Unit
  ArePlain (member ignored offset kind members) =
      (ignored ≡ false → IsPlain kind) × ArePlain members

-- no member, at any depth, is skipped or ignored
abbrev mutual
  pub IsUnmarked : Reflected → Type 0
  IsUnmarked (scalar_type k n) = Unit
  IsUnmarked (array_type count item) = IsUnmarked item
  IsUnmarked (class_type traits size bases members) = AreUnmarkedBases bases × AreUnmarked members

  pub AreUnmarkedBases : Bases → Type 0
  AreUnmarkedBases no_bases = Unit
  AreUnmarkedBases (base parent bases) = IsUnmarked parent × AreUnmarkedBases bases

  pub AreUnmarked : DataMembers → Type 0
  AreUnmarked no_members = Unit
  AreUnmarked (data_member annotations offset type members) =
      (has_annotation skipserialization annotations ≡ false)
      × (has_annotation ignoreserialization annotations ≡ false)
      × IsUnmarked type
      × AreUnmarked members

mutual
  unfolding is_serializable not_serializable kind_of

  kind_of-IsPlain : (type : Reflected) → is_serializable type ≡ true → IsPlain (kind_of type)
  kind_of-IsPlain (scalar_type k n) h = ground arith
  kind_of-IsPlain (array_type count item) h = kind_of-IsPlain item (ground arith)
  kind_of-IsPlain (class_type traits size bases members) h =
      kinds_of_parents-ArePlain bases (kinds_of members end) (ground arith)
        (kinds_of-ArePlain members end (ground arith) tt)

  kinds_of_parents-ArePlain :
      (bases : Bases) (more : Members)
      → are_serializable_parents bases ≡ true
      → ArePlain more
      → ArePlain (kinds_of_parents bases more)
  kinds_of_parents-ArePlain no_bases more h k = k
  kinds_of_parents-ArePlain (base parent bases) more h k =
      kinds_of_parent-ArePlain parent (kinds_of_parents bases more) (ground arith)
        (kinds_of_parents-ArePlain bases more (ground arith) k)

  kinds_of_parent-ArePlain :
      (parent : Reflected) (more : Members)
      → is_serializable_parent parent ≡ true
      → ArePlain more
      → ArePlain (kinds_of_parent parent more)
  kinds_of_parent-ArePlain (scalar_type k n) more h p = p
  kinds_of_parent-ArePlain (array_type count item) more h p = p
  kinds_of_parent-ArePlain (class_type traits size bases members) more h p =
      kinds_of_parents-ArePlain bases (kinds_of members more) (ground arith)
        (kinds_of-ArePlain members more (ground arith) p)

  kinds_of-ArePlain :
      (members : DataMembers) (more : Members)
      → are_serializable members ≡ true
      → ArePlain more
      → ArePlain (kinds_of members more)
  kinds_of-ArePlain no_members more h k = k
  kinds_of-ArePlain (data_member annotations offset type members) more h k =
      let rest = kinds_of-ArePlain members more (ground arith) k in
      elim (Bool-cases (has_annotation skipserialization annotations)) [
        | inl e ↦ rw (kinds_of, e) rest
        | inr e ↦ rw (kinds_of, e) (λ kept. kind_of-IsPlain type (ground (arith, e, kept)), rest)
      ]

mutual
  unfolding is_serializable not_serializable has_pointer_member is_trivially_copyable

  has_pointer_member-false :
      (type : Reflected)
      → is_serializable type ≡ true
      → IsUnmarked type
      → has_pointer_member type ≡ some false
  has_pointer_member-false (scalar_type k n) h u = ground arith
  has_pointer_member-false (array_type count item) h u =
      ground (arith, has_pointer_member-false item (ground arith) u)
  has_pointer_member-false (class_type traits size bases members) h u = ground (
    arith,
    parents_have_pointer-false bases (ground arith) u.0,
    members_have_pointer-false members (ground arith) u.1,
  )

  parents_have_pointer-false :
      (bases : Bases)
      → are_serializable_parents bases ≡ true
      → AreUnmarkedBases bases
      → parents_have_pointer bases ≡ some false
  parents_have_pointer-false no_bases h u = refl
  parents_have_pointer-false (base parent bases) h u = ground (
    arith,
    parent_has_pointer-false parent (ground arith) u.0,
    parents_have_pointer-false bases (ground arith) u.1,
  )

  parent_has_pointer-false :
      (parent : Reflected)
      → is_serializable_parent parent ≡ true
      → IsUnmarked parent
      → parent_has_pointer parent ≡ some false
  parent_has_pointer-false (scalar_type k n) h u = refl
  parent_has_pointer-false (array_type count item) h u = refl
  parent_has_pointer-false (class_type traits size bases members) h u = ground (
    arith,
    parents_have_pointer-false bases (ground arith) u.0,
    members_have_pointer-false members (ground arith) u.1,
  )

  members_have_pointer-false :
      (members : DataMembers)
      → are_serializable members ≡ true
      → AreUnmarked members
      → members_have_pointer members ≡ some false
  members_have_pointer-false no_members h u = refl
  members_have_pointer-false (data_member annotations offset type members) h u = ground (
    arith,
    has_pointer_member-false type (ground (arith, u.0, u.1)) u.2,
    members_have_pointer-false members (ground (arith, u.0, u.1)) u.3,
  )

-- No scalar that the library copies of a serializable type is a pointer or a null pointer.
pub is_serializable-IsPlain :
    (type : Reflected) → is_serializable type ≡ true → IsPlain (kind_of type)
is_serializable-IsPlain type h = kind_of-IsPlain type h

-- A serializable type, no member of which is skipped or ignored at any depth, is BitCastSafe: the
-- question is well-formed, and there is no pointer member.
pub is_serializable-has_pointer_member :
    (type : Reflected)
    → is_serializable type ≡ true
    → IsUnmarked type
    → has_pointer_member type ≡ some false
is_serializable-has_pointer_member type h u = has_pointer_member-false type h u

-- Where `has_pointer_member` has an answer, the description of a type is BitCastSafe exactly where
-- that is no.
is_bit_cast_safe-has_pointer_member :
    (type : Reflected) (found : Bool)
    → has_pointer_member type ≡ some found
    → is_bit_cast_safe (kind_of type) ≡ (if found then false else true)
unfolding is_bit_cast_safe kind_of has_pointer_member
is_bit_cast_safe-has_pointer_member (scalar_type k n) found h =
    ap (λ b. if b then false else true) (some-injective _ _ h)
is_bit_cast_safe-has_pointer_member (array_type count item) found h =
    elim (Bool-cases (is_trivially_copyable item)) [
      | inl t ↦ is_bit_cast_safe-has_pointer_member item found (
          let answer : has_pointer_member (array_type count item) ≡ has_pointer_member item =
            rw t refl in
          sym answer ∙ h)
      | inr f ↦ absurd (ground (arith, f, h))
    ]
is_bit_cast_safe-has_pointer_member (class_type _ _ _ _) found h = ap has_no_pointer h
