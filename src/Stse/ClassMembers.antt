-- ===== src/Stse/ClassMembers.antt =====
-- include/stse/detail/meta_utils.hpp, concepts.hpp: the recursions over the bases and members of a
-- class are over the lists of members that the library computes.
use itch_order_book.Common.{
  ℕ, ◌≡◌, refl, sym, ap, ap₂, ◌∙◌, arith, Bool, true, false, Option, none, some, if◌then◌else◌,
  ◌&&◌, Bool-cases, inl, inr,
}
use itch_order_book.Stse.{aggregate, Members, end}
use itch_order_book.Stse.Reflect.{
  skipserialization, ignoreserialization, has_annotation, Traits, Reflected, scalar_type,
  array_type, class_type, Bases, no_bases, base, DataMembers, no_members, data_member,
  append_members, get_all_data_members_of, parent_members, without_annotation,
  get_serializable_members_of, get_non_skipped_members_of, not_serializable, has_no_pointer,
  is_serializable, are_serializable_parents, is_serializable_parent, are_serializable, either,
  has_pointer_member, parents_have_pointer, parent_has_pointer, members_have_pointer, kind_of,
  kinds_of_parents, kinds_of_parent, kinds_of,
}

unfoldable every : (Reflected → Bool) → DataMembers → Bool
every test no_members = true
every test (data_member annotations offset type members) = test type && every test members

every-serializable :
    (members : DataMembers)
    → every is_serializable
        (without_annotation ignoreserialization (without_annotation skipserialization members))
      ≡ are_serializable members
unfolding every without_annotation is_serializable
every-serializable no_members = refl
every-serializable (data_member annotations offset type members) =
    elim (Bool-cases (has_annotation skipserialization annotations)) [
      | inl e ↦ rw (without_annotation, are_serializable, e) (every-serializable members)
      | inr e ↦ elim (Bool-cases (has_annotation ignoreserialization annotations)) [
        | inl f ↦ rw (without_annotation, are_serializable, e, f) (every-serializable members)
        | inr f ↦ rw (without_annotation, are_serializable, e, f, every-serializable members) refl
      ]
    ]

are_serializable-append_members :
    (xs ys : DataMembers)
    → are_serializable (append_members xs ys) ≡ are_serializable xs && are_serializable ys
unfolding is_serializable append_members
are_serializable-append_members no_members ys = refl
are_serializable-append_members (data_member annotations offset type xs) ys =
    let rest = are_serializable-append_members xs ys in ground arith

either_assoc : (a b c : Option Bool) → either (either a b) c ≡ either a (either b c)
either_assoc none b c = refl
either_assoc (some a) none c = refl
either_assoc (some a) (some b) none = refl
either_assoc (some a) (some b) (some c) = ground arith

either-false : (a : Option Bool) → either (some false) a ≡ a
either-false none = refl
either-false (some a) = refl

members_have_pointer-append_members :
    (xs ys : DataMembers)
    → members_have_pointer (append_members xs ys)
      ≡ either (members_have_pointer xs) (members_have_pointer ys)
unfolding has_pointer_member append_members
members_have_pointer-append_members no_members ys = sym (either-false (members_have_pointer ys))
members_have_pointer-append_members (data_member annotations offset type xs) ys =
    ap (either (has_pointer_member type)) (members_have_pointer-append_members xs ys)
    ∙ sym
        (either_assoc (has_pointer_member type) (members_have_pointer xs) (members_have_pointer ys))

kinds_of-append_members :
    (xs ys : DataMembers) (more : Members)
    → kinds_of (append_members xs ys) more ≡ kinds_of xs (kinds_of ys more)
unfolding kind_of append_members
kinds_of-append_members no_members ys more = refl
kinds_of-append_members (data_member annotations offset type xs) ys more =
    let rest = kinds_of-append_members xs ys more in ground arith

kinds_of-without_annotation :
    (members : DataMembers) (more : Members)
    → kinds_of (without_annotation skipserialization members) more ≡ kinds_of members more
unfolding kind_of without_annotation
kinds_of-without_annotation no_members more = refl
kinds_of-without_annotation (data_member annotations offset type members) more =
    let rest = kinds_of-without_annotation members more in ground arith

mutual
  unfolding get_all_data_members_of is_serializable has_pointer_member kind_of

  get_all_data_members_of-parent :
      (parent : Reflected)
      → (are_serializable (get_all_data_members_of parent) ≡ is_serializable_parent parent)
        × (members_have_pointer (get_all_data_members_of parent) ≡ parent_has_pointer parent)
        × ((more : Members)
            → kinds_of (get_all_data_members_of parent) more ≡ kinds_of_parent parent more)
  get_all_data_members_of-parent (scalar_type k n) = (refl, refl, λ more. refl)
  get_all_data_members_of-parent (array_type count item) = (refl, refl, λ more. refl)
  get_all_data_members_of-parent (class_type traits size bases members) =
      let (tested, pointers, kinds) = parent_members-bases bases in
      (
        are_serializable-append_members (parent_members bases) members
            ∙ ap (λ b. b && are_serializable members) tested,
        members_have_pointer-append_members (parent_members bases) members
            ∙ ap (λ b. either b (members_have_pointer members)) pointers,
        λ more.
            kinds_of-append_members (parent_members bases) members more
            ∙ kinds (kinds_of members more),
      )

  parent_members-bases :
      (bases : Bases)
      → (are_serializable (parent_members bases) ≡ are_serializable_parents bases)
        × (members_have_pointer (parent_members bases) ≡ parents_have_pointer bases)
        × ((more : Members) → kinds_of (parent_members bases) more ≡ kinds_of_parents bases more)
  parent_members-bases no_bases = (refl, refl, λ more. refl)
  parent_members-bases (base parent bases) =
      let (tested, pointers, kinds) = get_all_data_members_of-parent parent in
      let (tested', pointers', kinds') = parent_members-bases bases in
      let own = get_all_data_members_of parent in
      (
        are_serializable-append_members own (parent_members bases)
            ∙ ap₂ (λ a b. a && b) tested tested',
        members_have_pointer-append_members own (parent_members bases)
            ∙ ap₂ either pointers pointers',
        λ more.
            kinds_of-append_members own (parent_members bases) more
            ∙ ap (kinds_of own) (kinds' more)
            ∙ kinds (kinds_of_parents bases more),
      )

-- For every class: `is_serializable` tests exactly the types of its serializable members,
-- `has_pointer_member` those of all its data members, and the layouts are of its members that are
-- not skipped, the members of its bases always first.
class_members_lem :
    (traits : Traits) (size : ℕ) (bases : Bases) (members : DataMembers)
    → let type = class_type traits size bases members in
      (is_serializable type ≡ (
        if not_serializable type
        then false
        else every is_serializable (get_serializable_members_of type)))
      × (has_pointer_member type ≡ (
          if not_serializable type
          then none
          else members_have_pointer (get_all_data_members_of type)))
      × (kind_of type
          ≡ aggregate
              (has_no_pointer (has_pointer_member type))
              size
              (kinds_of (get_non_skipped_members_of type) end))
unfolding is_serializable has_pointer_member kind_of get_serializable_members_of
    get_non_skipped_members_of
class_members_lem traits size bases members =
    let type = class_type traits size bases members in
    let (tested, pointers, kinds) = get_all_data_members_of-parent type in
    (
      ap (λ b. if not_serializable type then false else b)
          (sym (every-serializable (get_all_data_members_of type) ∙ tested)),
      ap (λ b. if not_serializable type then none else b) (sym pointers),
      ap
          (aggregate (has_no_pointer (has_pointer_member (class_type traits size bases members)))
            size)
          (sym (kinds_of-without_annotation (get_all_data_members_of type) end ∙ kinds end)),
    )
