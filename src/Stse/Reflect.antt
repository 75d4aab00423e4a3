-- ===== src/Stse/Reflect.antt =====
-- include/stse/detail/meta_utils.hpp, concepts.hpp: what the library asks of a type by reflection.
-- A type is described as the compiler reflects it, without cv-qualifiers and references; the types
-- with a tuple size and a value type are the arrays.
use itch_order_book.Common.{
  ℕ, Bool, true, false, Option, none, some, List, [], ◌∷◌, if◌then◌else◌, ◌&&◌, ◌||◌,
}
use itch_order_book.Stse.{
  ScalarKind, pointer, null_pointer, Kind, scalar, container, aggregate, Members, end, member,
}

-- the types of annotations
pub data Annotation : Type 0 where
  skipserialization ignoreserialization other : Annotation

abbrev pub same_annotation : Annotation → Annotation → Bool
same_annotation skipserialization skipserialization = true
same_annotation ignoreserialization ignoreserialization = true
same_annotation other other = true
same_annotation _ _ = false

-- `has_annotation`
unfoldable pub has_annotation : Annotation → List Annotation → Bool
has_annotation annotation [] = false
has_annotation annotation (a ∷ annotations) =
    same_annotation a annotation || has_annotation annotation annotations

-- what <type_traits> says of a class, and whether it has a member `endian`
pub record Traits : Type 0 where
  pub is_polymorphic : Bool
  pub is_trivially_copyable : Bool
  pub has_endian : Bool

-- scalars with their size; arrays; classes with `sizeof`, bases and data members, each of these
-- with its annotations and its offset in its class
mutual
  pub data Reflected : Type 0 where
    scalar_type : ScalarKind → ℕ → Reflected
    array_type : ℕ → Reflected → Reflected
    class_type : Traits → ℕ → Bases → DataMembers → Reflected

  pub data Bases : Type 0 where
    no_bases : Bases
    base : Reflected → Bases → Bases

  pub data DataMembers : Type 0 where
    no_members : DataMembers
    data_member : List Annotation → ℕ → Reflected → DataMembers → DataMembers

unfoldable pub append_members : DataMembers → DataMembers → DataMembers
append_members no_members more = more
append_members (data_member annotations offset type members) more =
    data_member annotations offset type (append_members members more)

-- `get_all_data_members_of`: those of the bases, then its own
unfoldable mutual
  pub get_all_data_members_of : Reflected → DataMembers
  get_all_data_members_of (scalar_type k n) = no_members
  get_all_data_members_of (array_type count item) = no_members
  get_all_data_members_of (class_type traits size bases members) =
      append_members (parent_members bases) members

  pub parent_members : Bases → DataMembers
  parent_members no_bases = no_members
  parent_members (base parent bases) =
      append_members (get_all_data_members_of parent) (parent_members bases)

-- the views `skip_serialization` and `ignore_serialization`
unfoldable pub without_annotation : Annotation → DataMembers → DataMembers
without_annotation annotation no_members = no_members
without_annotation annotation (data_member annotations offset type members) =
    let rest = without_annotation annotation members in
    if has_annotation annotation annotations then rest else data_member annotations offset type rest

unfoldable pub get_serializable_members_of : Reflected → DataMembers
get_serializable_members_of type =
    without_annotation ignoreserialization
      (without_annotation skipserialization (get_all_data_members_of type))

unfoldable pub get_non_skipped_members_of : Reflected → DataMembers
get_non_skipped_members_of type =
    without_annotation skipserialization (get_all_data_members_of type)

unfoldable pub is_trivially_copyable : Reflected → Bool
is_trivially_copyable (scalar_type k n) = true
is_trivially_copyable (array_type count item) = is_trivially_copyable item
is_trivially_copyable (class_type traits _ _ _) = traits.is_trivially_copyable

abbrev pub is_pointer : ScalarKind → Bool
is_pointer pointer = true
is_pointer _ = false

abbrev pub is_null_pointer : ScalarKind → Bool
is_null_pointer null_pointer = true
is_null_pointer _ = false

-- the concept NotSerializable
unfoldable pub not_serializable : Reflected → Bool
not_serializable (scalar_type k n) = is_pointer k || is_null_pointer k
not_serializable (array_type count item) = if is_trivially_copyable item then false else true
not_serializable (class_type traits _ _ _) =
    traits.is_polymorphic
    || (if traits.is_trivially_copyable then false else true)
    || traits.has_endian

-- `is_serializable`; the members it looks at are `serializable_members_of`
unfoldable mutual
  pub is_serializable : Reflected → Bool
  is_serializable (scalar_type k n) = if not_serializable (scalar_type k n) then false else true
  is_serializable (array_type count item) =
      let items = is_serializable item in
      if not_serializable (array_type count item) then false else items
  is_serializable (class_type traits size bases members) =
      let all = are_serializable_parents bases && are_serializable members in
      if not_serializable (class_type traits size bases members) then false else all

  pub are_serializable_parents : Bases → Bool
  are_serializable_parents no_bases = true
  are_serializable_parents (base parent bases) =
      is_serializable_parent parent && are_serializable_parents bases

  pub is_serializable_parent : Reflected → Bool
  is_serializable_parent (scalar_type k n) = true
  is_serializable_parent (array_type count item) = true
  is_serializable_parent (class_type traits size bases members) =
      are_serializable_parents bases && are_serializable members

  pub are_serializable : DataMembers → Bool
  are_serializable no_members = true
  are_serializable (data_member annotations offset type members) =
      let this = is_serializable type in
      let rest = are_serializable members in
      if has_annotation skipserialization annotations
        || has_annotation ignoreserialization annotations
      then rest
      else this && rest

-- whether one of two members has a pointer; none if the question is ill-formed for either
abbrev pub either : Option Bool → Option Bool → Option Bool
either none b = none
either (some a) none = none
either (some a) (some b) = some (a || b)

-- `has_pointer_member`, over `all_data_members_of`; none where it reaches std::unreachable, so that
-- the program is ill-formed
unfoldable mutual
  pub has_pointer_member : Reflected → Option Bool
  has_pointer_member (scalar_type k n) = some (is_pointer k)
  has_pointer_member (array_type count item) =
      let items = has_pointer_member item in if is_trivially_copyable item then items else none
  has_pointer_member (class_type traits size bases members) =
      let all = either (parents_have_pointer bases) (members_have_pointer members) in
      if not_serializable (class_type traits size bases members) then none else all

  pub parents_have_pointer : Bases → Option Bool
  parents_have_pointer no_bases = some false
  parents_have_pointer (base parent bases) =
      either (parent_has_pointer parent) (parents_have_pointer bases)

  pub parent_has_pointer : Reflected → Option Bool
  parent_has_pointer (scalar_type k n) = some false
  parent_has_pointer (array_type count item) = some false
  parent_has_pointer (class_type traits size bases members) =
      either (parents_have_pointer bases) (members_have_pointer members)

  pub members_have_pointer : DataMembers → Option Bool
  members_have_pointer no_members = some false
  members_have_pointer (data_member annotations offset type members) =
      either (has_pointer_member type) (members_have_pointer members)

-- the concept BitCastSafe of a class, by the answer of `has_pointer_member`; where that is
-- ill-formed, so is a use of the concept
abbrev pub has_no_pointer : Option Bool → Bool
has_no_pointer none = false
has_no_pointer (some found) = if found then false else true

-- the description that the layouts start from: `non_skipped_members_of`, with their marks, and
-- whether a class is BitCastSafe
unfoldable mutual
  pub kind_of : Reflected → Kind
  kind_of (scalar_type k n) = scalar k n
  kind_of (array_type count item) = container count (kind_of item)
  kind_of (class_type traits size bases members) =
      aggregate (has_no_pointer (has_pointer_member (class_type traits size bases members))) size
        (kinds_of_parents bases (kinds_of members end))

  pub kinds_of_parents : Bases → Members → Members
  kinds_of_parents no_bases more = more
  kinds_of_parents (base parent bases) more = kinds_of_parent parent (kinds_of_parents bases more)

  pub kinds_of_parent : Reflected → Members → Members
  kinds_of_parent (scalar_type k n) more = more
  kinds_of_parent (array_type count item) more = more
  kinds_of_parent (class_type traits size bases members) more =
      kinds_of_parents bases (kinds_of members more)

  pub kinds_of : DataMembers → Members → Members
  kinds_of no_members more = more
  kinds_of (data_member annotations offset type members) more =
      let this = kind_of type in
      let rest = kinds_of members more in
      if has_annotation skipserialization annotations
      then rest
      else member (has_annotation ignoreserialization annotations) offset this rest
