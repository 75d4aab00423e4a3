-- ===== src/Stse/Bytes.antt =====
-- include/stse/detail/memory.hpp, serialize.hpp: copies byte by byte, and the bytes of scalars.
use mathlib.Core.List.{reverse, reverse_aux, reverse-reverse}
use native.Mathlib.Nat.{pow-suc}
use itch_order_book.Common.{
  ℕ, zero, suc, ◌+◌, ◌*◌, ◌^◌, ◌≤◌, ◌<◌, ◌≡◌, ◌⊎◌, ◌/◌, ◌%◌, dec_lt, refl, sym, ap, ◌∙◌, arith,
  List, [], ◌∷◌, length, if◌then◌else◌,
}
use itch_order_book.Messages.Decode
use itch_order_book.Messages.Decode.{raw_value, byteswap}
use itch_order_book.Messages.Endian.{AreBytes, network_value, big_endian-network_value}
use itch_order_book.Stse.{constexpr_memcpy}
use itch_order_book.Stse.Fields.{
  EndianType, big_endian, little_endian, native_endian, object_bytes, byte_of, ordered, is_native,
}

-- every byte of the memory fits a byte
abbrev pub IsMemory : (ℕ → ℕ) → Type 0
IsMemory memory = (a : ℕ) → memory a < 256

pub memcpy_outside :
    (to from n : ℕ) (source destination : ℕ → ℕ) (j : ℕ)
    → (j < to) ⊎ (to + n ≤ j)
    → constexpr_memcpy to from n source destination j ≡ destination j
unfolding constexpr_memcpy
memcpy_outside to from zero source destination j h = refl
memcpy_outside to from (suc n) source destination j h =
    let rest = memcpy_outside to from n source destination j (ground arith) in ground arith

pub memcpy_inside :
    (to from n : ℕ) (source destination : ℕ → ℕ) (i : ℕ)
    → i < n
    → constexpr_memcpy to from n source destination (to + i) ≡ source (from + i)
unfolding constexpr_memcpy
memcpy_inside to from zero source destination i h = absurd (omega arith)
memcpy_inside to from (suc n) source destination i h = elim (dec_lt i n) [
  | yes lt ↦ ground (arith, memcpy_inside to from n source destination i lt)
  | no ge ↦ let e : i ≡ n = omega arith in rw e (ground arith)
]

-- the copies of equal bytes are equal
pub memcpy_pointwise :
    (to from from' n : ℕ) (source source' destination : ℕ → ℕ)
    → ((i : ℕ) → i < n → source (from + i) ≡ source' (from' + i))
    → constexpr_memcpy to from n source destination
      ≡ constexpr_memcpy to from' n source' destination
unfolding constexpr_memcpy
memcpy_pointwise to from from' zero source source' destination h = refl
memcpy_pointwise to from from' (suc n) source source' destination h =
    rw
      (
        memcpy_pointwise to from from' n source source' destination (λ i lt. h i (omega arith)),
        h n (omega arith),
      )
      refl

pub object_bytes-AreBytes :
    (n : ℕ) (memory : ℕ → ℕ) (a : ℕ) → IsMemory memory → AreBytes (object_bytes n memory a)
unfolding object_bytes
object_bytes-AreBytes zero memory a h = tt
object_bytes-AreBytes (suc n) memory a h = (h a, object_bytes-AreBytes n memory (a + 1) h)

pub length-object_bytes : (n : ℕ) (memory : ℕ → ℕ) (a : ℕ) → length (object_bytes n memory a) ≡ n
unfolding object_bytes
length-object_bytes zero memory a = refl
length-object_bytes (suc n) memory a = omega (arith, length-object_bytes n memory (a + 1))

-- a memory has the bytes of a value where it has them one by one
pub object_bytes-raw_value :
    (bytes : List ℕ) (memory : ℕ → ℕ) (a : ℕ)
    → AreBytes bytes
    → ((i : ℕ) → i < length bytes → memory (a + i) ≡ byte_of (raw_value bytes) i)
    → object_bytes (length bytes) memory a ≡ bytes
unfolding object_bytes byte_of raw_value
object_bytes-raw_value [] memory a h at = refl
object_bytes-raw_value (b ∷ bytes) memory a h at =
    let first : memory a ≡ b = ap memory (omega arith) ∙ at 0 (omega arith) ∙ omega (arith, h.0) in
    let high : (b + 256 * raw_value bytes) / 256 ≡ raw_value bytes = omega (arith, h.0) in
    let rest =
      object_bytes-raw_value bytes memory (a + 1) h.1
        (λ i lt. ap memory (omega arith) ∙ at (suc i) (omega arith) ∙ ap (λ v. byte_of v i) high) in
    rw (first, rest) refl

-- the byte of a scalar at an index
pub byte_of-object_bytes :
    (n : ℕ) (memory : ℕ → ℕ) (a i : ℕ)
    → IsMemory memory
    → i < n
    → byte_of (raw_value (object_bytes n memory a)) i ≡ memory (a + i)
unfolding object_bytes byte_of raw_value
byte_of-object_bytes zero memory a i h lt = absurd (omega arith)
byte_of-object_bytes (suc n) memory a zero h lt =
    let low : (memory a + 256 * raw_value (object_bytes n memory (a + 1))) % 256 ≡ memory a =
      omega (arith, h a) in
    let same : a ≡ a + 0 = omega arith in low ∙ ap memory same
byte_of-object_bytes (suc n) memory a (suc i) h lt =
    let tail = raw_value (object_bytes n memory (a + 1)) in
    let high : (memory a + 256 * tail) / 256 ≡ tail = omega (arith, h a) in
    rw high (byte_of-object_bytes n memory (a + 1) i h (omega arith) ∙ ap memory (omega arith))

power : (n : ℕ) → 256 ^ suc n ≡ 256 * 256 ^ n
power n = grind (arith, pow-suc 256 n)

network_value-reverse :
    (bytes before : List ℕ)
    → raw_value (reverse_aux bytes before)
      ≡ network_value bytes + raw_value before * 256 ^ length bytes
unfolding network_value raw_value
network_value-reverse [] before = omega arith
network_value-reverse (b ∷ bytes) before =
    rw (network_value-reverse bytes (b ∷ before), power (length bytes)) (grind arith)

-- the bytes in the order of the serial form
abbrev pub arranged : EndianType → List ℕ → List ℕ
arranged e bytes = if is_native e then bytes else reverse bytes

-- Swapping the bytes of a value reverses them.
pub ordered-arranged :
    (e : EndianType) (bytes : List ℕ)
    → AreBytes bytes
    → ordered e (length bytes) (raw_value bytes) ≡ raw_value (arranged e bytes)
unfolding byteswap Decode.big_endian network_value raw_value
ordered-arranged big_endian bytes h =
    big_endian-network_value bytes h ∙ sym (network_value-reverse bytes [] ∙ omega arith)
ordered-arranged little_endian bytes h = refl
ordered-arranged native_endian bytes h = refl

pub arranged-arranged : (e : EndianType) (bytes : List ℕ) → arranged e (arranged e bytes) ≡ bytes
arranged-arranged big_endian bytes = reverse-reverse bytes
arranged-arranged little_endian bytes = refl
arranged-arranged native_endian bytes = refl

length-reverse_aux :
    (bytes before : List ℕ) → length (reverse_aux bytes before) ≡ length bytes + length before
length-reverse_aux [] before = omega arith
length-reverse_aux (b ∷ bytes) before = omega (arith, length-reverse_aux bytes (b ∷ before))

reverse_aux-AreBytes :
    (bytes before : List ℕ) → AreBytes bytes → AreBytes before → AreBytes (reverse_aux bytes before)
reverse_aux-AreBytes [] before h k = k
reverse_aux-AreBytes (b ∷ bytes) before h k = reverse_aux-AreBytes bytes (b ∷ before) h.1 (h.0, k)

pub length-arranged : (e : EndianType) (bytes : List ℕ) → length (arranged e bytes) ≡ length bytes
length-arranged big_endian bytes = omega (arith, length-reverse_aux bytes [])
length-arranged little_endian bytes = refl
length-arranged native_endian bytes = refl

pub arranged-AreBytes :
    (e : EndianType) (bytes : List ℕ) → AreBytes bytes → AreBytes (arranged e bytes)
arranged-AreBytes big_endian bytes h = reverse_aux-AreBytes bytes [] h tt
arranged-AreBytes little_endian bytes h = h
arranged-AreBytes native_endian bytes h = h
