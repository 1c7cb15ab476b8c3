-- ===== src/Wire/Bytes.antt =====
-- Byte order: include/memhook/byteswap.h, and `ByteOrderingConv` of serialization.h.
-- An unsigned word of `w` bytes is a number below 256 ^ w; memory is a list of bytes.
use memhook.Prelude.{
  ℕ, zero, suc, ◌+◌, ◌*◌, ◌/◌, ◌%◌, ◌^◌, ◌<◌, ◌≡◌, refl, ap, Bool, true, false, List, [], ◌∷◌, ◌++◌,
  reverse, length, length-reverse, reverse-cons, All, if◌then◌else◌, arith,
}
use native.Mathlib.Nat.{pow-suc}
use mathlib.Core.List.{reverse-reverse}

abbrev pub IsByte : ℕ → Type 0
IsByte b = b < 256

-- The bytes of a word, lowest first: its object representation on a little-endian machine.
unfoldable pub to_le : ℕ → ℕ → List ℕ
to_le zero v = []
to_le (suc w) v = (v % 256) ∷ to_le w (v / 256)

unfoldable pub from_le : List ℕ → ℕ
from_le [] = 0
from_le (b ∷ bs) = b + from_le bs * 256

-- The object representation of a word, on a machine of either byte order.
unfoldable pub object_bytes : Bool → ℕ → ℕ → List ℕ
object_bytes big_endian w v = if big_endian then reverse (to_le w v) else to_le w v

-- What a load of an object with these bytes gives.
unfoldable pub load_bytes : Bool → List ℕ → ℕ
load_bytes big_endian bs = if big_endian then from_le (reverse bs) else from_le bs

-- `MEMHOOK_BYTESWAP_16`, `_32` and `_64`: the bytes of the word in the other order.
unfoldable pub byteswap : ℕ → ℕ → ℕ
byteswap w v = from_le (reverse (to_le w v))

-- `hton_16`, `hton_32`, `hton_64`: the identity where `SYSTEM_BIG_ENDIAN` is set.
unfoldable pub hton : Bool → ℕ → ℕ → ℕ
hton big_endian w v = if big_endian then v else byteswap w v

unfoldable pub ntoh : Bool → ℕ → ℕ → ℕ
ntoh big_endian w v = if big_endian then v else byteswap w v

pub length-to_le : (w v : ℕ) → length (to_le w v) ≡ w
unfolding to_le
length-to_le zero v = refl
length-to_le (suc w) v = ap suc (length-to_le w (v / 256))

from_le-to_le : (w v : ℕ) → v < 256 ^ w → from_le (to_le w v) ≡ v
unfolding to_le from_le
from_le-to_le zero v h = omega arith
from_le-to_le (suc w) v h = omega (arith, from_le-to_le w (v / 256) (omega (arith, pow-suc 256 w)))

to_le-from_le : (bs : List ℕ) → All IsByte bs → to_le (length bs) (from_le bs) ≡ bs
unfolding to_le from_le
to_le-from_le [] h = refl
to_le-from_le (b ∷ bs) (hb, hbs) =
    let low : (b + from_le bs * 256) % 256 ≡ b = omega arith in
    let high : (b + from_le bs * 256) / 256 ≡ from_le bs = omega arith in
    rw (low, high) (ap (◌∷◌ b) (to_le-from_le bs hbs))

pub to_le-IsByte : (w v : ℕ) → All IsByte (to_le w v)
unfolding to_le
to_le-IsByte zero v = tt
to_le-IsByte (suc w) v = (omega arith, to_le-IsByte w (v / 256))

pub All-append {ℓ κ} :
    {A : Type ℓ} (P : A → Type κ) (xs ys : List A) → All P xs → All P ys → All P (xs ++ ys)
All-append P [] ys h k = k
All-append P (x ∷ xs) ys h k = (h.0, All-append P xs ys h.1 k)

pub All-reverse {ℓ κ} : {A : Type ℓ} (P : A → Type κ) (xs : List A) → All P xs → All P (reverse xs)
All-reverse P [] h = h
All-reverse P (x ∷ xs) h =
    rw reverse-cons (All-append P (reverse xs) (x ∷ []) (All-reverse P xs h.1) (h.0, tt))

to_le-from_le-reverse : (w v : ℕ) → to_le w (from_le (reverse (to_le w v))) ≡ reverse (to_le w v)
to_le-from_le-reverse w v =
    rw (length-reverse, length-to_le) at
      (to_le-from_le (reverse (to_le w v)) (All-reverse IsByte (to_le w v) (to_le-IsByte w v)))

pub object_bytes-hton :
    (big_endian : Bool) (w v : ℕ)
    → object_bytes big_endian w (hton big_endian w v) ≡ reverse (to_le w v)
unfolding object_bytes hton byteswap
object_bytes-hton true w v = refl
object_bytes-hton false w v = to_le-from_le-reverse w v

pub ntoh-load_bytes :
    (big_endian : Bool) (w v : ℕ)
    → v < 256 ^ w
    → ntoh big_endian w (load_bytes big_endian (reverse (to_le w v))) ≡ v
unfolding ntoh load_bytes byteswap
ntoh-load_bytes true w v h = rw reverse-reverse (from_le-to_le w v h)
ntoh-load_bytes false w v h = rw (to_le-from_le-reverse, reverse-reverse) (from_le-to_le w v h)

-- On a machine of either byte order the conversions of a word to and from network order are
-- inverse.
pub ntoh-hton :
    (big_endian : Bool) (w v : ℕ) → v < 256 ^ w → ntoh big_endian w (hton big_endian w v) ≡ v
unfolding ntoh hton byteswap
ntoh-hton true w v h = refl
ntoh-hton false w v h = rw (to_le-from_le-reverse, reverse-reverse) (from_le-to_le w v h)

-- Whatever its byte order, a machine puts the bytes of a word on the wire highest first.
pub hton_portable :
    (w v : ℕ)
    → (object_bytes true w (hton true w v) ≡ reverse (to_le w v))
      × (object_bytes false w (hton false w v) ≡ reverse (to_le w v))
hton_portable w v = (object_bytes-hton true w v, object_bytes-hton false w v)
