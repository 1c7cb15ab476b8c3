-- ===== src/Wire/RoundTrip.antt =====
-- The reader of include/memhook/serialization.h against the writer and `SizeOf`.
use memhook.Prelude.{
  ℕ, ◌+◌, ◌%◌, ◌^◌, ◌<◌, ◌≡◌, ◌∙◌, Bool, false, Option, some, List, [], ◌∷◌, ◌++◌, length, take,
  drop, ℤ, pos, negsuc, ltb, All, arith, append-nil, append_assoc, take-append_length,
  drop-append_length, length-append, length-reverse, take_all, reverse, length-take,
}
use memhook.Wire.Bytes.{to_le, length-to_le, object_bytes-hton, ntoh-load_bytes}
use memhook.Wire.Types.{Shape, word, enum, time_point, text, seq, both, Value}
use memhook.Wire.Codec.{
  word_of_int, int_of_word, size_u32, write_word, write_all, write, size_all, size_of, read_word,
  read_chars, read_all, read, Fits,
}

take-append {ℓ} : {A : Type ℓ} (n : ℕ) (xs ys : List A) → length xs ≡ n → take n (xs ++ ys) ≡ xs
take-append n xs ys h = rw (← h) (take-append_length xs ys)

drop-append {ℓ} : {A : Type ℓ} (n : ℕ) (xs ys : List A) → length xs ≡ n → drop n (xs ++ ys) ≡ ys
drop-append n xs ys h = rw (← h) (drop-append_length xs ys)

write_word-reverse : (e : Bool) (w v : ℕ) → write_word e w v ≡ reverse (to_le w v)
unfolding write_word
write_word-reverse e w v = object_bytes-hton e w v

pub length-write_word : (e : Bool) (w v : ℕ) → length (write_word e w v) ≡ w
length-write_word e w v = rw (write_word-reverse, length-reverse, length-to_le)

read_word-write_word :
    (e : Bool) (w v : ℕ) (rest : List ℕ)
    → v < 256 ^ w
    → read_word e w (write_word e w v ++ rest) ≡ some (v, rest)
unfolding read_word
read_word-write_word e w v rest h =
    let len = length-write_word e w v in
    let enough : ltb (length (write_word e w v ++ rest)) w ≡ false =
      ground (arith, len, length-append (write_word e w v) rest) in
    rw
      (enough, take-append w (write_word e w v) rest len, drop-append w (write_word e w v) rest len)
      (rw (write_word-reverse, ntoh-load_bytes e w v h))

int_of_word-word_of_int : (t : ℤ) → Fits time_point t → int_of_word (word_of_int t) ≡ t
unfolding int_of_word word_of_int
int_of_word-word_of_int (pos n) h = ground arith
int_of_word-word_of_int (negsuc n) h = ground arith

word_of_int-lt : (t : ℤ) → word_of_int t < 256 ^ 8
unfolding word_of_int
word_of_int-lt (pos n) = omega arith
word_of_int-lt (negsuc n) = omega arith

read_chars-append : (cs rest : List ℕ) → read_chars (length cs) (cs ++ rest) ≡ some (cs, rest)
unfolding read_chars
read_chars-append cs rest =
    let enough : ltb (length (cs ++ rest)) (length cs) ≡ false =
      ground (arith, length-append cs rest) in
    rw (enough, take-append_length cs rest, drop-append_length cs rest)

read_all-write_all :
    {A : Type 0} (P : A → Type 0) (f : List ℕ → Option (A × List ℕ)) (g : A → List ℕ)
    → ((v : A) (rest : List ℕ) → P v → f (g v ++ rest) ≡ some (v, rest))
    → (vs acc : List A) (rest : List ℕ) → All P vs
    → read_all f (length vs) acc (write_all g vs ++ rest) ≡ some (acc ++ vs, rest)
unfolding read_all
read_all-write_all P f g h [] acc rest p = rw append-nil
read_all-write_all P f g h (v ∷ vs) acc rest (pv, pvs) =
    rw (append_assoc, h v (write_all g vs ++ rest) pv)
      (read_all-write_all P f g h vs (acc ++ (v ∷ [])) rest pvs ∙ rw append_assoc)

-- Reading what was written, followed by anything, gives the value back and leaves what follows.
pub read-write :
    (e : Bool) (s : Shape) (v : Value s) (rest : List ℕ)
    → Fits s v
    → read e s (write e s v ++ rest) ≡ some (v, rest)
unfolding read write
read-write e (word w) v rest h = read_word-write_word e w v rest h
read-write e enum v rest h = read_word-write_word e 4 v rest h
read-write e time_point t rest h =
    rw (
      read_word-write_word e 8 (word_of_int t) rest (word_of_int-lt t),
      int_of_word-word_of_int t h,
    )
read-write e text cs rest h =
    let small : size_u32 cs ≡ length cs = omega arith in
    rw
      (
        append_assoc,
        read_word-write_word e 4 (size_u32 cs) (take (size_u32 cs) cs ++ rest) (omega arith),
        small,
        take_all (length cs) cs (omega arith),
      )
      (read_chars-append cs rest)
read-write e (seq s) vs rest (h, hs) =
    let small : size_u32 vs ≡ length vs = omega arith in
    rw
      (
        append_assoc,
        read_word-write_word e 4 (size_u32 vs) (write_all (write e s) vs ++ rest) (omega arith),
        small,
      )
      (read_all-write_all (Fits s) (read e s) (write e s) (read-write e s) vs [] rest hs)
read-write e (both s t) (a, b) rest (ha, hb) =
    rw (append_assoc, read-write e s a (write e t b ++ rest) ha, read-write e t b rest hb)

size_all-write_all :
    {A : Type 0} (f : A → ℕ → ℕ) (g : A → List ℕ)
    → ((v : A) (size : ℕ) → size < 2 ^ 64 → f v size ≡ (size + length (g v)) % 2 ^ 64)
    → (vs : List A) (size : ℕ) → size < 2 ^ 64
    → size_all f vs size ≡ (size + length (write_all g vs)) % 2 ^ 64
size_all-write_all f g h [] size small = omega arith
size_all-write_all f g h (v ∷ vs) size small =
    let first = h v size small in
    size_all-write_all f g h vs (f v size) (omega (arith, first))
    ∙ omega (arith, first, length-append (g v) (write_all g vs))

-- From a size below 2 ^ 64 on, `SizeOf` counts the bytes that the writer copies, modulo 2 ^ 64.
pub size_of-length-write :
    (e : Bool) (s : Shape) (v : Value s) (size : ℕ)
    → size < 2 ^ 64
    → size_of s v size ≡ (size + length (write e s v)) % 2 ^ 64
unfolding size_of write
size_of-length-write e (word w) v size h = omega (arith, length-write_word e w v)
size_of-length-write e enum v size h = omega (arith, length-write_word e 4 v)
size_of-length-write e time_point t size h = omega (arith, length-write_word e 8 (word_of_int t))
size_of-length-write e text cs size h = omega (
  arith,
  length-append (write_word e 4 (size_u32 cs)) (take (size_u32 cs) cs),
  length-write_word e 4 (size_u32 cs),
  length-take (size_u32 cs) cs,
)
size_of-length-write e (seq s) vs size h =
    size_all-write_all (size_of s) (write e s) (size_of-length-write e s) vs ((size + 4) % 2 ^ 64)
      (omega arith)
    ∙ omega (
      arith,
      length-append (write_word e 4 (size_u32 vs)) (write_all (write e s) vs),
      length-write_word e 4 (size_u32 vs),
    )
size_of-length-write e (both s t) (a, b) size h =
    let first = size_of-length-write e s a size h in
    size_of-length-write e t b (size_of s a size) (omega (arith, first))
    ∙ omega (arith, first, length-append (write e s a) (write e t b))
