-- ===== src/Wire/Codec.antt =====
-- `WriterImpl`, `SizeOf`, `BufferWriter`, `ReaderImpl` and `BufferReader` of
-- include/memhook/serialization.h. A writer gives the bytes that it copies into the buffer, in
-- order. A reader takes the bytes that are left; where it would load past their end the result is
-- `none`.
use memhook.Prelude.{
  ℕ, zero, suc, ◌+◌, ◌-◌, ◌%◌, ◌^◌, ◌<◌, Bool, Option, none, some, ◌>>=◌, List, [], ◌∷◌, ◌++◌,
  length, take, drop, ℤ, pos, negsuc, ltb, if◌then◌else◌, All,
}
use memhook.Wire.Bytes.{object_bytes, load_bytes, hton, ntoh}
use memhook.Wire.Types.{Shape, word, enum, time_point, text, seq, both, Value}

-- `static_cast` between `int64_t` and `uint64_t`.
unfoldable pub word_of_int : ℤ → ℕ
word_of_int (pos n) = n % 2 ^ 64
word_of_int (negsuc n) = 2 ^ 64 - 1 - n % 2 ^ 64

unfoldable pub int_of_word : ℕ → ℤ
int_of_word w = if ltb w (2 ^ 63) then pos w else negsuc (2 ^ 64 - 1 - w)

-- `static_cast<uint32_t>(val.size())`
abbrev pub size_u32 {ℓ} : {A : Type ℓ} → List A → ℕ
size_u32 xs = length xs % 2 ^ 32

-- `BufferWriter::Call` on an integer.
unfoldable pub write_word : Bool → ℕ → ℕ → List ℕ
write_word big_endian w v = object_bytes big_endian w (hton big_endian w v)

abbrev pub write_all {ℓ} : {A : Type ℓ} → (A → List ℕ) → List A → List ℕ
write_all f [] = []
write_all f (x ∷ xs) = f x ++ write_all f xs

module _ (big_endian : Bool) where
  unfoldable pub write : (s : Shape) → Value s → List ℕ
  write (word w) v = write_word big_endian w v
  write enum v = write_word big_endian 4 v
  write time_point t = write_word big_endian 8 (word_of_int t)
  write text cs = write_word big_endian 4 (size_u32 cs) ++ take (size_u32 cs) cs
  write (seq s) vs = write_word big_endian 4 (size_u32 vs) ++ write_all (write s) vs
  write (both s t) (a, b) = write s a ++ write t b

-- `size_ += n` on a `size_t`.
abbrev pub add_size : ℕ → ℕ → ℕ
add_size size n = (size + n) % 2 ^ 64

abbrev pub size_all {ℓ} : {A : Type ℓ} → (A → ℕ → ℕ) → List A → ℕ → ℕ
size_all f [] size = size
size_all f (x ∷ xs) size = size_all f xs (f x size)

-- `SizeOf`: the size after the value, from the size before it.
unfoldable pub size_of : (s : Shape) → Value s → ℕ → ℕ
size_of (word w) v size = add_size size w
size_of enum v size = add_size size 4
size_of time_point t size = add_size size 8
size_of text cs size = add_size (add_size size 4) (size_u32 cs)
size_of (seq s) vs size = size_all (size_of s) vs (add_size size 4)
size_of (both s t) (a, b) size = size_of t b (size_of s a size)

unfoldable pub get_size : (s : Shape) → Value s → ℕ
get_size s v = size_of s v 0

-- `BufferReader::Call` on an integer.
unfoldable pub read_word : Bool → ℕ → List ℕ → Option (ℕ × List ℕ)
read_word big_endian w buf =
    if ltb (length buf) w
    then none
    else some (ntoh big_endian w (load_bytes big_endian (take w buf)), drop w buf)

-- `size` bytes of text.
unfoldable pub read_chars : ℕ → List ℕ → Option (List ℕ × List ℕ)
read_chars size buf = if ltb (length buf) size then none else some (take size buf, drop size buf)

-- The loop of `CallSeq`: `size` values, each inserted at the end of the sequence.
unfoldable pub read_all {ℓ} :
    {A : Type ℓ} → (List ℕ → Option (A × List ℕ)) → ℕ → List A → List ℕ → Option (List A × List ℕ)
read_all f zero vs buf = some (vs, buf)
read_all f (suc size) vs buf = do (v, rest) ← f buf; read_all f size (vs ++ (v ∷ [])) rest

module _ (big_endian : Bool) where
  unfoldable pub read : (s : Shape) → List ℕ → Option (Value s × List ℕ)
  read (word w) buf = read_word big_endian w buf
  read enum buf = read_word big_endian 4 buf
  read time_point buf = do (rep, rest) ← read_word big_endian 8 buf; some (int_of_word rep, rest)
  read text buf = do (size, rest) ← read_word big_endian 4 buf; read_chars size rest
  read (seq s) buf = do (size, rest) ← read_word big_endian 4 buf; read_all (read s) size [] rest
  read (both s t) buf = do (a, rest) ← read s buf; (b, rest') ← read t rest; some ((a, b), rest')

-- The values that their representation holds whole.
abbrev pub Fits : (s : Shape) → Value s → Type 0
Fits (word w) v = v < 256 ^ w
Fits enum v = v < 256 ^ 4
Fits time_point (pos n) = n < 2 ^ 63
Fits time_point (negsuc n) = n < 2 ^ 63
Fits text cs = length cs < 2 ^ 32
Fits (seq s) vs = (length vs < 2 ^ 32) × All (Fits s) vs
Fits (both s t) (a, b) = Fits s a × Fits t b
