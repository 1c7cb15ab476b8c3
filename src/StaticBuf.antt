-- ===== src/StaticBuf.antt =====
-- `StaticBufAlloc` of src/memhook/static_buf_alloc.cpp, from which the program allocates until the
-- C library's functions are found. A block is its offset in `tmpbuf_`; `size_t` has 64 bits.
use memhook.Prelude.{
  ℕ, ◌+◌, ◌-◌, ◌*◌, ◌%◌, ◌^◌, ◌≤◌, ◌<◌, ◌≡◌, refl, ap, ◌⊎◌, ◌&&◌, false, Option, none, some, List,
  [], ◌∷◌, All, ltb, leb, if◌then◌else◌, arith, Bool-cases, inl, inr,
}

abbrev pub buf_size : ℕ
buf_size = 8192

pub record StaticBuf : Type 0 where
  pub tmpbuf : ℕ → ℕ
  pub tmppos : ℕ

unfoldable pub malloc : ℕ → StaticBuf → Option ℕ × StaticBuf
malloc size s =
    if leb buf_size ((s.tmppos + size) % 2 ^ 64)
    then (none, s)
    else (some s.tmppos, record s { tmppos = (s.tmppos + size) % 2 ^ 64 })

-- `memset(ptr, 0, size)`
abbrev pub zero_fill : ℕ → ℕ → (ℕ → ℕ) → ℕ → ℕ
zero_fill ptr size buf i = if leb ptr i && ltb i (ptr + size) then 0 else buf i

abbrev pub zeroed : ℕ → Option ℕ × StaticBuf → Option ℕ × StaticBuf
zeroed size (none, s) = (none, s)
zeroed size (some ptr, s) = (some ptr, record s { tmpbuf = zero_fill ptr size s.tmpbuf })

unfoldable pub calloc : ℕ → ℕ → StaticBuf → Option ℕ × StaticBuf
calloc nmemb size s =
    let total_size = (nmemb * size) % 2 ^ 64 in zeroed total_size (malloc total_size s)

unfoldable pub free : ℕ → StaticBuf → StaticBuf
free ptr s = s

abbrev pub collect : Option ℕ → ℕ → List (ℕ × ℕ) → List (ℕ × ℕ)
collect none size bs = bs
collect (some ptr) size bs = (ptr, size) ∷ bs

-- The blocks that a sequence of `malloc` calls returns, each with the size that was asked for.
unfoldable pub blocks : List ℕ → StaticBuf → List (ℕ × ℕ)
blocks [] s = []
blocks (size ∷ sizes) s = let (ptr, s') = malloc size s in collect ptr size (blocks sizes s')

-- Blocks one behind the other, from an offset on, that end inside the buffer.
abbrev pub AreApart : ℕ → List (ℕ × ℕ) → Type 0
AreApart from [] = Unit
AreApart from ((ptr, size) ∷ bs) = (from ≤ ptr) × (ptr + size < buf_size) × AreApart (ptr + size) bs

-- A size that does not wrap the position around.
abbrev pub IsModest : ℕ → Type 0
IsModest size = size < 2 ^ 64 - buf_size

abbrev pub advance : ℕ → StaticBuf → StaticBuf
advance size s = record s { tmppos = s.tmppos + size }

malloc_cases :
    (size : ℕ) (s : StaticBuf)
    → s.tmppos < buf_size
    → IsModest size
    → (malloc size s ≡ (none, s))
      ⊎ ((malloc size s ≡ (some s.tmppos, advance size s)) × (s.tmppos + size < buf_size))
unfolding malloc
malloc_cases size s h small =
    let whole : (s.tmppos + size) % 2 ^ 64 ≡ s.tmppos + size = omega arith in
    elim (Bool-cases (leb buf_size ((s.tmppos + size) % 2 ^ 64))) [
      | inl full ↦ inl (rw full refl)
      | inr room ↦
          inr (rw room (ap (λ p. (some s.tmppos, record s { tmppos = p })) whole), ground arith)
    ]

-- From a position in the buffer on, the blocks that are returned do not overlap and lie in it, as
-- long as no size comes within the buffer's size of 2 ^ 64.
pub blocks-AreApart :
    (sizes : List ℕ) (s : StaticBuf)
    → s.tmppos < buf_size
    → All IsModest sizes
    → AreApart s.tmppos (blocks sizes s)
unfolding blocks
blocks-AreApart [] s h modest = tt
blocks-AreApart (size ∷ sizes) s h (small, modest) = elim (malloc_cases size s h small) [
  | inl full ↦ rw full (blocks-AreApart sizes s h modest)
  | inr (room, fits) ↦
      rw room (omega arith, fits, blocks-AreApart sizes (advance size s) fits modest)
]

-- A size that carries the position past 2 ^ 64 is not refused: a block is returned whose size the
-- buffer does not have, and the position goes back, so that the blocks before it are handed out
-- again.
pub malloc_wraps :
    (size : ℕ) (s : StaticBuf)
    → s.tmppos < buf_size
    → size < 2 ^ 64
    → 2 ^ 64 ≤ s.tmppos + size
    → ((malloc size s).0 ≡ some s.tmppos)
      × ((malloc size s).1.tmppos < s.tmppos)
      × (buf_size < size)
unfolding malloc
malloc_wraps size s h small wraps =
    let room : leb buf_size ((s.tmppos + size) % 2 ^ 64) ≡ false = ground arith in
    rw room (refl, omega arith, omega arith)
