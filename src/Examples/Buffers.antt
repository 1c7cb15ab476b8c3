-- ===== src/Examples/Buffers.antt =====
-- The static buffer with a few blocks.
use memhook.Prelude.{ℕ, ◌^◌, ◌-◌, ◌<◌, ◌≡◌, some, List, [], ◌∷◌, All, arith}
use memhook.StaticBuf.{
  StaticBuf, malloc, blocks, AreApart, IsModest, blocks-AreApart, malloc_wraps, buf_size,
}

abbrev fresh : StaticBuf
fresh = record { tmpbuf = λ i. 7; tmppos = 16 }

abbrev sizes : List ℕ
sizes = 100 ∷ 8100 ∷ 200 ∷ []

sizes-IsModest : All IsModest sizes
sizes-IsModest = ground arith

blocks-AreApart_example : AreApart 16 (blocks sizes fresh)
blocks-AreApart_example = blocks-AreApart sizes fresh (omega arith) sizes-IsModest

malloc_wraps_example :
    ((malloc (2 ^ 64 - 8) fresh).0 ≡ some 16)
    × ((malloc (2 ^ 64 - 8) fresh).1.tmppos < 16)
    × (buf_size < 2 ^ 64 - 8)
malloc_wraps_example = malloc_wraps (2 ^ 64 - 8) fresh (omega arith) (omega arith) (omega arith)
