-- ===== src/Glibc/Hashes.antt =====
-- The hashes of src/memhook/glibc.cpp and the functions that the two kinds of hash tables are built
-- with.
use Prim.Native.Nat.{bit_xor}
use memhook.Prelude.{ℕ, ◌+◌, ◌*◌, ◌/◌, ◌%◌, ◌^◌, ◌≡◌, refl, ◌∙◌, ap, List, [], ◌∷◌, arith}
use memhook.Glibc.{elf_hash_step, elf_hash_loop, dl_elf_hash, new_hash_loop, dl_new_hash}
use memhook.Glibc.Bits.{bit_and_low_28, bit_and_low_32, bit_and_high, bit_xor_low}

-- One round of the hash of the System V ABI, over a word of 32 bits: the four digits that the shift
-- brings to the top are folded into the low byte and cleared.
abbrev abi_step : ℕ → ℕ → ℕ
abi_step h c = bit_xor ((h * 16 + c) % 2 ^ 32 % 2 ^ 28) ((h * 16 + c) % 2 ^ 32 / 2 ^ 28 * 16)

abbrev pub abi_hash : ℕ → List ℕ → ℕ
abi_hash h [] = h
abi_hash h (c ∷ name) = abi_hash (abi_step h c) name

-- The hash of the GNU table, over a word of 32 bits.
abbrev pub gnu_hash : ℕ → List ℕ → ℕ
gnu_hash h [] = h
gnu_hash h (c ∷ name) = gnu_hash ((h * 33 + c) % 2 ^ 32) name

elf_hash_step-abi_step : (h c : ℕ) → elf_hash_step h c % 2 ^ 28 ≡ abi_step (h % 2 ^ 28) c
unfolding elf_hash_step
elf_hash_step-abi_step h c =
    let sum = (h * 2 ^ 4 + c) % 2 ^ 64 in
    ground (arith, bit_and_high sum, bit_xor_low sum (sum / 2 ^ 28 % 2 ^ 4 * 2 ^ 4) (omega arith))

elf_hash_loop-abi_hash :
    (h : ℕ) (name : List ℕ) → elf_hash_loop h name % 2 ^ 28 ≡ abi_hash (h % 2 ^ 28) name
unfolding elf_hash_loop
elf_hash_loop-abi_hash h [] = refl
elf_hash_loop-abi_hash h (c ∷ name) =
    elf_hash_loop-abi_hash (elf_hash_step h c) name
    ∙ ap (λ k. abi_hash k name) (elf_hash_step-abi_step h c)

new_hash_loop-gnu_hash :
    (h : ℕ) (name : List ℕ) → new_hash_loop h name % 2 ^ 32 ≡ gnu_hash (h % 2 ^ 32) name
unfolding new_hash_loop
new_hash_loop-gnu_hash h [] = refl
new_hash_loop-gnu_hash h (c ∷ name) =
    new_hash_loop-gnu_hash ((h * 33 + c) % 2 ^ 64) name ∙ ap (λ k. gnu_hash k name) (omega arith)

-- On every name the two hash functions, over words of 64 bits with digits left above, compute the
-- hash of the System V ABI and that of the GNU table over words of 32 bits.
pub hashes_published :
    (name : List ℕ) → (dl_elf_hash name ≡ abi_hash 0 name) × (dl_new_hash name ≡ gnu_hash 5381 name)
unfolding dl_elf_hash dl_new_hash
hashes_published name = (
  omega (arith, bit_and_low_28 (elf_hash_loop 0 name), elf_hash_loop-abi_hash 0 name),
  bit_and_low_32 (new_hash_loop 5381 name) ∙ new_hash_loop-gnu_hash 5381 name,
)
