-- ===== src/Wire/Truncation.antt =====
-- The reader of include/memhook/serialization.h on input that is cut short.
use memhook.Prelude.{
  ℕ, zero, suc, ◌≤◌, ◌≡◌, refl, ap, Bool, Option, none, some, ◌>>=◌, List, [], ◌∷◌, ◌++◌, length,
  take, drop, arith, Option-cases, inl, inr, append-nil, length-append,
}
use memhook.Wire.Types.{Shape, word, enum, time_point, text, seq, both, Value}
use memhook.Wire.Codec.{int_of_word, write, read_word, read_chars, read_all, read, Fits}
use memhook.Wire.RoundTrip.{read-write}

module _ {ℓ} {A : Type ℓ} where
  take-append_le : (n : ℕ) (xs ys : List A) → n ≤ length xs → take n (xs ++ ys) ≡ take n xs
  take-append_le zero xs ys h = refl
  take-append_le (suc n) [] ys h = absurd (omega arith)
  take-append_le (suc n) (x ∷ xs) ys h = ap (◌∷◌ x) (take-append_le n xs ys (omega arith))

  drop-append_le : (n : ℕ) (xs ys : List A) → n ≤ length xs → drop n (xs ++ ys) ≡ drop n xs ++ ys
  drop-append_le zero xs ys h = refl
  drop-append_le (suc n) [] ys h = absurd (omega arith)
  drop-append_le (suc n) (x ∷ xs) ys h = drop-append_le n xs ys (omega arith)

-- A reader that ignores the bytes behind the value.
abbrev Local {ℓ} : {A : Type ℓ} → (List ℕ → Option (A × List ℕ)) → Type ℓ
Local {A} f =
    (buf more rest : List ℕ) (v : A)
    → f buf ≡ some (v, rest)
    → f (buf ++ more) ≡ some (v, rest ++ more)

read_word-Local : (e : Bool) (w : ℕ) → Local (read_word e w)
unfolding read_word
read_word-Local e w buf more rest v h =
    ground (arith, length-append buf more, take-append_le w buf more, drop-append_le w buf more)

read_chars-Local : (n : ℕ) → Local (read_chars n)
unfolding read_chars
read_chars-Local n buf more rest v h =
    ground (arith, length-append buf more, take-append_le n buf more, drop-append_le n buf more)

bind-Local {ℓ κ} :
    {A : Type ℓ} {B : Type κ} (f : List ℕ → Option (A × List ℕ))
    (g : A → List ℕ → Option (B × List ℕ))
    → Local f
    → ((a : A) → Local (g a))
    → Local (λ buf. f buf >>= λ p. g p.0 p.1)
bind-Local f g lf lg buf more rest v h = elim (Option-cases (f buf)) [
  | inl e ↦ absurd (cc (rw e at h))
  | inr ((a, mid), e) ↦ rw (lf buf more mid a e) (lg a mid more rest v (rw e at h))
]

read_all-Local :
    {A : Type 0} (f : List ℕ → Option (A × List ℕ))
    → Local f
    → (n : ℕ) (acc : List A) → Local (read_all f n acc)
unfolding read_all
read_all-Local f lf zero acc = λ buf more rest v h. ground arith
read_all-Local f lf (suc n) acc =
    bind-Local f (λ v. read_all f n (acc ++ (v ∷ []))) lf
      (λ v. read_all-Local f lf n (acc ++ (v ∷ [])))

pub read-Local : (e : Bool) (s : Shape) → Local (read e s)
unfolding read
read-Local e (word w) = read_word-Local e w
read-Local e enum = read_word-Local e 4
read-Local e time_point =
    bind-Local (read_word e 8) (λ rep rest. some (int_of_word rep, rest)) (read_word-Local e 8)
      (λ rep buf more rest v h. ground arith)
read-Local e text = bind-Local (read_word e 4) read_chars (read_word-Local e 4) read_chars-Local
read-Local e (seq s) =
    bind-Local (read_word e 4) (λ n. read_all (read e s) n []) (read_word-Local e 4)
      (λ n. read_all-Local (read e s) (read-Local e s) n [])
read-Local e (both s t) =
    bind-Local (read e s) (λ a buf. read e t buf >>= λ p. some ((a, p.0), p.1)) (read-Local e s)
      (λ a.
        bind-Local (read e t) (λ b buf. some ((a, b), buf)) (read-Local e t)
          (λ b buf more rest v h. ground arith))

-- On every proper prefix of what was written for a value that fits its representation the reader
-- would load past the end.
pub read_truncated :
    (e : Bool) (s : Shape) (v : Value s) (front : List ℕ) (x : ℕ) (back : List ℕ)
    → Fits s v
    → write e s v ≡ front ++ (x ∷ back)
    → read e s front ≡ none
read_truncated e s v front x back h cut = elim (Option-cases (read e s front)) [
  | inl out ↦ out
  | inr ((u, rest), ok) ↦
      let whole = rw (append-nil, cut) at (read-write e s v [] h) in
      let same = read-Local e s front (x ∷ back) rest u ok in
      let nothing : rest ++ (x ∷ back) ≡ [] = cc in
      absurd (ground (arith, ap length nothing, length-append rest (x ∷ back)))
]
