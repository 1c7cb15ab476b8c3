-- ===== src/Loader/Covered.antt =====
-- No function that src/memhook/memhook.cpp exports calls through a pointer that
-- src/memhook/dl_functions.cpp leaves NULL.
use Prim.Native.String.{String}
use text.Mathlib.Text.{◌==◌ as ◌=s=◌}
use memhook.Prelude.{
  ℕ, suc, ◌==◌, ◌≡◌, refl, Bool, true, false, ◌&&◌, Option, none, some, List, [], ◌∷◌,
  if◌then◌else◌, arith, Bool-cases, inl, inr, All,
}
use memhook.Loader.{FnPtr, null, at, is_null, Linker, done, World, Build, later_names}
use memhook.Loader.Start.{initialize}
use memhook.Loader.Resolved.{HasReal}
use memhook.Loader.Filling.{contains, AnswersNext, IsFoundName}
use memhook.Loader.Found.{initialize_fills}
use memhook.Loader.Exports.{Hook, hook_field, exports}

abbrev looked_up : List String → Option String → Bool
looked_up names none = true
looked_up names (some name) = contains name names

all_looked_up : List String → List (String × Hook) → Bool
all_looked_up names [] = true
all_looked_up names ((symbol, h) ∷ es) = looked_up names (hook_field h) && all_looked_up names es

abbrev all_names : Build → List String
all_names b = "free" ∷ "malloc" ∷ "calloc" ∷ later_names b

abbrev every : (Bool → Bool) → Bool
every f = f true && f false

every_sound : (f : Bool → Bool) (b : Bool) → every f ≡ true → f b ≡ true
every_sound f true h = ground arith
every_sound f false h = ground arith

abbrev covers : Bool → Bool → Bool → Bool → Bool → Bool
covers c a v p d =
    let b : Build = record {
      have_cfree = c;
      have_aligned_alloc = a;
      have_valloc = v;
      have_pvalloc = p;
    } in
    all_looked_up (all_names b) (exports b d)

every_build :
    every (λ c. every (λ a. every (λ v. every (λ p. every (λ d. covers c a v p d))))) ≡ true
unfolding all_looked_up exports hook_field
every_build = refl

-- Every pointer that an exported function needs is among those that are looked up, in every build.
exports_looked_up :
    (b : Build) (d : Bool)
    → covers b.have_cfree b.have_aligned_alloc b.have_valloc b.have_pvalloc d ≡ true
exports_looked_up b d =
    let c = b.have_cfree in
    let a = b.have_aligned_alloc in
    let v = b.have_valloc in
    let p = b.have_pvalloc in
    every_sound (λ d. covers c a v p d) d
      (every_sound (λ p. every (λ d. covers c a v p d)) p
        (every_sound (λ v. every (λ p. every (λ d. covers c a v p d))) v
          (every_sound (λ a. every (λ v. every (λ p. every (λ d. covers c a v p d)))) a
            (every_sound (λ c. every (λ a. every (λ v. every (λ p. every (λ d. covers c a v p d)))))
              c every_build))))

-- A pointer that is there, if the function calls through one.
abbrev pub IsThere : (String → FnPtr) → Option String → Type 0
IsThere t none = Unit
IsThere t (some name) = is_null (t name) ≡ false

module _ (t : String → FnPtr) (names : List String)
    (found : (n : String) → contains n names ≡ true → is_null (t n) ≡ false) where
  one-IsThere : (o : Option String) → looked_up names o ≡ true → IsThere t o
  one-IsThere none h = tt
  one-IsThere (some name) h = found name h

  all-IsThere :
      (es : List (String × Hook))
      → all_looked_up names es ≡ true
      → All (λ (e : String × Hook). IsThere t (hook_field e.1)) es
  unfolding all_looked_up
  all-IsThere [] h = tt
  all-IsThere ((symbol, hook) ∷ es) h = elim (Bool-cases (looked_up names (hook_field hook))) [
    | inl e ↦ (one-IsThere (hook_field hook) e, all-IsThere es (ground arith))
    | inr e ↦ absurd (ground arith)
  ]

-- `Initialize` ends, and then no exported function calls a NULL pointer of `DLFunctions`, whatever
-- the build has, when the library's own search finds the real `dlsym` and that finds each of the
-- functions.
pub exports-IsThere :
    (l : Linker) (real : ℕ) (next : String → ℕ) (fuel : ℕ) (b : Build) (have_dlvsym : Bool)
    (w : World l)
    → (real == 0) ≡ false
    → AnswersNext l real next
    → w.table "free" ≡ null
    → HasReal l "dlsym" real w
    → All (IsFoundName next) ("free" ∷ "malloc" ∷ "calloc" ∷ later_names b)
    → (w' : World l) × (initialize l (suc fuel) b w ≡ done w')
      × All (λ (e : String × Hook). IsThere w'.table (hook_field e.1)) (exports b have_dlvsym)
exports-IsThere l real next fuel b have_dlvsym w nonnull answers empty has good =
    let (w', ended, each, _, _) =
      initialize_fills l real next nonnull answers fuel b w empty has good in
    (
      w',
      ended,
      all-IsThere w'.table (all_names b) (λ n h. is_found n (w'.table n) (w.table n) (each n) h)
          (exports b have_dlvsym) (exports_looked_up b have_dlvsym),
    )
  where
    is_found :
        (n : String) (f old : FnPtr)
        → f ≡ (
            if "dlsym" =s= n
            then at real
            else if contains n (all_names b)
            then at (next n)
            else old)
        → contains n (all_names b) ≡ true
        → is_null f ≡ false
    is_found n f old e h = ground arith
