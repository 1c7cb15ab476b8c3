-- ===== src/Memview/Flags.antt =====
-- The sort flags of src/memview/mapped_view_base.cpp.
use memhook.Prelude.{
  ℕ, ◌≡◌, refl, ◌==◌, Bool, true, false, not, ◌&&◌, inl, inr, List, [], ◌∷◌, arith, Bool-cases, sym,
  if◌then◌else◌,
}
use memhook.Memview.{
  OptionFlag, no_lock, show_call_stack, sort_by_address, sort_by_time, sort_by_size, flag_value,
  get_option_flag, set_option_flag, default_flags,
}

-- The calls of `SetOptionFlag` on a new view, one after the other.
abbrev pub flags_after : List (OptionFlag × Bool) → ℕ → ℕ
flags_after [] flags = flags
flags_after ((f, setval) ∷ calls) flags = flags_after calls (set_option_flag f setval flags)

abbrev is_sort : OptionFlag → Bool
is_sort no_lock = false
is_sort show_call_stack = false
is_sort _ = true

abbrev all_flags : List OptionFlag
all_flags = no_lock ∷ show_call_stack ∷ sort_by_address ∷ sort_by_time ∷ sort_by_size ∷ []

-- Whether a flag is set once another is set or cleared.
abbrev pub flag_then : OptionFlag → Bool → OptionFlag → Bool → Bool
flag_then f setval g was =
    if flag_value f == flag_value g then setval else (if is_sort f && is_sort g then false else was)

abbrev pub same_bool : Bool → Bool → Bool
same_bool true b = b
same_bool false b = not b

abbrev pub all_of : (OptionFlag → Bool) → Bool
all_of p =
    p no_lock && (p show_call_stack && (p sort_by_address && (p sort_by_time && p sort_by_size)))

pub all_of_sound : (p : OptionFlag → Bool) (f : OptionFlag) → all_of p ≡ true → p f ≡ true
all_of_sound p no_lock h = ground arith
all_of_sound p show_call_stack h = ground arith
all_of_sound p sort_by_address h = ground arith
all_of_sound p sort_by_time h = ground arith
all_of_sound p sort_by_size h = ground arith

abbrev pub both : (Bool → Bool) → Bool
both p = p true && p false

pub both_sound : (p : Bool → Bool) (b : Bool) → both p ≡ true → p b ≡ true
both_sound p true h = ground arith
both_sound p false h = ground arith

-- The values of a view's flags: one sort order at most, and the two switches.
abbrev flag_values : List ℕ
flag_values = 0 ∷ 1 ∷ 2 ∷ 3 ∷ 16 ∷ 17 ∷ 18 ∷ 19 ∷ 32 ∷ 33 ∷ 34 ∷ 35 ∷ 64 ∷ 65 ∷ 66 ∷ 67 ∷ []

abbrev is_value : ℕ → List ℕ → Bool
is_value n [] = false
is_value n (m ∷ ms) = if n == m then true else is_value n ms

abbrev all_values : (ℕ → Bool) → List ℕ → Bool
all_values p [] = true
all_values p (m ∷ ms) = p m && all_values p ms

all_values_sound :
    (p : ℕ → Bool) (n : ℕ) (ms : List ℕ)
    → all_values p ms ≡ true
    → is_value n ms ≡ true
    → p n ≡ true
all_values_sound p n [] h v = absurd (ground arith)
all_values_sound p n (m ∷ ms) h v = elim (Bool-cases (n == m)) [
  | inl here ↦ let at : n ≡ m = ground arith in rw at (ground arith)
  | inr there ↦ all_values_sound p n ms (ground arith) (ground arith)
]

abbrev step_table : ℕ → OptionFlag → Bool → OptionFlag → Bool
step_table flags f setval g =
    is_value (set_option_flag f setval flags) flag_values
    && same_bool (get_option_flag (set_option_flag f setval flags) g)
        (flag_then f setval g (get_option_flag flags g))

step_table-true :
    all_values (λ flags. all_of (λ f. both (λ v. all_of (step_table flags f v)))) flag_values ≡ true
unfolding set_option_flag get_option_flag
step_table-true = refl

step :
    (flags : ℕ) (f : OptionFlag) (setval : Bool) (g : OptionFlag)
    → is_value flags flag_values ≡ true
    → step_table flags f setval g ≡ true
step flags f setval g v = all_of_sound (step_table flags f setval) g (
    both_sound (λ v. all_of (step_table flags f v)) setval
      (all_of_sound (λ f. both (λ v. all_of (step_table flags f v))) f
        (all_values_sound (λ flags. all_of (λ f. both (λ v. all_of (step_table flags f v)))) flags
          flag_values step_table-true v)))

pub same_bool_sound : (a b : Bool) → same_bool a b ≡ true → a ≡ b
same_bool_sound true b h = sym h
same_bool_sound false true h = cc
same_bool_sound false false h = refl

flags_after_value :
    (calls : List (OptionFlag × Bool)) (flags : ℕ)
    → is_value flags flag_values ≡ true
    → is_value (flags_after calls flags) flag_values ≡ true
flags_after_value [] flags v = v
flags_after_value ((f, setval) ∷ calls) flags v =
    flags_after_value calls (set_option_flag f setval flags)
      (ground (arith, step flags f setval f v))

abbrev pub sorts_once : ℕ → Bool
sorts_once flags =
    not (get_option_flag flags sort_by_address && get_option_flag flags sort_by_time)
    && (not (get_option_flag flags sort_by_address && get_option_flag flags sort_by_size)
        && not (get_option_flag flags sort_by_time && get_option_flag flags sort_by_size))

sorts_once_table : all_values sorts_once flag_values ≡ true
unfolding get_option_flag
sorts_once_table = refl

-- After any calls of `SetOptionFlag` on a new view at most one sort order is chosen, and one call
-- more sets or clears its flag, clears the other sort orders when it is one itself, and leaves the
-- other flags as they were.
pub set_option_flag_lem :
    (calls : List (OptionFlag × Bool)) (f : OptionFlag) (setval : Bool) (g : OptionFlag)
    → let flags = flags_after calls default_flags in
      (sorts_once flags ≡ true)
      × (get_option_flag (set_option_flag f setval flags) g
          ≡ flag_then f setval g (get_option_flag flags g))
set_option_flag_lem calls f setval g =
    let flags = flags_after calls default_flags in
    let valid = flags_after_value calls default_flags refl in
    (
      all_values_sound sorts_once flags flag_values sorts_once_table valid,
      same_bool_sound (get_option_flag (set_option_flag f setval flags) g)
          (flag_then f setval g (get_option_flag flags g))
          (ground (arith, step flags f setval g valid)),
    )
