-- ===== src/Memview/Command/Chosen.antt =====
-- What the command line of src/memview/memview.cpp chooses.
use memhook.Prelude.{
  ℕ, ℤ, ◌≡◌, refl, ap, ◌∙◌, sym, ◌==◌, Bool, true, false, ◌&&◌, Option, none, some, List, ◌++◌,
  if◌then◌else◌, append-nil, append_assoc, arith,
}
use memhook.Memview.{
  ViewOption, OptionFlag, no_lock, show_call_stack, sort_by_address, sort_by_time, sort_by_size,
  flag_value, get_option_flag, set_option_flag, default_flags,
}
use memhook.Memview.Flags.{same_bool, all_of, both, all_of_sound, both_sound, same_bool_sound}
use memhook.Memview.Views.{View}
use memhook.Memview.Command.{
  OptionsMap, set_option, set_flag, with_option, when, set_options, new_view, if_given,
  given_options, chosen_order,
}

with_option-set_option :
    {A : Type 0} (o : Option A) (f : A → ViewOption) (options : List ViewOption) (flags : ℕ)
    → with_option o (λ a. set_option (f a)) (record { options = options; flags = flags })
      ≡ record { options = options ++ if_given o f; flags = flags }
unfolding with_option set_option
with_option-set_option none f options flags =
    ap (λ (l : List ViewOption). record { options = l; flags = flags }) (sym (append-nil options))
with_option-set_option (some a) f options flags = refl

abbrev with_flag : Option Bool → OptionFlag → ℕ → ℕ
with_flag none f flags = flags
with_flag (some setval) f flags = set_option_flag f setval flags

with_option-set_flag :
    (o : Option Bool) (f : OptionFlag) (options : List ViewOption) (flags : ℕ)
    → with_option o (set_flag f) (record { options = options; flags = flags })
      ≡ record { options = options; flags = with_flag o f flags }
unfolding with_option set_flag
with_option-set_flag none f options flags = refl
with_option-set_flag (some setval) f options flags = refl

abbrev flag_when : Bool → OptionFlag → ℕ → ℕ
flag_when b f flags = if b then set_option_flag f true flags else flags

when-set_flag :
    (b : Bool) (f : OptionFlag) (options : List ViewOption) (flags : ℕ)
    → when b (set_flag f true) (record { options = options; flags = flags })
      ≡ record { options = options; flags = flag_when b f flags }
unfolding set_flag
when-set_flag true f options flags = refl
when-set_flag false f options flags = refl

-- The flags that the command line leads to.
abbrev flags_of : Option Bool → Option Bool → Bool → Bool → Bool → ℕ
flags_of locks shows address size time = flag_when time sort_by_time (
    flag_when size sort_by_size (
      flag_when address sort_by_address
        (with_flag shows show_call_stack (with_flag locks no_lock default_flags))))

set_options-given_options :
    (max_now min_now : ℤ) (m : OptionsMap)
    → set_options max_now min_now m (new_view m) ≡ record {
      options = given_options max_now min_now m;
      flags = flags_of m.no_lock_value m.show_callstack m.by_address m.by_size m.by_time;
    }
unfolding set_options new_view
set_options-given_options max_now min_now m =
    simp (with_option-set_option, with_option-set_flag, when-set_flag, append_assoc) refl

abbrev pub given : Option Bool → Bool
given none = false
given (some b) = b

-- Which flags are to be set.
abbrev pub is_chosen : OptionsMap → OptionFlag → Bool
is_chosen m no_lock = given m.no_lock_value
is_chosen m show_call_stack = given m.show_callstack
is_chosen m g = flag_value g == flag_value (chosen_order m.by_time m.by_size m.by_address)

abbrev expected : Option Bool → Option Bool → Bool → Bool → Bool → OptionFlag → Bool
expected locks shows address size time no_lock = given locks
expected locks shows address size time show_call_stack = given shows
expected locks shows address size time g =
    flag_value g == flag_value (chosen_order time size address)

abbrev options_all : (Option Bool → Bool) → Bool
options_all p = p none && both (λ b. p (some b))

options_all_sound : (p : Option Bool → Bool) (o : Option Bool) → options_all p ≡ true → p o ≡ true
options_all_sound p none h = ground arith
options_all_sound p (some b) h = both_sound (λ b. p (some b)) b (ground arith)

abbrev agrees : Option Bool → Option Bool → Bool → Bool → Bool → OptionFlag → Bool
agrees locks shows address size time g =
    same_bool (get_option_flag (flags_of locks shows address size time) g)
      (expected locks shows address size time g)

flags_table :
    options_all
      (λ l. options_all (λ w. both (λ a. both (λ s. both (λ t. all_of (agrees l w a s t))))))
    ≡ true
unfolding get_option_flag set_option_flag
flags_table = refl

flags_of-expected :
    (l w : Option Bool) (a s t : Bool) (g : OptionFlag)
    → get_option_flag (flags_of l w a s t) g ≡ expected l w a s t g
flags_of-expected l w a s t g =
    let of_t = all_of_sound (agrees l w a s t) g in
    let of_s = both_sound (λ t. all_of (agrees l w a s t)) t in
    let of_a = both_sound (λ s. both (λ t. all_of (agrees l w a s t))) s in
    let of_w = both_sound (λ a. both (λ s. both (λ t. all_of (agrees l w a s t)))) a in
    let of_l =
      options_all_sound (λ w. both (λ a. both (λ s. both (λ t. all_of (agrees l w a s t))))) w in
    let whole =
      options_all_sound
        (λ l. options_all (λ w. both (λ a. both (λ s. both (λ t. all_of (agrees l w a s t)))))) l
        flags_table in
    same_bool_sound (get_option_flag (flags_of l w a s t) g) (expected l w a s t g)
      (of_t (of_s (of_a (of_w (of_l whole)))))

-- Whatever the order on the command line, the view of `main` has the filters that are given, by
-- name, and one sort order: the time if it is given or none is, else the size, else the address.
-- The other flags are as given, and off when they are not.
pub set_options-is_chosen :
    (max_now min_now : ℤ) (m : OptionsMap) (g : OptionFlag)
    → let v = set_options max_now min_now m (new_view m) in
      (v.options ≡ given_options max_now min_now m) × (get_option_flag v.flags g ≡ is_chosen m g)
set_options-is_chosen max_now min_now m g =
    let whole = set_options-given_options max_now min_now m in
    (
      ap (λ (v : View). v.options) whole,
      ap (λ (v : View). get_option_flag v.flags g) whole
          ∙ flags_of-expected m.no_lock_value m.show_callstack m.by_address m.by_size m.by_time g
          ∙ same g,
    )
  where
    same :
        (g : OptionFlag)
        → expected m.no_lock_value m.show_callstack m.by_address m.by_size m.by_time g
          ≡ is_chosen m g
    same no_lock = refl
    same show_call_stack = refl
    same sort_by_address = refl
    same sort_by_time = refl
    same sort_by_size = refl
