-- ===== src/Memview/Command.antt =====
-- `main` of src/memview/memview.cpp: what the command line makes of a view. Parsing is Boost's; the
-- options are given with their values, times and durations as they were read.
pub mod Chosen
use memhook.Prelude.{
  ℕ, ℤ, pos, ◌≡◌, refl, ap, ◌∙◌, ◌==◌, Bool, true, false, not, ◌&&◌, ◌||◌, Option, none, some, List,
  [], ◌∷◌, ◌++◌, is_some, if◌then◌else◌, append-nil, append_assoc, sym,
}
use memhook.Memview.{
  ViewOption, min_size, min_time, max_time, min_time_from_now, max_time_from_now,
  min_time_from_start, max_time_from_start, OptionFlag, no_lock, show_call_stack, sort_by_address,
  sort_by_time, sort_by_size, get_option_flag, set_option_flag, default_flags,
}
use memhook.Memview.Views.{View}
use memhook.Engine.Start.{shared_memory}

-- `options_map`: the options that were given.
pub record OptionsMap : Type 0 where
  pub help : Bool
  pub shared_memory_path : Option (List ℕ)
  pub mapped_file : Option (List ℕ)
  pub show_callstack : Option Bool
  pub aggregate : Option Bool
  pub no_lock_value : Option Bool
  pub get_storage_info : Bool
  pub by_time : Bool
  pub by_size : Bool
  pub by_address : Bool
  pub min_size_value : Option ℕ
  pub min_time_value : Option ℤ
  pub max_time_value : Option ℤ
  pub min_from_now : Option ℤ
  pub max_from_now : Option ℤ
  pub min_from_start : Option ℤ
  pub max_from_start : Option ℤ

pub data Works : Type 0 where
  shm_works : List ℕ → Works
  mmf_works : List ℕ → Works

-- What the program goes on to do.
pub data Command : Type 0 where
  fails : Command
  prints_storage_info : Works → Bool → Command
  -- The storage, whether the view is the aggregated one, and the view.
  writes : Works → Bool → View → Command

-- `SetOption`
unfoldable pub set_option : ViewOption → View → View
set_option o v = record { options = v.options ++ o ∷ []; flags = v.flags }

unfoldable pub set_flag : OptionFlag → Bool → View → View
set_flag f setval v = record { options = v.options; flags = set_option_flag f setval v.flags }

-- What the loop over `options_map` does for an option that was given, or was not.
unfoldable pub with_option : {A : Type 0} → Option A → (A → View → View) → View → View
with_option none set v = v
with_option (some a) set v = set a v

abbrev pub when : Bool → (View → View) → View → View
when b set v = if b then set v else v

-- The loop over `options_map`, which holds its options by name. The clock is read when an option
-- from now is made, the one on the maximum first.
unfoldable pub set_options : ℤ → ℤ → OptionsMap → View → View
set_options max_now min_now m v =
    let v1 = with_option m.max_time_value (λ t. set_option (max_time t)) v in
    let v2 = with_option m.max_from_now (λ d. set_option (max_time_from_now max_now d)) v1 in
    let v3 = with_option m.max_from_start (λ d. set_option (max_time_from_start (pos 0) d)) v2 in
    let v4 = with_option m.min_size_value (λ n. set_option (min_size n)) v3 in
    let v5 = with_option m.min_time_value (λ t. set_option (min_time t)) v4 in
    let v6 = with_option m.min_from_now (λ d. set_option (min_time_from_now min_now d)) v5 in
    let v7 = with_option m.min_from_start (λ d. set_option (min_time_from_start (pos 0) d)) v6 in
    let v8 = with_option m.show_callstack (set_flag show_call_stack) v7 in
    let v9 = when m.by_address (set_flag sort_by_address true) v8 in
    let v10 = when m.by_size (set_flag sort_by_size true) v9 in
    when m.by_time (set_flag sort_by_time true) v10

unfoldable pub choose_works : OptionsMap → Works
choose_works m = elim m.mapped_file [
  | some path ↦ mmf_works path
  | none ↦ elim m.shared_memory_path [ some path ↦ shm_works path | none ↦ shm_works shared_memory ]
]

-- `parse_command_line_arguments`, behind the parsing: whether the program goes on.
unfoldable pub accepts : OptionsMap → Bool
accepts m = not m.help && not (is_some m.shared_memory_path && is_some m.mapped_file)

unfoldable pub new_view : OptionsMap → View
new_view m =
    with_option m.no_lock_value (set_flag no_lock) (record { options = []; flags = default_flags })

-- `main`
unfoldable pub memview_main : ℤ → ℤ → OptionsMap → Command
memview_main max_now min_now m =
    let v = new_view m in
    if not (accepts m)
    then fails
    else (if m.get_storage_info
        then prints_storage_info (choose_works m) (get_option_flag v.flags no_lock)
        else writes (choose_works m) (is_some m.aggregate) (set_options max_now min_now m v))

-- The options of the view that are given, by name.
abbrev pub if_given : {A : Type 0} → Option A → (A → ViewOption) → List ViewOption
if_given none o = []
if_given (some a) o = o a ∷ []

abbrev pub given_options : ℤ → ℤ → OptionsMap → List ViewOption
given_options max_now min_now m =
    if_given m.max_time_value max_time
    ++ if_given m.max_from_now (max_time_from_now max_now)
    ++ if_given m.max_from_start (max_time_from_start (pos 0))
    ++ if_given m.min_size_value min_size
    ++ if_given m.min_time_value min_time
    ++ if_given m.min_from_now (min_time_from_now min_now)
    ++ if_given m.min_from_start (min_time_from_start (pos 0))

-- The order that counts when several are given.
abbrev pub chosen_order : Bool → Bool → Bool → OptionFlag
chosen_order by_time by_size by_address =
    if by_time
    then sort_by_time
    else (if by_size then sort_by_size else (if by_address then sort_by_address else sort_by_time))
