-- ===== src/Loader/Found.antt =====
-- The initialization of src/memhook/dl_functions.cpp ends, with each function that it looks up.
use Prim.Native.String.{String}
use text.Mathlib.Text.{◌==◌ as ◌=s=◌}
use text.Mathlib.TextEquality.{eq_iff}
use memhook.Prelude.{
  ℕ, zero, suc, ◌==◌, ◌≡◌, refl, sym, ap, ◌∙◌, inl, inr, false, List, [], ◌∷◌, if◌then◌else◌, arith,
  Bool-cases, All,
}
use memhook.Loader.{
  FnPtr, null, at, is_null, Linker, Outcome, done, World, Table, set_fn, put, Build, later_names,
}
use memhook.Loader.Start.{use_static_buf, do_initialize, initialize}
use memhook.Loader.Served.{IsServed, IsQuiet}
use memhook.Loader.Resolved.{HasReal}
use memhook.Loader.Filling.{
  contains, AnswersNext, IsFoundName, IsServed-by_table, dl_sym_rtld_next_done, Filled, fill_done,
  first_step,
}

module _ (l : Linker) (real : ℕ) (next : String → ℕ) (nonnull : (real == 0) ≡ false)
    (answers : AnswersNext l real next) where
  module _ (init : World l → Outcome (World l)) (quiet : IsQuiet l init) where
    do_initialize_done :
        (b : Build) (w : World l)
        → All (IsFoundName next) ("free" ∷ "malloc" ∷ "calloc" ∷ later_names b)
        → HasReal l "dlsym" real w
        → (w' : World l) × (do_initialize l init b w ≡ done w')
          × Filled l real next nonnull answers init quiet
              ("free" ∷ "malloc" ∷ "calloc" ∷ later_names b)
              w
              w'
    unfolding do_initialize use_static_buf set_fn
    do_initialize_done b w (free_ok, (malloc_ok, (calloc_ok, later_ok))) has =
        let w0 = use_static_buf l init w in
        let h0 : IsServed l w0 = record { has_free = refl; has_malloc = refl; has_calloc = refl } in
        let has0 : HasReal l "dlsym" real w0 = has in
        let (w1, s1, t1, d1) =
          dl_sym_rtld_next_done l real next nonnull answers init quiet "free" w0 free_ok h0 has0 in
        let h1 = IsServed-by_table l real next nonnull answers w0 w1 t1 h0 in
        let (w2, s2, t2, d2) =
          dl_sym_rtld_next_done l real next nonnull answers init quiet "malloc" w1 malloc_ok h1
            (inl (ap (λ t. t "dlsym") t1)) in
        let h2 = IsServed-by_table l real next nonnull answers w1 w2 t2 h1 in
        let (w3, s3, t3, d3) =
          dl_sym_rtld_next_done l real next nonnull answers init quiet "calloc" w2 calloc_ok h2
            (inl (ap (λ t. t "dlsym") t2)) in
        let found =
          put l "calloc" (at (next "calloc"))
            (put l "malloc" (at (next "malloc")) (put l "free" (at (next "free")) w3)) in
        let (w', filled, (each, own, depth)) =
          fill_done l real next nonnull answers init quiet (later_names b) found later_ok
            (record { has_free = refl; has_malloc = refl; has_calloc = refl })
            (ap (λ t. t "dlsym") t3) in
        (
          w',
          rw (s1, s2, s3) filled,
          (
            λ n e.
                last_step n (later_names b) _ _ (w.table n)
                  (first_step l real next nonnull answers init quiet w.table w1.table w2.table
                    w3.table n e t1 t2 t3)
                  (each n e),
            own,
            depth ∙ d3 ∙ d2 ∙ d1,
          ),
        )
      where
        last_step :
            (n : String) (names : List String) (f g old : FnPtr)
            → g ≡ (if contains n ("free" ∷ "malloc" ∷ "calloc" ∷ []) then at (next n) else old)
            → f ≡ (if contains n names then at (next n) else g)
            → f ≡ (if contains n ("free" ∷ "malloc" ∷ "calloc" ∷ names) then at (next n) else old)
        last_step n names f g old e d = ground arith

  IsQuiet-initialize : (fuel : ℕ) (b : Build) → IsQuiet l (initialize l fuel b)
  unfolding initialize
  IsQuiet-initialize zero b w h = rw h refl
  IsQuiet-initialize (suc fuel) b w h = rw h refl

  -- The table by one equation for each name.
  table_at :
      (f : FnPtr) (t : Table) (names : List String) (n : String)
      → (("dlsym" =s= n) ≡ false → f ≡ (if contains n names then at (next n) else t n))
      → (n ≡ "dlsym" → f ≡ at real)
      → f ≡ (if "dlsym" =s= n then at real else if contains n names then at (next n) else t n)
  table_at f t names n other own = elim (Bool-cases ("dlsym" =s= n)) [
    | inl e ↦ rw e (own (sym ((eq_iff "dlsym" n).0 e)))
    | inr e ↦ rw e (other e)
  ]

  -- The first call of `Initialize` ends, though the dynamic linker may allocate by the hooked
  -- functions in the course of each lookup: with fuel for one more call it comes to a table in
  -- which each function that is looked up stands with the address that the real `dlsym` answers for
  -- it behind this library, and no other but `dlsym` itself is changed; and then it does nothing
  -- more. This holds when the library's own search finds the real `dlsym`, and that finds each of
  -- the functions.
  pub initialize_fills :
      (fuel : ℕ) (b : Build) (w : World l)
      → w.table "free" ≡ null
      → HasReal l "dlsym" real w
      → All (IsFoundName next) ("free" ∷ "malloc" ∷ "calloc" ∷ later_names b)
      → (w' : World l) × (initialize l (suc fuel) b w ≡ done w')
        × ((n : String)
            → w'.table n ≡ (
                if "dlsym" =s= n
                then at real
                else if contains n ("free" ∷ "malloc" ∷ "calloc" ∷ later_names b)
                then at (next n)
                else w.table n))
        × (w'.hook_depth ≡ w.hook_depth)
        × (initialize l fuel b w' ≡ done w')
  unfolding initialize
  initialize_fills fuel b w empty has good =
      let (w', started, (each, own, depth)) =
        do_initialize_done (initialize l fuel b) (IsQuiet-initialize fuel b) b w good has in
      (
        w',
        rw (empty, started) refl,
        λ n.
            table_at (w'.table n) w.table ("free" ∷ "malloc" ∷ "calloc" ∷ later_names b) n (each n)
              (λ e. ap w'.table e ∙ own),
        depth,
        IsQuiet-initialize fuel b w' (ap is_null (each "free" refl)),
      )
