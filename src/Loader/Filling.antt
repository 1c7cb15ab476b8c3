-- ===== src/Loader/Filling.antt =====
-- The lookups of src/memhook/dl_functions.cpp one after the other.
use Prim.Native.String.{String}
use text.Mathlib.Text.{◌==◌ as ◌=s=◌}
use text.Mathlib.TextEquality.{eq_iff}
use memhook.Prelude.{
  ℕ, ◌==◌, ◌≡◌, refl, ap, ◌∙◌, inl, inr, Bool, false, ◌&&◌, ◌||◌, List, [], ◌∷◌, if◌then◌else◌,
  arith, All,
}
use memhook.Loader.{
  FnPtr, static_buf, at, is_null, Linker, dlsym_at, dlerror, Outcome, done, World, Table, set_fn,
  put, rtld_next,
}
use memhook.Loader.Start.{dl_sym_rtld_next, fill}
use memhook.Loader.Served.{IsServed, IsQuiet, Keeps, IsServed-of_Keeps, call_linker_done}
use memhook.Loader.Resolved.{HasReal, put-IsServed, memhook_dlsym-Reaches}

abbrev pub contains : String → List String → Bool
contains n [] = false
contains n (name ∷ names) = name =s= n || contains n names

-- What the real `dlsym` answers for RTLD_NEXT, whatever was allocated meanwhile.
abbrev pub AnswersNext : Linker → ℕ → (String → ℕ) → Type 0
AnswersNext l real next =
    (name : String) (rs : List ℕ) (s : l.State)
    → (l.finish (dlsym_at real rtld_next name) rs s).0 ≡ next name

-- A name other than "dlsym" that is found.
abbrev pub IsFoundName : (String → ℕ) → String → Type 0
IsFoundName next name = ((name =s= "dlsym") ≡ false) × ((next name == 0) ≡ false)

module _ (l : Linker) (real : ℕ) (next : String → ℕ) (nonnull : (real == 0) ≡ false)
    (answers : AnswersNext l real next) where
  HasReal-of_Keeps :
      (u v : World l) → Keeps l u v → HasReal l "dlsym" real u → HasReal l "dlsym" real v
  HasReal-of_Keeps u v k (inl known) = inl (ap (λ t. t "dlsym") k.same_table ∙ known)
  HasReal-of_Keeps u v k (inr (absent, im, found)) =
      inr (ap (λ t. t "dlsym") k.same_table ∙ absent, im, rw k.same_image found)

  pub IsServed-by_table :
      (u v : World l) → v.table ≡ set_fn "dlsym" (at real) u.table → IsServed l u → IsServed l v
  IsServed-by_table u v e h =
      let p = put-IsServed l "dlsym" real u h in
      record {
        has_free = ap (λ t. is_null (t "free")) e ∙ p.has_free;
        has_malloc = ap (λ t. is_null (t "malloc")) e ∙ p.has_malloc;
        has_calloc = ap (λ t. is_null (t "calloc")) e ∙ p.has_calloc;
      }

  module _ (init : World l → Outcome (World l)) (quiet : IsQuiet l init) where
    pub dl_sym_rtld_next_done :
        (name : String) (w : World l)
        → IsFoundName next name
        → IsServed l w
        → HasReal l "dlsym" real w
        → (w' : World l) × (dl_sym_rtld_next l init name w ≡ done (next name, w'))
          × (w'.table ≡ set_fn "dlsym" (at real) w.table)
          × (w'.hook_depth ≡ w.hook_depth)
    unfolding dl_sym_rtld_next
    dl_sym_rtld_next_done name w (other, found) h has =
        let (_, _, w1, cleared, k1) = call_linker_done l init quiet dlerror w h in
        let h1 = IsServed-of_Keeps l w w1 k1 h in
        let not_own : (rtld_next == rtld_next && name =s= "dlsym") ≡ false = other in
        let (rs, s, w2, asked, table, depth) =
          memhook_dlsym-Reaches l init real rtld_next name w1 quiet h1 nonnull not_own
            (HasReal-of_Keeps w w1 k1 has) in
        let (_, _, w3, checked, k3) =
          call_linker_done l init quiet dlerror w2 (IsServed-by_table w1 w2 table h1) in
        (
          w3,
          rw (cleared, asked, checked, answers name rs s, found) refl,
          k3.same_table ∙ table ∙ ap (set_fn "dlsym" (at real)) k1.same_table,
          k3.same_depth ∙ depth ∙ k1.same_depth,
        )

    -- What a sequence of lookups leaves in the table.
    abbrev pub Filled : List String → World l → World l → Type 0
    Filled names w w' =
        ((n : String)
          → ("dlsym" =s= n) ≡ false
          → w'.table n ≡ (if contains n names then at (next n) else w.table n))
        × (w'.table "dlsym" ≡ at real)
        × (w'.hook_depth ≡ w.hook_depth)

    pub fill_done :
        (names : List String) (w : World l)
        → All (IsFoundName next) names
        → IsServed l w
        → w.table "dlsym" ≡ at real
        → (w' : World l) × (fill l init names w ≡ done w') × Filled names w w'
    unfolding fill set_fn
    fill_done [] w good h known = (w, refl, (λ n e. refl, known, refl))
    fill_done (name ∷ names) w (good, rest) h known =
        let (w1, looked_up, table, depth) = dl_sym_rtld_next_done name w good h (inl known) in
        let next_w = put l name (at (next name)) w1 in
        let known' : next_w.table "dlsym" ≡ at real = rw good.0 (ap (λ t. t "dlsym") table) in
        let (w', filled, (each, own, depth')) =
          fill_done names next_w rest
            (put-IsServed l name (next name) w1 (IsServed-by_table w w1 table h)) known' in
        (
          w',
          rw looked_up filled,
          (λ n e. fill_step name names n w w1 table (each n e) e, own, depth' ∙ depth),
        )
      where
        fill_step :
            (name : String) (names : List String) (n : String) (w w1 : World l) {f : FnPtr}
            → w1.table ≡ set_fn "dlsym" (at real) w.table
            → f ≡ (
                if contains n names
                then at (next n)
                else if name =s= n
                then at (next name)
                else w1.table n)
            → ("dlsym" =s= n) ≡ false
            → f ≡ (if name =s= n || contains n names then at (next n) else w.table n)
        fill_step name names n w w1 table e other =
            let before : w1.table n ≡ w.table n = ap (λ t. t n) table ∙ (rw other refl) in
            ground (arith, before, eq_iff name n)

    -- The table behind the first three lookups.
    pub first_step :
        (t t1 t2 t3 : Table) (n : String)
        → ("dlsym" =s= n) ≡ false
        → t1
          ≡ set_fn "dlsym"
              (at real)
              (set_fn "calloc" static_buf (set_fn "malloc" static_buf (set_fn "free" static_buf t)))
        → t2 ≡ set_fn "dlsym" (at real) t1
        → t3 ≡ set_fn "dlsym" (at real) t2
        → set_fn "calloc"
            (at (next "calloc"))
            (set_fn "malloc" (at (next "malloc")) (set_fn "free" (at (next "free")) t3))
            n
          ≡ (if contains n ("free" ∷ "malloc" ∷ "calloc" ∷ []) then at (next n) else t n)
    unfolding set_fn
    first_step t t1 t2 t3 n other e1 e2 e3 =
        let f3 : t3 n ≡ t2 n = ap (λ u. u n) e3 ∙ (rw other refl) in
        let f2 : t2 n ≡ t1 n = ap (λ u. u n) e2 ∙ (rw other refl) in
        let f1 : t1 n
            ≡ set_fn "calloc" static_buf (set_fn "malloc" static_buf (set_fn "free" static_buf t))
                n =
          ap (λ u. u n) e1 ∙ (rw other refl) in
        ground (arith, f1, f2, f3, eq_iff "free" n, eq_iff "malloc" n, eq_iff "calloc" n)
