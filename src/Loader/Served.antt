-- ===== src/Loader/Served.antt =====
-- What the dynamic linker allocates while it answers is served, and starts no second
-- initialization, as soon as src/memhook/dl_functions.cpp has put in the three functions.
use memhook.Prelude.{ℕ, ◌≡◌, refl, ap, ◌∙◌, false, Option, none, some, List, [], ◌∷◌, arith}
use memhook.StaticBuf
use memhook.Loader.{
  FnPtr, null, static_buf, at, is_null, Alloc, malloc, calloc, free, Linker, LinkerCall, Outcome,
  done, World, pointer, static_alloc, fn_name, call_fn, do_alloc, do_allocs, call_linker,
}

module _ (l : Linker) where
  -- The functions that serve allocations are there.
  pub record IsServed (w : World l) : Type 0 where
    pub has_free : is_null (w.table "free") ≡ false
    pub has_malloc : is_null (w.table "malloc") ≡ false
    pub has_calloc : is_null (w.table "calloc") ≡ false

  -- An initialization that does nothing when `free` is there.
  abbrev pub IsQuiet : (World l → Outcome (World l)) → Type 0
  IsQuiet init = (w : World l) → is_null (w.table "free") ≡ false → init w ≡ done w

  -- What an allocation leaves as it is.
  pub record Keeps (w w' : World l) : Type 0 where
    pub same_table : w'.table ≡ w.table
    pub same_image : w'.image ≡ w.image
    pub same_depth : w'.hook_depth ≡ w.hook_depth

  pub Keeps-refl : (w : World l) → Keeps w w
  Keeps-refl w = record { same_table = refl; same_image = refl; same_depth = refl }

  pub Keeps-trans : (u v w : World l) → Keeps u v → Keeps v w → Keeps u w
  Keeps-trans u v w h k = record {
    same_table = k.same_table ∙ h.same_table;
    same_image = k.same_image ∙ h.same_image;
    same_depth = k.same_depth ∙ h.same_depth;
  }

  pub IsServed-of_Keeps : (u v : World l) → Keeps u v → IsServed u → IsServed v
  IsServed-of_Keeps u v k h = record {
    has_free = ap (λ t. is_null (t "free")) k.same_table ∙ h.has_free;
    has_malloc = ap (λ t. is_null (t "malloc")) k.same_table ∙ h.has_malloc;
    has_calloc = ap (λ t. is_null (t "calloc")) k.same_table ∙ h.has_calloc;
  }

  pointer-Keeps : (p : Option ℕ × StaticBuf.StaticBuf) (w : World l) → Keeps w (pointer l p w).1
  pointer-Keeps (none, b) w = record { same_table = refl; same_image = refl; same_depth = refl }
  pointer-Keeps (some o, b) w = record { same_table = refl; same_image = refl; same_depth = refl }

  static_alloc-Keeps : (a : Alloc) (w : World l) → Keeps w (static_alloc l a w).1
  unfolding static_alloc
  static_alloc-Keeps (malloc n) w = pointer-Keeps (StaticBuf.malloc n w.buf) w
  static_alloc-Keeps (calloc m n) w = pointer-Keeps (StaticBuf.calloc m n w.buf) w
  static_alloc-Keeps (free p) w = record { same_table = refl; same_image = refl; same_depth = refl }

  fn-served : (a : Alloc) (w : World l) → IsServed w → is_null (w.table (fn_name l a)) ≡ false
  fn-served (malloc n) w h = h.has_malloc
  fn-served (calloc m n) w h = h.has_calloc
  fn-served (free p) w h = h.has_free

  call_fn_done :
      (f : FnPtr) (a : Alloc) (w : World l)
      → is_null f ≡ false
      → (r : ℕ × World l) × (call_fn l f a w ≡ done r) × Keeps w r.1
  unfolding call_fn
  call_fn_done null a w h = absurd (ground arith)
  call_fn_done static_buf a w h = (static_alloc l a w, refl, static_alloc-Keeps a w)
  call_fn_done (at f) a w h =
      let (r, s) = l.call_at f a w.linker in
      (
        (r, record w { linker = s }),
        refl,
        record { same_table = refl; same_image = refl; same_depth = refl },
      )

  module _ (init : World l → Outcome (World l)) (quiet : IsQuiet init) where
    do_alloc_done :
        (a : Alloc) (w : World l)
        → IsServed w
        → (r : ℕ × World l) × (do_alloc l init a w ≡ done r) × Keeps w r.1
    unfolding do_alloc
    do_alloc_done a w h = rw (quiet w h.has_free) (call_fn_done _ a w (fn-served a w h))

    do_allocs_done :
        (as' : List Alloc) (w : World l)
        → IsServed w
        → (r : List ℕ × World l) × (do_allocs l init as' w ≡ done r) × Keeps w r.1
    unfolding do_allocs
    do_allocs_done [] w h = (([], w), refl, Keeps-refl w)
    do_allocs_done (a ∷ rest) w h =
        let ((r, w'), first, k) = do_alloc_done a w h in
        let ((rs, last), others, k') = do_allocs_done rest w' (IsServed-of_Keeps w w' k h) in
        ((r ∷ rs, last), rw first (rw others refl), Keeps-trans w w' last k k')

    -- A call of the dynamic linker comes to an answer of the linker.
    pub call_linker_done :
        (c : LinkerCall) (w : World l)
        → IsServed w
        → (rs : List ℕ) × (s : l.State) × (w' : World l) × (call_linker l init c w
            ≡ done ((l.finish c rs s).0, w'))
          × Keeps w w'
    unfolding call_linker
    call_linker_done c w h =
        let ((rs, w'), served, k) = do_allocs_done (l.allocs c w.linker) w h in
        (
          rs,
          w'.linker,
          record w' { linker = (l.finish c rs w'.linker).1 },
          rw served refl,
          record {
            same_table = k.same_table;
            same_image = k.same_image;
            same_depth = k.same_depth;
          },
        )
