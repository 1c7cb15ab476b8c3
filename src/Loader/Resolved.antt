-- ===== src/Loader/Resolved.antt =====
-- What `memhook_dlsym` of src/memhook/memhook.cpp answers, once the library can find the real
-- `dlsym`.
use Prim.Native.String.{String}
use text.Mathlib.Text.{◌==◌ as ◌=s=◌}
use text.Mathlib.TextEquality.{eq_iff}
use mathlib.Core.Path.{fun_ext}
use memhook.Prelude.{
  ℕ, ◌+◌, ◌-◌, ◌==◌, ◌≡◌, refl, sym, ap, ◌∙◌, ◌⊎◌, inl, inr, false, ◌&&◌, some, List, arith,
}
use memhook.Glibc.{Image}
use memhook.Glibc.Lookup.{do_sym}
use memhook.Loader.{
  FnPtr, null, at, Linker, LinkerCall, dlsym_at, dlvsym_at, dl_sym, dl_vsym, Outcome, done, aborts,
  ◌>>=◌, World, Table, set_fn, put, codes, rtld_next,
}
use memhook.Loader.Dlsym.{
  find_dl_symbol, real_fn, keep_and_call, resolve, memhook_dlsym, memhook_dlvsym, enter, leave,
}
use memhook.Loader.Served.{IsServed, IsQuiet, call_linker_done}

set_fn_idem : (key : String) (f : FnPtr) (t : Table) → t key ≡ f → set_fn key f t ≡ t
unfolding set_fn
set_fn_idem key f t e = fun_ext (λ n. ground (arith, eq_iff key n))

module _ (l : Linker) where
  -- The real function is known, or the search of the library finds it.
  abbrev pub HasReal : String → ℕ → World l → Type 0
  HasReal key real w =
      (w.table key ≡ at real)
      ⊎ ((w.table key ≡ null)
          × (im : Image) × (do_sym l.search_fuel w.image (codes key) l.caller
              ≡ some (some real, im)))

  pub put-IsServed :
      (key : String) (real : ℕ) (w : World l) → IsServed l w → IsServed l (put l key (at real) w)
  unfolding set_fn
  put-IsServed key real w h = record {
    has_free = ground (arith, h.has_free);
    has_malloc = ground (arith, h.has_malloc);
    has_calloc = ground (arith, h.has_calloc);
  }

  -- A call that comes to the real function, whose address is then known.
  abbrev pub Reaches : String → ℕ → (ℕ → LinkerCall) → World l → Outcome (ℕ × World l) → Type 0
  Reaches key real call w o =
      (rs : List ℕ) × (s : l.State) × (w' : World l) × (o
        ≡ done ((l.finish (call real) rs s).0, w'))
      × (w'.table ≡ set_fn key (at real) w.table)
      × (w'.hook_depth ≡ w.hook_depth)

  module _ (init : World l → Outcome (World l)) (quiet : IsQuiet l init) (key : String) (real : ℕ)
      (call : ℕ → LinkerCall) (otherwise : LinkerCall) where
    resolve_known :
        (w : World l)
        → IsServed l w
        → w.table key ≡ at real
        → Reaches key real call w (resolve l init key call otherwise (at real) w)
    unfolding resolve
    resolve_known w h known =
        let (rs, s, w', answered, k) = call_linker_done l init quiet (call real) w h in
        (
          rs,
          s,
          w',
          answered,
          k.same_table ∙ sym (set_fn_idem key (at real) w.table known),
          k.same_depth,
        )

    resolve_found :
        (w : World l) (im : Image)
        → IsServed l w
        → (real == 0) ≡ false
        → do_sym l.search_fuel w.image (codes key) l.caller ≡ some (some real, im)
        → Reaches key real call w (resolve l init key call otherwise null w)
    unfolding resolve real_fn find_dl_symbol keep_and_call
    resolve_found w im h nonnull found =
        let w1 : World l = put l key (at real) (record w { image = im }) in
        let (rs, s, w', answered, k) = call_linker_done l init quiet (call real) w1 (
          put-IsServed key real (record w { image = im })
            (record {
              has_free = h.has_free;
              has_malloc = h.has_malloc;
              has_calloc = h.has_calloc;
            })) in
        (rs, s, w', rw (found, nonnull, nonnull, answered) refl, k.same_table, k.same_depth)

    pub resolve-Reaches :
        (w : World l)
        → IsServed l w
        → (real == 0) ≡ false
        → HasReal key real w
        → Reaches key real call w (resolve l init key call otherwise (w.table key) w)
    resolve-Reaches w h nonnull (inl known) = rw known (resolve_known w h known)
    resolve-Reaches w h nonnull (inr (absent, im, found)) =
        rw absent (resolve_found w im h nonnull found)

  enter-IsServed : (w : World l) → IsServed l w → IsServed l (enter l (λ v. aborts) w)
  enter-IsServed w h = record {
    has_free = h.has_free;
    has_malloc = h.has_malloc;
    has_calloc = h.has_calloc;
  }

  leave-Reaches :
      (key : String) (real : ℕ) (call : ℕ → LinkerCall) (w : World l) (o : Outcome (ℕ × World l))
      → Reaches key real call (record w { hook_depth = w.hook_depth + 1 }) o
      → Reaches key real call w (o >>= leave l (λ v. aborts))
  leave-Reaches key real call w o (rs, s, w', answered, table, depth) = (
    rs,
    s,
    record w' { hook_depth = w'.hook_depth - 1 },
    rw answered refl,
    table,
    ap (λ d. d - 1) depth ∙ omega arith,
  )

  -- `memhook_dlsym` answers what the real `dlsym` does, on any handle and name but its own, and
  -- leaves the hook depth as it was.
  pub memhook_dlsym-Reaches :
      (init : World l → Outcome (World l)) (real handle : ℕ) (name : String) (w : World l)
      → IsQuiet l init
      → IsServed l w
      → (real == 0) ≡ false
      → (handle == rtld_next && name =s= "dlsym") ≡ false
      → HasReal "dlsym" real w
      → Reaches "dlsym" real (λ fn. dlsym_at fn handle name) w (memhook_dlsym l init handle name w)
  unfolding memhook_dlsym
  memhook_dlsym-Reaches init real handle name w quiet h nonnull other has = rw other (
      leave-Reaches "dlsym" real (λ fn. dlsym_at fn handle name) w _
        (resolve-Reaches init quiet "dlsym" real (λ fn. dlsym_at fn handle name)
          (dl_sym handle name) (record w { hook_depth = w.hook_depth + 1 }) (enter-IsServed w h)
          nonnull has))

  -- So does `memhook_dlvsym` with the real `dlvsym`.
  pub memhook_dlvsym-Reaches :
      (init : World l → Outcome (World l)) (real handle : ℕ) (name version : String) (w : World l)
      → IsQuiet l init
      → IsServed l w
      → (real == 0) ≡ false
      → (handle == rtld_next && name =s= "dlvsym") ≡ false
      → HasReal "dlvsym" real w
      → Reaches "dlvsym" real
          (λ fn. dlvsym_at fn handle name version)
          w
          (memhook_dlvsym l init handle name version w)
  unfolding memhook_dlvsym
  memhook_dlvsym-Reaches init real handle name version w quiet h nonnull other has = rw other (
      leave-Reaches "dlvsym" real (λ fn. dlvsym_at fn handle name version) w _
        (resolve-Reaches init quiet "dlvsym" real (λ fn. dlvsym_at fn handle name version)
          (dl_vsym handle name version) (record w { hook_depth = w.hook_depth + 1 })
          (enter-IsServed w h) nonnull has))
