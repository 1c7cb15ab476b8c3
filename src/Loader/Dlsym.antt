-- ===== src/Loader/Dlsym.antt =====
-- `memhook_dlsym` and `memhook_dlvsym` of src/memhook/memhook.cpp, to which the library's own calls
-- of `dlsym` go as well.
use Prim.Native.String.{String}
use text.Mathlib.Text.{◌==◌ as ◌=s=◌}
use memhook.Prelude.{ℕ, ◌+◌, ◌-◌, ◌==◌, ◌&&◌, Option, none, some, if◌then◌else◌}
use memhook.Glibc.{Image}
use memhook.Glibc.Lookup.{do_sym}
use memhook.Loader.{
  FnPtr, null, static_buf, at, Linker, LinkerCall, dlsym_at, dlvsym_at, dl_sym, dl_vsym, dlerror,
  Outcome, done, aborts, no_fuel, ◌>>=◌, rtld_next, codes, World, put, call_linker,
}

module _ (l : Linker) (init : World l → Outcome (World l)) where
  abbrev pub with_image : Option (Option ℕ × Image) → World l → Outcome (ℕ × World l)
  with_image none w = no_fuel
  with_image (some (none, im)) w = done (0, record w { image = im })
  with_image (some (some fn, im)) w = done (fn, record w { image = im })

  -- `GLIBC_find_dl_symbol`; NULL is 0.
  unfoldable pub find_dl_symbol : String → World l → Outcome (ℕ × World l)
  find_dl_symbol name w = with_image (do_sym l.search_fuel w.image (codes name) l.caller) w

  -- `dlerror(); fn = _dl_sym(RTLD_NEXT, name, ...); dlerror();`, where the error is only printed.
  unfoldable pub next_by_dl_sym : String → World l → Outcome (ℕ × World l)
  next_by_dl_sym name w = call_linker l init dlerror w >>= λ (r, w1).
      call_linker l init (dl_sym rtld_next name) w1 >>= λ (fn, w2).
      call_linker l init dlerror w2 >>= λ (err, w3). done (fn, w3)

  -- The real function: by the library's own search, and if that finds none by `_dl_sym`.
  unfoldable pub real_fn : String → World l → Outcome (ℕ × World l)
  real_fn name w = find_dl_symbol name w >>= λ (fn, w1).
      if fn == 0 then next_by_dl_sym name w1 else done (fn, w1)

  -- The call of the real function, which is kept; without one the call goes to `_dl_sym` or
  -- `_dl_vsym`.
  unfoldable pub keep_and_call :
      String → (ℕ → LinkerCall) → LinkerCall → ℕ × World l → Outcome (ℕ × World l)
  keep_and_call name call otherwise (fn, w) =
      if fn == 0
      then call_linker l init otherwise w
      else call_linker l init (call fn) (put l name (at fn) w)

  -- The common part of the two functions, with `name` for "dlsym" or "dlvsym".
  unfoldable pub resolve :
      String → (ℕ → LinkerCall) → LinkerCall → FnPtr → World l → Outcome (ℕ × World l)
  resolve name call otherwise null w = real_fn name w >>= keep_and_call name call otherwise
  resolve name call otherwise static_buf w = aborts
  resolve name call otherwise (at fn) w = call_linker l init (call fn) w

  abbrev pub enter : World l → World l
  enter w = record w { hook_depth = w.hook_depth + 1 }

  abbrev pub leave : ℕ × World l → Outcome (ℕ × World l)
  leave (r, w) = done (r, record w { hook_depth = w.hook_depth - 1 })

  unfoldable pub memhook_dlsym : ℕ → String → World l → Outcome (ℕ × World l)
  memhook_dlsym handle name w =
      if handle == rtld_next && name =s= "dlsym"
      then done (l.memhook_dlsym_at, w)
      else (resolve "dlsym" (λ fn. dlsym_at fn handle name) (dl_sym handle name) (w.table "dlsym")
            (enter w)
          >>= leave)

  unfoldable pub memhook_dlvsym : ℕ → String → String → World l → Outcome (ℕ × World l)
  memhook_dlvsym handle name version w =
      if handle == rtld_next && name =s= "dlvsym"
      then done (l.memhook_dlvsym_at, w)
      else (resolve "dlvsym" (λ fn. dlvsym_at fn handle name version) (dl_vsym handle name version)
            (w.table "dlvsym") (enter w)
          >>= leave)
