-- ===== src/Loader/Start.antt =====
-- `DLFunctions::Initialize` and `DoInitialize` of src/memhook/dl_functions.h and dl_functions.cpp.
use Prim.Native.String.{String}
use memhook.Prelude.{ℕ, zero, suc, ◌==◌, List, [], ◌∷◌, if◌then◌else◌}
use memhook.Loader.{
  static_buf, at, is_null, Linker, dlerror, Outcome, done, aborts, no_fuel, ◌>>=◌, rtld_next, Build,
  later_names, World, put, call_linker,
}
use memhook.Loader.Dlsym.{memhook_dlsym}

module _ (l : Linker) where
  module _ (init : World l → Outcome (World l)) where
    -- `DLSymRtldNext`: the address that it stores; a function that is not found is fatal.
    unfoldable pub dl_sym_rtld_next : String → World l → Outcome (ℕ × World l)
    dl_sym_rtld_next name w = call_linker l init dlerror w >>= λ (r, w1).
        memhook_dlsym l init rtld_next name w1 >>= λ (fn, w2).
        call_linker l init dlerror w2 >>= λ (err, w3). if fn == 0 then aborts else done (fn, w3)

    -- The lookups behind the first three, each stored at once.
    unfoldable pub fill : List String → World l → Outcome (World l)
    fill [] w = done w
    fill (name ∷ names) w =
        dl_sym_rtld_next name w >>= λ (fn, w'). fill names (put l name (at fn) w')

    -- The first three functions are those of `StaticBufAlloc` until all three are found.
    unfoldable pub use_static_buf : World l → World l
    use_static_buf w =
        put l "calloc" static_buf (put l "malloc" static_buf (put l "free" static_buf w))

    unfoldable pub do_initialize : Build → World l → Outcome (World l)
    do_initialize b w = dl_sym_rtld_next "free" (use_static_buf w) >>= λ (tmp_free, w1).
        dl_sym_rtld_next "malloc" w1 >>= λ (tmp_malloc, w2).
        dl_sym_rtld_next "calloc" w2 >>= λ (tmp_calloc, w3). fill (later_names b) (
          put l "calloc" (at tmp_calloc)
            (put l "malloc" (at tmp_malloc) (put l "free" (at tmp_free) w3)))

  -- `Initialize`, on fuel for the calls of it that it leads to.
  unfoldable pub initialize : ℕ → Build → World l → Outcome (World l)
  initialize zero b w = if is_null (w.table "free") then no_fuel else done w
  initialize (suc fuel) b w =
      let started = do_initialize (initialize fuel b) b w in
      if is_null (w.table "free") then started else done w
