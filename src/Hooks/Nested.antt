-- ===== src/Hooks/Nested.antt =====
-- Every hooked function on memory of src/memhook/memhook.cpp has the shape of `reporting`.
use memhook.Prelude.{
  ◌&&◌, not, ℤ, ◌≡◌, refl, ap, sym, ◌==◌, Bool, true, false, none, some, if◌then◌else◌,
}
use memhook.Index.{TimeIndex}
use memhook.Storage.{MappedStorage}
use memhook.Engine.{CachedTrace, cached_address, cached_timestamp, Unwinder}
use memhook.Engine.Refinement.{Hook, apply_hook}
use memhook.Hooks.DlFunctions.{Libc}
use memhook.Hooks.Direct.{Call, Answer, pointing, stating, aligning, InnerCalls}
use memhook.Hooks.{
  World, is_nested, enter, leave, with_instance, hook_alloc, hook_free, hook_realloc,
}
use memhook.Hooks.Calls.{hooked, report, reporting}
use memhook.Hooks.Memory
use memhook.Hooks.Memory.{
  is_negative, has_map_stack, has_map_anonymous_private, is_success, map_failed,
}

module _ (c : Libc) (ix : TimeIndex CachedTrace cached_address cached_timestamp) (m : MappedStorage)
    (u : Unwinder) (n : InnerCalls c ix m u) where
  abbrev W : Type 0
  W = World c ix m u n

  abbrev Shaped : Call → Type 0
  Shaped k = (now : ℤ) (w : W) → hooked c ix m u n k now w ≡ reporting c ix m u n k now w

  report-if :
      (b : Bool) (h : Hook) (w : W)
      → report c ix m u n (if b then some h else none) w
        ≡ (if b then with_instance c ix m u n (n.in_hook h) (apply_hook ix m u h) w else w)
  report-if true h w = refl
  report-if false h w = refl

  report-unless :
      (b : Bool) (h : Hook) (w : W)
      → report c ix m u n (if b then none else some h) w
        ≡ (if b then w else with_instance c ix m u n (n.in_hook h) (apply_hook ix m u h) w)
  report-unless true h w = refl
  report-unless false h w = refl

  -- Both branches for a test of nesting, through the function that packs the answer.
  pack-if {ℓ ℓ'} :
      {A : Type ℓ} {B : Type ℓ'} (f : A → B) (b : Bool) (x y : A) (z : B)
      → f y ≡ z
      → f (if b then x else y) ≡ (if b then f x else z)
  pack-if f true x y z h = refl
  pack-if f false x y z h = h

  pub hooked-reporting : (k : Call) → Shaped k
  unfolding hooked apply_hook hook_alloc hook_free hook_realloc Memory.memhook_free Memory.do_free
      Memory.memhook_cfree Memory.do_cfree Memory.memhook_malloc Memory.do_malloc
      Memory.memhook_calloc Memory.do_calloc Memory.memhook_memalign Memory.do_memalign
      Memory.memhook_aligned_alloc Memory.do_aligned_alloc Memory.memhook_valloc Memory.do_valloc
      Memory.memhook_pvalloc Memory.do_pvalloc Memory.memhook_realloc Memory.do_realloc
      Memory.memhook_posix_memalign Memory.do_posix_memalign Memory.memhook_mmap Memory.do_mmap
      Memory.memhook_mmap64 Memory.do_mmap64 Memory.memhook_munmap Memory.do_munmap
      Memory.memhook_mremap Memory.do_mremap
  hooked-reporting (Call.call_malloc size) now w = pack-if pointing _ _ _ _ refl
  hooked-reporting (Call.call_calloc nmemb size) now w = pack-if pointing _ _ _ _ refl
  hooked-reporting (Call.call_memalign alignment size) now w = pack-if pointing _ _ _ _ refl
  hooked-reporting (Call.call_aligned_alloc alignment size) now w = pack-if pointing _ _ _ _ refl
  hooked-reporting (Call.call_valloc size) now w = pack-if pointing _ _ _ _ refl
  hooked-reporting (Call.call_pvalloc size) now w = pack-if pointing _ _ _ _ refl
  hooked-reporting (Call.call_realloc mem size) now w = pack-if pointing _ _ _ _ refl
  hooked-reporting (Call.call_posix_memalign memptr alignment size) now w =
      pack-if aligning _ _ _ _ refl
  hooked-reporting (Call.call_free mem) now w = pack-if (λ w. (Answer.nothing, w)) _ _ _ _ refl
  hooked-reporting (Call.call_cfree mem) now w = pack-if (λ w. (Answer.nothing, w)) _ _ _ _ refl
  hooked-reporting (Call.call_mmap addr length prot flags fd offset) now w =
      let (r, w') =
        Memory.do_mmap c ix m u n addr length prot flags fd offset (enter c ix m u n w) in
      pack-if pointing (is_nested c ix m u n w)
        (Memory.do_mmap c ix m u n addr length prot flags fd offset w) _ _
        (ap (λ v. (Answer.pointer r, leave c ix m u n v))
          (sym
            (report-if (is_negative fd && not (has_map_stack flags)) (Hook.alloc r length now) w')))
  hooked-reporting (Call.call_mmap64 addr length prot flags fd offset) now w =
      let (r, w') =
        Memory.do_mmap64 c ix m u n addr length prot flags fd offset (enter c ix m u n w) in
      pack-if pointing (is_nested c ix m u n w)
        (Memory.do_mmap64 c ix m u n addr length prot flags fd offset w) _ _
        (ap (λ v. (Answer.pointer r, leave c ix m u n v))
          (sym (
            report-if (is_negative fd && has_map_anonymous_private flags) (Hook.alloc r length now)
              w')))
  hooked-reporting (Call.call_munmap addr length) now w =
      let (r, w') = Memory.do_munmap c ix m u n addr length (enter c ix m u n w) in
      pack-if stating (is_nested c ix m u n w) (Memory.do_munmap c ix m u n addr length w) _ _ (
        ap (λ v. (Answer.status r, leave c ix m u n v))
          (sym (report-if (is_success r) (Hook.free addr) w')))
  hooked-reporting (Call.call_mremap addr old_len new_len flags new_addr) now w =
      let (r, w') =
        Memory.do_mremap c ix m u n addr old_len new_len flags new_addr (enter c ix m u n w) in
      pack-if pointing (is_nested c ix m u n w)
        (Memory.do_mremap c ix m u n addr old_len new_len flags new_addr w) _ _
        (ap (λ v. (Answer.pointer r, leave c ix m u n v))
          (sym (report-unless (r == map_failed) (Hook.realloc addr r new_len now) w')))
