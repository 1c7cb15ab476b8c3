-- ===== src/Memview/Rows.antt =====
-- What the rows of the aggregated view of src/memview/aggregated_printer.h add up to.
use mathlib.Core.List.{Perm, Permᴰ}
use mathlib.Core.Logic.{∥∥₁_elim}
use native.Mathlib.Nat.{ℕ_set}
use memhook.Prelude.{
  ℕ, ◌≡◌, refl, ap, ◌∙◌, ◌+◌, ◌%◌, ◌^◌, some, List, [], ◌∷◌, length, arith, Bool-cases,
  Option-cases, inl, inr,
}
use memhook.TraceInfo.{TraceInfo}
use memhook.Memview.Aggregate.{
  AggregatedCallstack, AggregatedTraceInfo, equal_callstacks, find_callstack, modify_callstack,
  AggregatedIndex, update_fields, aggregate,
}
use memhook.Memview.Totals.{aggregate_all, items-aggregate}

abbrev pub sum_by {ℓ} : {A : Type ℓ} → (A → ℕ) → List A → ℕ
sum_by f [] = 0
sum_by f (x ∷ xs) = f x + sum_by f xs

sum_by_Permᴰ : {A : Type 0} (f : A → ℕ) {xs ys : List A} → Permᴰ xs ys → sum_by f xs ≡ sum_by f ys
sum_by_Permᴰ f Permᴰ.nil = refl
sum_by_Permᴰ f (Permᴰ.cons e p) = omega (arith, ap f e, sum_by_Permᴰ f p)
sum_by_Permᴰ f (Permᴰ.swap e g) = omega (arith, ap f e, ap f g)
sum_by_Permᴰ f (Permᴰ.trans p q) = sum_by_Permᴰ f p ∙ sum_by_Permᴰ f q

pub sum_by-Perm : {A : Type 0} (f : A → ℕ) {xs ys : List A} → Perm xs ys → sum_by f xs ≡ sum_by f ys
sum_by-Perm f {xs} {ys} p = ∥∥₁_elim p (ℕ_set (sum_by f xs) (sum_by f ys)) (sum_by_Permᴰ f)

sum_by-modify_callstack :
    (g : AggregatedTraceInfo → ℕ) (cs : AggregatedCallstack)
    (f : AggregatedTraceInfo → AggregatedTraceInfo) (vs : List AggregatedTraceInfo)
    (v : AggregatedTraceInfo)
    → find_callstack cs vs ≡ some v
    → sum_by g (modify_callstack cs f vs) + g v ≡ sum_by g vs + g (f v)
unfolding find_callstack modify_callstack
sum_by-modify_callstack g cs f [] v h = absurd (ground arith)
sum_by-modify_callstack g cs f (w ∷ vs) v h = elim (Bool-cases (equal_callstacks w.callstack cs)) [
  | inl here ↦
      let same : w ≡ v = ground arith in rw here (omega (arith, ap g same, ap (λ u. g (f u)) same))
  | inr there ↦
      let rest = sum_by-modify_callstack g cs f vs v (ground arith) in
      rw there (omega (arith, rest))
]

abbrev pub memsizes : List AggregatedTraceInfo → ℕ
memsizes = sum_by (λ v. v.memsize)

abbrev pub all_times : List AggregatedTraceInfo → ℕ
all_times = sum_by (λ v. v.times)

module _ (ix : AggregatedIndex) where
  sums_aggregate :
      (t : TraceInfo) (r : ix.Rep)
      → (memsizes (ix.items (aggregate ix t r)) % 2 ^ 64
          ≡ (memsizes (ix.items r) + t.base.memsize) % 2 ^ 64)
        × (all_times (ix.items (aggregate ix t r)) % 2 ^ 64 ≡ (all_times (ix.items r) + 1) % 2 ^ 64)
  unfolding update_fields
  sums_aggregate t r =
      let xs = ix.items r in
      let f = update_fields t.base.memsize in
      let e = items-aggregate ix t r in
      elim (Option-cases (find_callstack t.callstack xs)) [
        | inl absent ↦ rw (e, absent) (omega arith, omega arith)
        | inr (v, there) ↦
            rw (e, there)
              (
                omega (arith, sum_by-modify_callstack (λ v. v.memsize) t.callstack f xs v there),
                omega (arith, sum_by-modify_callstack (λ v. v.times) t.callstack f xs v there),
              )
      ]

  pub sums_aggregate_all :
      (ts : List TraceInfo) (r : ix.Rep)
      → (memsizes (ix.items (aggregate_all ix ts r)) % 2 ^ 64
          ≡ (memsizes (ix.items r) + sum_by (λ t. t.base.memsize) ts) % 2 ^ 64)
        × (all_times (ix.items (aggregate_all ix ts r)) % 2 ^ 64
            ≡ (all_times (ix.items r) + length ts) % 2 ^ 64)
  sums_aggregate_all [] r = (omega arith, omega arith)
  sums_aggregate_all (t ∷ ts) r =
      let (a, b) = sums_aggregate t r in
      let (c, d) = sums_aggregate_all ts (aggregate ix t r) in
      (omega (arith, a, c), omega (arith, b, d))
