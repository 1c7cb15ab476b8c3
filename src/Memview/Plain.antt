-- ===== src/Memview/Plain.antt =====
-- A container that meets the laws of `AggregatedIndex`: its elements as a list, sorted at each
-- traversal.
use mathlib.Core.List.Permᴰ
use mathlib.Core.List.{Permᴰ, map}
use mathlib.Core.Path.{subst}
use memhook.Prelude.{
  ℕ, refl, List, [], ◌∷◌, is_some, leb, if◌then◌else◌, arith, Bool-cases, inl, inr,
}
use memhook.Memview.Aggregate.{
  AggregatedTraceInfo, find_callstack, modify_callstack, Ascends, AggregatedIndex,
}

module _ (f : AggregatedTraceInfo → ℕ) where
  unfoldable pub insert_by :
      AggregatedTraceInfo → List AggregatedTraceInfo → List AggregatedTraceInfo
  insert_by v [] = v ∷ []
  insert_by v (w ∷ ws) = if leb (f v) (f w) then v ∷ w ∷ ws else w ∷ insert_by v ws

  unfoldable pub sort_by : List AggregatedTraceInfo → List AggregatedTraceInfo
  sort_by [] = []
  sort_by (v ∷ vs) = insert_by v (sort_by vs)

  insert_by-Permᴰ :
      (v : AggregatedTraceInfo) (ws : List AggregatedTraceInfo) → Permᴰ (insert_by v ws) (v ∷ ws)
  unfolding insert_by
  insert_by-Permᴰ v [] = Permᴰ.refl (v ∷ [])
  insert_by-Permᴰ v (w ∷ ws) = elim (Bool-cases (leb (f v) (f w))) [
    | inl first ↦ rw first (Permᴰ.refl (v ∷ w ∷ ws))
    | inr later ↦
        rw later (Permᴰ.trans (Permᴰ.cons refl (insert_by-Permᴰ v ws)) (Permᴰ.swap refl refl))
  ]

  pub sort_by-Permᴰ : (vs : List AggregatedTraceInfo) → Permᴰ (sort_by vs) vs
  unfolding sort_by
  sort_by-Permᴰ [] = Permᴰ.nil
  sort_by-Permᴰ (v ∷ vs) =
      Permᴰ.trans (insert_by-Permᴰ v (sort_by vs)) (Permᴰ.cons refl (sort_by-Permᴰ vs))

  insert_by-Ascends :
      (v : AggregatedTraceInfo) (ws : List AggregatedTraceInfo)
      → Ascends (map f ws)
      → Ascends (map f (insert_by v ws))
  unfolding insert_by
  insert_by-Ascends v [] h = tt
  insert_by-Ascends v (w ∷ []) h = ground arith
  insert_by-Ascends v (w ∷ x ∷ ws) (le, h) =
      let rest = insert_by-Ascends v (x ∷ ws) h in
      elim (Bool-cases (leb (f v) (f w))) [
        | inl first ↦ rw first (ground arith, (le, h))
        | inr later ↦ elim (Bool-cases (leb (f v) (f x))) [
          | inl second ↦ rw (later, second) (ground arith, (ground arith, h))
          | inr third ↦
              let behind : Ascends (map f (x ∷ insert_by v ws)) =
                subst (λ b. Ascends (map f (if b then v ∷ x ∷ ws else x ∷ insert_by v ws))) third
                  rest in
              rw (later, third) (le, behind)
        ]
      ]

  pub sort_by-Ascends : (vs : List AggregatedTraceInfo) → Ascends (map f (sort_by vs))
  unfolding sort_by
  sort_by-Ascends [] = tt
  sort_by-Ascends (v ∷ vs) = insert_by-Ascends v (sort_by vs) (sort_by-Ascends vs)

abbrev pub plain_aggregated : AggregatedIndex
plain_aggregated = record {
  Rep = List AggregatedTraceInfo;
  items = λ r. r;
  empty = [];
  find = find_callstack;
  modify = modify_callstack;
  emplace = λ v r. if is_some (find_callstack v.callstack r) then r else v ∷ r;
  by_memsize = sort_by (λ v. v.memsize);
  by_times = sort_by (λ v. v.times);
  items-empty = refl;
  find-items = λ cs r. refl;
  items-modify = λ cs f r keeps. refl;
  items-emplace = λ v r. refl;
  by_memsize_items = λ r. ∣ sort_by-Permᴰ (λ v. v.memsize) r ∣₁;
  by_memsize_ascends = sort_by-Ascends (λ v. v.memsize);
  by_times_items = λ r. ∣ sort_by-Permᴰ (λ v. v.times) r ∣₁;
  by_times_ascends = sort_by-Ascends (λ v. v.times);
}
