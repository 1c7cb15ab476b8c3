-- ===== src/Singleton/Moves.antt =====
-- The steps of a thread in src/memhook/singleton.h keep the counters right.
use mathlib.Core.Path.{subst, fun_ext}
use memhook.Prelude.{
  ℕ, zero, suc, ◌+◌, ◌^◌, ◌≤◌, ◌<◌, ◌≡◌, refl, ap, sym, Option, none, some, List, [], ◌∷◌, All,
  length, arith, Option-cases, inl, inr,
}
use memhook.Singleton.{
  Pc, idle, tested, loaded, holds, constructed, initializing, unlinking, destroying, Shared,
  add_ref, release, act, System, pc_at, set_pc, step_at, Permits, IsSettled,
}
use memhook.Singleton.Counting.{
  ref_of, refs, own, IsCounted, IsCurrent, touch-IsCounted, add_ref-IsCounted, release-IsCounted,
  moved-IsCounted,
}

pub refs-set_pc :
    (p i : ℕ) (c d : Pc) (cs : List Pc)
    → pc_at i cs ≡ some c
    → refs p (set_pc i d cs) + ref_of p c ≡ refs p cs + ref_of p d
unfolding refs pc_at set_pc
refs-set_pc p i c d [] at = absurd (ground arith)
refs-set_pc p zero c d (e ∷ cs) at = ground arith
refs-set_pc p (suc i) c d (e ∷ cs) at = omega (arith, refs-set_pc p i c d cs at)

refs-le-length : (p : ℕ) (cs : List Pc) → refs p cs ≤ length cs
unfolding refs
refs-le-length p [] = omega arith
refs-le-length p (holds q ∷ cs) = ground (arith, refs-le-length p cs)
refs-le-length p (destroying q ∷ cs) = ground (arith, refs-le-length p cs)
refs-le-length p (idle ∷ cs) = omega (arith, refs-le-length p cs)
refs-le-length p (tested ∷ cs) = omega (arith, refs-le-length p cs)
refs-le-length p (constructed q ∷ cs) = ground (arith, refs-le-length p cs)
refs-le-length p (unlinking o ∷ cs) = omega (arith, refs-le-length p cs)
refs-le-length p (loaded q ∷ cs) = omega (arith, refs-le-length p cs)
refs-le-length p (initializing q ∷ cs) = omega (arith, refs-le-length p cs)

pub length-set_pc : (i : ℕ) (c : Pc) (cs : List Pc) → length (set_pc i c cs) ≡ length cs
unfolding set_pc
length-set_pc i c [] = refl
length-set_pc zero c (d ∷ cs) = refl
length-set_pc (suc i) c (d ∷ cs) = ap suc (length-set_pc i c cs)

module _ (P : Pc → Type 0) where
  All-pc_at : (i : ℕ) (c : Pc) (cs : List Pc) → All P cs → pc_at i cs ≡ some c → P c
  unfolding pc_at
  All-pc_at i c [] h at = absurd (ground arith)
  All-pc_at zero c (d ∷ cs) (h, hs) at =
      subst (λ (o : Option Pc). elim o [ none ↦ Unit {0} | some x ↦ P x ]) at h
  All-pc_at (suc i) c (d ∷ cs) (h, hs) at = All-pc_at i c cs hs at

  pub All-set_pc : (i : ℕ) (c : Pc) (cs : List Pc) → P c → All P cs → All P (set_pc i c cs)
  unfolding set_pc
  All-set_pc i c [] new h = tt
  All-set_pc zero c (d ∷ cs) new (h, hs) = (new, hs)
  All-set_pc (suc i) c (d ∷ cs) new (h, hs) = (h, All-set_pc i c cs new hs)

pub record IsSafe (s : System) : Type 0 where
  pub counts : IsCounted s.shared (λ p. refs p s.threads)
  pub current : All (IsCurrent s.shared.instance_) s.threads
  pub few : length s.threads + 1 < 2 ^ 32

pub same-IsCounted :
    (s : Shared) (r r' : ℕ → ℕ) → IsCounted s r → ((p : ℕ) → r' p ≡ r p) → IsCounted s r'
same-IsCounted s r r' h same = subst (IsCounted s) (fun_ext (λ p. sym (same p))) h

-- What the stores to `instance_` ask for.
abbrev pub IsAllowed : Option ℕ → Pc → Type 0
IsAllowed inst (constructed p) = inst ≡ none
IsAllowed inst (unlinking o) = inst ≡ o
IsAllowed inst _ = Unit

act-IsCounted :
    (s : Shared) (c : Pc) (r r' : ℕ → ℕ)
    → IsCounted s r
    → IsCurrent s.instance_ c
    → ((p : ℕ) → r' p + ref_of p c ≡ r p + ref_of p (act s c).1)
    → ((p : ℕ) → r' p + 1 < 2 ^ 32)
    → IsAllowed s.instance_ c
    → IsCounted (act s c).0 r'
unfolding act
act-IsCounted s idle r r' h cur moved small ok =
    same-IsCounted s r r' h (λ p. ground (arith, moved p))
act-IsCounted s tested r r' h cur moved small ok =
    same-IsCounted s r r' h (λ p. ground (arith, moved p))
act-IsCounted s (loaded p) r r' h cur moved small ok =
    add_ref-IsCounted s r h p r'
      (let one : own p s.instance_ ≡ 1 = rw cur (ground arith) in omega (arith, h.counted p))
      (λ q. omega (arith, moved q)) small
act-IsCounted s (holds p) r r' h cur moved small ok =
    release-IsCounted s r h p r' (ground (arith, moved p)) (λ q. omega (arith, moved q)) small
act-IsCounted s (initializing p) r r' h cur moved small ok =
    same-IsCounted _ r r'
      (touch-IsCounted s r h p
        (let one : own p s.instance_ ≡ 1 = rw cur (ground arith) in omega (arith, h.counted p)))
      (λ q. omega (arith, moved q))
act-IsCounted s (constructed p) r r' h cur moved small ok =
    moved-IsCounted s r r' (some p)
      (λ q. let alone : own q s.instance_ ≡ 0 = rw ok refl in ground (arith, alone, moved q)) h
act-IsCounted s (unlinking none) r r' h cur moved small ok =
    moved-IsCounted s r r' none
      (λ q. let alone : own q s.instance_ ≡ 0 = rw ok refl in ground (arith, alone, moved q)) h
act-IsCounted s (unlinking (some p)) r r' h cur moved small ok =
    moved-IsCounted s r r' none
      (λ q.
        let held : own q s.instance_ ≡ own q (some p) = ap (own q) ok in
        ground (arith, held, moved q))
      h
act-IsCounted s (destroying p) r r' h cur moved small ok =
    release-IsCounted s r h p r' (ground (arith, moved p)) (λ q. omega (arith, moved q)) small

none-IsCurrent : (x : Option ℕ) (c : Pc) → IsCurrent none c → IsCurrent x c
none-IsCurrent x idle k = tt
none-IsCurrent x tested k = tt
none-IsCurrent x (loaded p) k = absurd (ground arith)
none-IsCurrent x (holds p) k = tt
none-IsCurrent x (initializing p) k = absurd (ground arith)
none-IsCurrent x (destroying p) k = tt
none-IsCurrent x (constructed p) k = tt
none-IsCurrent x (unlinking o) k = tt

IsSettled-IsCurrent : (x : Option ℕ) (c : Pc) → IsSettled c → IsCurrent x c
IsSettled-IsCurrent x idle k = tt
IsSettled-IsCurrent x tested k = tt
IsSettled-IsCurrent x (loaded p) k = absurd k
IsSettled-IsCurrent x (holds p) k = tt
IsSettled-IsCurrent x (initializing p) k = absurd k
IsSettled-IsCurrent x (destroying p) k = tt
IsSettled-IsCurrent x (constructed p) k = tt
IsSettled-IsCurrent x (unlinking o) k = tt

All-imp : (P Q : Pc → Type 0) → ((c : Pc) → P c → Q c) → (cs : List Pc) → All P cs → All Q cs
All-imp P Q f [] h = tt
All-imp P Q f (c ∷ cs) (h, hs) = (f c h, All-imp P Q f cs hs)

-- What a step leaves as the instance is current for the other threads.
act-others :
    (s : System) (c : Pc)
    → Permits (some c) s
    → All (IsCurrent s.shared.instance_) s.threads
    → All (IsCurrent (act s.shared c).0.instance_) s.threads
unfolding act add_ref release
act-others s idle ok h = h
act-others s tested ok h = h
act-others s (loaded p) ok h = h
act-others s (holds p) ok h = h
act-others s (constructed p) ok h =
    All-imp _ _ (none-IsCurrent (some p)) s.threads (subst (λ x. All (IsCurrent x) s.threads) ok h)
act-others s (initializing p) ok h = h
act-others s (unlinking o) (same, quiet) h = All-imp _ _ (IsSettled-IsCurrent none) s.threads quiet
act-others s (destroying p) ok h = h

Permits-IsAllowed : (s : System) (c : Pc) → Permits (some c) s → IsAllowed s.shared.instance_ c
Permits-IsAllowed s idle ok = tt
Permits-IsAllowed s tested ok = tt
Permits-IsAllowed s (loaded p) ok = tt
Permits-IsAllowed s (holds p) ok = tt
Permits-IsAllowed s (constructed p) ok = ok
Permits-IsAllowed s (initializing p) ok = tt
Permits-IsAllowed s (unlinking o) (same, quiet) = same
Permits-IsAllowed s (destroying p) ok = tt

act-IsCurrent : (s : Shared) (c : Pc) → IsCurrent (act s c).0.instance_ (act s c).1
unfolding act add_ref release
act-IsCurrent s idle = elim (Option-cases s.instance_) [ inl e ↦ rw e tt | inr (p, e) ↦ rw e tt ]
act-IsCurrent s tested = elim (Option-cases s.instance_) [
  | inl e ↦ rw e tt
  | inr (p, e) ↦ rw e refl
]
act-IsCurrent s (loaded p) = tt
act-IsCurrent s (holds p) = tt
act-IsCurrent s (constructed p) = refl
act-IsCurrent s (initializing p) = tt
act-IsCurrent s (unlinking none) = tt
act-IsCurrent s (unlinking (some p)) = tt
act-IsCurrent s (destroying p) = tt

module _ (s : System) (h : IsSafe s) where
  -- So many references of threads leave room for the one of the instance in the counter.
  pub few_refs : (cs : List Pc) → length cs ≡ length s.threads → (p : ℕ) → refs p cs + 1 < 2 ^ 32
  few_refs cs same p = omega (arith, refs-le-length p cs, h.few)

  pub step_at-IsSafe :
      (i : ℕ) (o : Option Pc) → pc_at i s.threads ≡ o → Permits o s → IsSafe (step_at i o s)
  step_at-IsSafe i none at ok = h
  step_at-IsSafe i (some c) at ok =
      let (sh, d) = act s.shared c in
      let cs = set_pc i d s.threads in
      let same = length-set_pc i d s.threads in
      record {
        counts =
            act-IsCounted s.shared c (λ p. refs p s.threads) (λ p. refs p cs) h.counts
              (All-pc_at (IsCurrent s.shared.instance_) i c s.threads h.current at)
              (λ p. refs-set_pc p i c d s.threads at) (few_refs cs same) (Permits-IsAllowed s c ok);
        current =
            All-set_pc (IsCurrent sh.instance_) i d s.threads (act-IsCurrent s.shared c)
              (act-others s c ok h.current);
        few = rw same h.few;
      }

  pub idle_refs :
      (i : ℕ) (d : Pc) (p : ℕ)
      → pc_at i s.threads ≡ some idle
      → refs p (set_pc i d s.threads) ≡ refs p s.threads + ref_of p d
  idle_refs i d p at = omega (arith, refs-set_pc p i idle d s.threads at)
