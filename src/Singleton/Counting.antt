-- ===== src/Singleton/Counting.antt =====
-- The references that threads hold, as src/memhook/singleton.h counts them.
use memhook.Prelude.{
  ℕ, ◌+◌, ◌-◌, ◌%◌, ◌^◌, ◌<◌, ◌==◌, ◌≡◌, false, ◌&&◌, Option, none, some, List, [], ◌∷◌, ltb,
  if◌then◌else◌, arith, ==_iff,
}
use memhook.Atomics.{update}
use memhook.Atomics.AsmX86.{fetch_and_add, add_and_fetch}
use memhook.Singleton.{
  Pc, loaded, holds, constructed, initializing, destroying, Shared, touch, add_ref, release,
  initialize,
}

-- The references of a thread to an object, and those of all threads.
abbrev pub ref_of : ℕ → Pc → ℕ
ref_of p (holds q) = if q == p then 1 else 0
ref_of p (constructed q) = if q == p then 1 else 0
ref_of p (destroying q) = if q == p then 1 else 0
ref_of p _ = 0

unfoldable pub refs : ℕ → List Pc → ℕ
refs p [] = 0
refs p (c ∷ cs) = ref_of p c + refs p cs

-- The reference of `instance_` itself.
abbrev pub own : ℕ → Option ℕ → ℕ
own p none = 0
own p (some q) = if q == p then 1 else 0

-- Every counter is right where the threads hold `r` references, every object is deleted once when
-- nothing refers to it any more, and no object is accessed that is deleted.
pub record IsCounted (s : Shared) (r : ℕ → ℕ) : Type 0 where
  pub counted : (p : ℕ) → s.ref_counter p ≡ r p + own p s.instance_
  pub once : (p : ℕ) → s.deleted p ≡ (if ltb p s.fresh && (s.ref_counter p == 0) then 1 else 0)
  pub made : (p : ℕ) → 0 < s.ref_counter p → p < s.fresh
  pub sound : s.fault ≡ false

-- A pointer that is loaded and not yet counted, or being initialized, is the instance.
abbrev pub IsCurrent : Option ℕ → Pc → Type 0
IsCurrent inst (loaded p) = inst ≡ some p
IsCurrent inst (initializing p) = inst ≡ some p
IsCurrent inst _ = Unit

module _ (s : Shared) (r : ℕ → ℕ) (h : IsCounted s r) (p : ℕ) where
  live_untouched : 0 < s.ref_counter p → s.deleted p ≡ 0
  live_untouched some_left = ground (arith, h.once p)

  -- An access of an object that is referred to is none of a deleted one.
  pub touch-IsCounted : 0 < s.ref_counter p → IsCounted (record s { fault = touch p s }) r
  touch-IsCounted live = record {
    counted = h.counted;
    once = h.once;
    made = h.made;
    sound = ground (arith, live_untouched live, h.sound);
  }

  pub add_ref-IsCounted :
      (r' : ℕ → ℕ)
      → 0 < s.ref_counter p
      → ((q : ℕ) → r' q ≡ r q + (if p == q then 1 else 0))
      → ((q : ℕ) → r' q + 1 < 2 ^ 32)
      → IsCounted (add_ref p s) r'
  unfolding add_ref fetch_and_add update
  add_ref-IsCounted r' live more small = record {
    counted = λ q. ground (arith, h.counted q, h.counted p, more q, small q, ==_iff p q);
    once = λ q.
        ground (arith, h.once q, h.counted q, h.counted p, more q, small q, ==_iff p q, h.made q);
    made = λ q k. ground (arith, h.made q, h.made p, ==_iff p q);
    sound = ground (arith, live_untouched live, h.sound);
  }

  pub release-IsCounted :
      (r' : ℕ → ℕ)
      → 0 < r p
      → ((q : ℕ) → r' q + (if p == q then 1 else 0) ≡ r q)
      → ((q : ℕ) → r' q + 1 < 2 ^ 32)
      → IsCounted (release p s) r'
  unfolding release add_and_fetch update
  release-IsCounted r' live less small =
      let left : (s.ref_counter p + (2 ^ 32 - 1)) % 2 ^ 32 ≡ r' p + own p s.instance_ =
        ground (arith, h.counted p, less p, small p) in
      let deleted : s.deleted p ≡ 0 = ground (arith, live_untouched, h.counted p) in
      record {
        counted = λ q. ground (arith, left, h.counted q, less q, ==_iff p q);
        once = λ q. ground (
          arith,
          left,
          deleted,
          h.once q,
          h.counted q,
          h.counted p,
          h.made p,
          less q,
          ==_iff p q,
        );
        made = λ q k. ground (arith, h.made q, h.made p, h.counted p, ==_iff p q);
        sound = ground (arith, deleted, h.sound);
      }

-- One more object, whose only reference is that of the thread that makes it.
pub initialize-IsCounted :
    (s : Shared) (r r' : ℕ → ℕ)
    → ((p : ℕ) → r' p ≡ r p + (if s.fresh == p then 1 else 0))
    → ((p : ℕ) → r p + 1 < 2 ^ 32)
    → IsCounted s r
    → IsCounted (initialize s).0 r'
unfolding initialize add_ref fetch_and_add update
initialize-IsCounted s r r' more small h = record {
  counted =
      λ q. ground (arith, h.counted q, h.counted s.fresh, h.made s.fresh, more q, ==_iff s.fresh q);
  once = λ q. ground (arith, h.once q, h.counted q, h.made q, ==_iff s.fresh q);
  made = λ q k. ground (arith, h.made q, ==_iff s.fresh q);
  sound = ground (arith, h.once s.fresh, h.made s.fresh, h.sound);
}

-- References go from the threads to the instance, or back.
pub moved-IsCounted :
    (s : Shared) (r r' : ℕ → ℕ) (o : Option ℕ)
    → ((p : ℕ) → r' p + own p o ≡ r p + own p s.instance_)
    → IsCounted s r
    → IsCounted (record s { instance_ = o }) r'
moved-IsCounted s r r' o moved h = record {
  counted = λ q. ground (arith, h.counted q, moved q);
  once = h.once;
  made = h.made;
  sound = h.sound;
}
