-- ===== src/Memview/Callstacks.antt =====
-- The equality of call stacks of src/memview/aggregated_printer.h, and what a change of an element
-- does to the elements that are found.
use memhook.Prelude.{
  ℕ, ◌≡◌, refl, ap, sym, ◌∙◌, ◌==◌, ==_iff, Bool, true, false, ◌&&◌, Option, none, some, List, [],
  ◌∷◌, if◌then◌else◌, arith, Bool-cases, inl, inr,
}
use memhook.Memview.Aggregate.{
  AggregatedCallstack, AggregatedTraceInfo, equal_callstacks, find_callstack, modify_callstack,
}

-- The addresses that tell call stacks apart.
abbrev pub ips_and_sps : AggregatedCallstack → List (ℕ × ℕ)
ips_and_sps [] = []
ips_and_sps (item ∷ cs) = (item.ip, item.sp) ∷ ips_and_sps cs

abbrev same_addresses : List (ℕ × ℕ) → List (ℕ × ℕ) → Bool
same_addresses [] [] = true
same_addresses ((i, s) ∷ a) ((j, t) ∷ b) = (i == j && s == t) && same_addresses a b
same_addresses _ _ = false

equal_callstacks-same_addresses :
    (a b : AggregatedCallstack)
    → equal_callstacks a b ≡ same_addresses (ips_and_sps a) (ips_and_sps b)
unfolding equal_callstacks
equal_callstacks-same_addresses [] [] = refl
equal_callstacks-same_addresses [] (y ∷ b) = ground arith
equal_callstacks-same_addresses (x ∷ a) [] = ground arith
equal_callstacks-same_addresses (x ∷ a) (y ∷ b) =
    ground (arith, equal_callstacks-same_addresses a b)

same_addresses_sound : (a b : List (ℕ × ℕ)) → same_addresses a b ≡ true → a ≡ b
same_addresses_sound [] [] h = refl
same_addresses_sound [] (y ∷ b) h = absurd (ground arith)
same_addresses_sound (x ∷ a) [] h = absurd (ground arith)
same_addresses_sound ((i, s) ∷ a) ((j, t) ∷ b) h =
    ground (arith, same_addresses_sound a b, ==_iff i j, ==_iff s t)

pub equal_callstacks_left :
    (a b c : AggregatedCallstack)
    → equal_callstacks a b ≡ true
    → equal_callstacks a c ≡ equal_callstacks b c
equal_callstacks_left a b c h =
    let keys =
      same_addresses_sound (ips_and_sps a) (ips_and_sps b)
        (sym (equal_callstacks-same_addresses a b) ∙ h) in
    equal_callstacks-same_addresses a c
    ∙ ap (λ k. same_addresses k (ips_and_sps c)) keys
    ∙ sym (equal_callstacks-same_addresses b c)

pub equal_callstacks_right :
    (a b c : AggregatedCallstack)
    → equal_callstacks b c ≡ true
    → equal_callstacks a b ≡ equal_callstacks a c
equal_callstacks_right a b c h =
    let keys =
      same_addresses_sound (ips_and_sps b) (ips_and_sps c)
        (sym (equal_callstacks-same_addresses b c) ∙ h) in
    equal_callstacks-same_addresses a b
    ∙ ap (same_addresses (ips_and_sps a)) keys
    ∙ sym (equal_callstacks-same_addresses a c)

pub find_callstack_same :
    (c d : AggregatedCallstack) (vs : List AggregatedTraceInfo)
    → equal_callstacks c d ≡ true
    → find_callstack c vs ≡ find_callstack d vs
unfolding find_callstack
find_callstack_same c d [] h = refl
find_callstack_same c d (v ∷ vs) h =
    rw (equal_callstacks_right v.callstack c d h, find_callstack_same c d vs h) refl

abbrev pub map_info :
    (AggregatedTraceInfo → AggregatedTraceInfo)
    → Option AggregatedTraceInfo
    → Option AggregatedTraceInfo
map_info f none = none
map_info f (some v) = some (f v)

pub find_callstack-modify_callstack :
    (cs c : AggregatedCallstack) (f : AggregatedTraceInfo → AggregatedTraceInfo)
    (vs : List AggregatedTraceInfo)
    → ((v : AggregatedTraceInfo) → (f v).callstack ≡ v.callstack)
    → find_callstack c (modify_callstack cs f vs)
      ≡ (if equal_callstacks cs c then map_info f (find_callstack c vs) else find_callstack c vs)
unfolding find_callstack modify_callstack
find_callstack-modify_callstack cs c f [] keeps = ground arith
find_callstack-modify_callstack cs c f (v ∷ vs) keeps =
    elim (Bool-cases (equal_callstacks v.callstack cs)) [
      | inl here ↦
          let left = equal_callstacks_left v.callstack cs c here in
          let same = ap (λ k. equal_callstacks k c) (keeps v) in ground arith
      | inr there ↦
          let rest = find_callstack-modify_callstack cs c f vs keeps in
          elim (Bool-cases (equal_callstacks cs c)) [
            | inl same ↦ let right = equal_callstacks_right v.callstack cs c same in ground arith
            | inr other ↦ ground arith
          ]
    ]
