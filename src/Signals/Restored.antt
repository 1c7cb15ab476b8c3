-- ===== src/Signals/Restored.antt =====
-- The scopes of src/memhookcore/scoped_signal_lock.cpp and scoped_signal.cpp undo what they do.
use mathlib.Core.Path.{fun_ext}
use memhook.Prelude.{
  ℕ, ◌==◌, ◌≡◌, refl, ap, ◌∙◌, ◌||◌, Option, none, some, List, [], ◌∷◌, map, append-nil,
  if◌then◌else◌, arith, ==_iff,
}
use memhook.Signals.{
  sigint, sigquit, sigabrt, sigterm, fill_new_mask, Signals, Scope, signal_lock, signal, lock_mask,
  set_action, open_scope, close_scope, Work, ends, arrives, within, deliver, run_work,
  interprocess_scoped_lock, arrivals,
}

set_action_back :
    (n h : ℕ) (action : ℕ → ℕ) → set_action n (action n) (set_action n h action) ≡ action
set_action_back n h action = fun_ext (λ k. ground (arith, ==_iff n k))

close-open_scope : (c : Scope) (s : Signals) → close_scope c s (open_scope c s) ≡ s
unfolding close_scope open_scope
close-open_scope (signal_lock ns) s = refl
close-open_scope (signal n h) s = ap (λ a. record s { action = a }) (set_action_back n h s.action)

-- However scopes are nested, mask and handlers are in the end what they were.
pub run_work_restores : (w : Work) (s : Signals) → (run_work w s).0 ≡ s
unfolding run_work
run_work_restores ends s = refl
run_work_restores (arrives n w) s = run_work_restores w s
run_work_restores (within c inner w) s =
    run_work_restores w (close_scope c s (run_work inner (open_scope c s)).0)
    ∙ ap (close_scope c s) (run_work_restores inner (open_scope c s))
    ∙ close-open_scope c s

-- What becomes of a signal while a view holds its lock.
abbrev pub while_viewing : ℕ → Signals → ℕ → Option ℕ
while_viewing callback s n =
    if n == sigint
    then some callback
    else if n == sigquit || n == sigabrt || n == sigterm
    then none
    else some (s.action n)

arrivals_answers :
    (ns : List ℕ) (s : Signals) → run_work (arrivals ns) s ≡ (s, map (λ n. deliver n s) ns)
unfolding run_work
arrivals_answers [] s = refl
arrivals_answers (n ∷ ns) s = rw (arrivals_answers ns s) refl

deliver_viewing :
    (callback n : ℕ) (s : Signals)
    → deliver n (open_scope (signal sigint callback) (open_scope (signal_lock (sigint ∷ [])) s))
      ≡ while_viewing callback s n
unfolding open_scope lock_mask fill_new_mask
deliver_viewing callback n s = ground (arith, ==_iff sigint n)

-- While a view holds its lock, SIGINT goes to its handler, SIGQUIT, SIGABRT and SIGTERM wait, and
-- any other signal goes to the program's handler, also when the program had blocked it; afterwards
-- mask and handlers are what they were.
pub interprocess_scoped_lock_signals :
    (callback : ℕ) (ns : List ℕ) (s : Signals)
    → run_work (interprocess_scoped_lock callback (arrivals ns)) s
      ≡ (s, map (while_viewing callback s) ns)
unfolding interprocess_scoped_lock run_work
interprocess_scoped_lock_signals callback ns s =
    let locked = open_scope (signal_lock (sigint ∷ [])) s in
    let handled = open_scope (signal sigint callback) locked in
    let inner = arrivals_answers ns handled in
    let answers : map (λ n. deliver n handled) ns ≡ map (while_viewing callback s) ns =
      ap (λ f. map f ns) (fun_ext (λ n. deliver_viewing callback n s)) in
    let closed : close_scope (signal_lock (sigint ∷ [])) s
          (close_scope (signal sigint callback) locked handled)
        ≡ s =
      ap (close_scope (signal_lock (sigint ∷ [])) s)
        (close-open_scope (signal sigint callback) locked)
      ∙ close-open_scope (signal_lock (sigint ∷ [])) s in
    rw (inner, append-nil, append-nil, closed, answers) refl
