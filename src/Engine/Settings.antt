-- ===== src/Engine/Settings.antt =====
-- What the variables of the environment, most of which the README lists, ask of the engine of
-- src/memhook/engine.cpp: the rules, and that its start reads the variables by them.
use memhook.Prelude.{
  ℕ, ℤ, pos, ◌*◌, ◌%◌, ◌^◌, ◌≡◌, ◌≢◌, refl, ◌==◌, Option, none, some, List, [], ◌∷◌, arith,
  Bool-cases, inl, inr,
}
use memhook.Engine.{Policy}
use memhook.Engine.Start.{
  Environment, Platform, Choice, network, mapped_file, shared, shared_memory, to_int, scaled,
  default_size, size_of_env, ipc_size, file_or_shared, port, new_storage, timeout_of, max_items_of,
  policy_of,
}

-- The variables for the size of the storage by rank, each with its unit.
abbrev pub sizes : Environment → List (Option (List ℕ) × ℕ)
sizes env =
    (env.size_gb, 2 ^ 30) ∷ (env.size_mb, 2 ^ 20) ∷ (env.size_kb, 2 ^ 10) ∷ (env.size, 1) ∷ []

module _ (p : Platform) where
  -- The first variable that is set gives the size, in a word of 64 bits; 8 GB is meant where none
  -- is set, and where that one is 0.
  pub data IsSize : List (Option (List ℕ) × ℕ) → ℕ → Type 0 where
    nowhere : IsSize [] 8589934592
    unset :
        {unit n : ℕ} {vs : List (Option (List ℕ) × ℕ)} → IsSize vs n → IsSize ((none, unit) ∷ vs) n
    given_zero :
        {text : List ℕ} {unit : ℕ} {vs : List (Option (List ℕ) × ℕ)}
        → p.strtoul text ≡ 0
        → IsSize ((some text, unit) ∷ vs) 8589934592
    given :
        {text : List ℕ} {unit : ℕ} {vs : List (Option (List ℕ) × ℕ)}
        → p.strtoul text ≢ 0
        → IsSize ((some text, unit) ∷ vs) ((p.strtoul text * unit) % 2 ^ 64)

  pub data IsPort : Option (List ℕ) → ℤ → Type 0 where
    usual_port : IsPort none (pos 20015)
    given_port : {text : List ℕ} → IsPort (some text) (to_int (p.strtoul text))

  -- A host comes before a file, and a file before shared memory.
  pub data IsChoice (env : Environment) : Choice → Type 0 where
    over_network :
        {host : List ℕ} {number : ℤ}
        → env.net_host ≡ some host
        → IsPort env.net_port number
        → IsChoice env (network host number)
    in_file :
        {path : List ℕ} {n : ℕ}
        → env.net_host ≡ none
        → env.file ≡ some path
        → IsSize (sizes env) n
        → IsChoice env (mapped_file path n)
    in_segment :
        {name : List ℕ} {n : ℕ}
        → env.net_host ≡ none
        → env.file ≡ none
        → env.shm_name ≡ some name
        → IsSize (sizes env) n
        → IsChoice env (shared name n)
    in_usual_segment :
        {n : ℕ}
        → env.net_host ≡ none
        → env.file ≡ none
        → env.shm_name ≡ none
        → IsSize (sizes env) n
        → IsChoice env (shared shared_memory n)

  -- Two seconds, where no interval is set or the text is none.
  pub data IsInterval : Option (List ℕ) → ℤ → Type 0 where
    usual_interval : IsInterval none (pos 2000000000)
    no_interval :
        {text : List ℕ}
        → p.duration_from_string text ≡ none
        → IsInterval (some text) (pos 2000000000)
    given_interval :
        {text : List ℕ} {interval : ℤ}
        → p.duration_from_string text ≡ some interval
        → IsInterval (some text) interval

  -- Without a number the limit is the greatest word.
  pub data IsLimit : Option (List ℕ) → ℕ → Type 0 where
    no_limit : IsLimit none 18446744073709551615
    given_limit : {text : List ℕ} → IsLimit (some text) (p.strtoul text)

-- Names are looked up with the stack only where the variable is set to a text that does not begin
-- with '0'.
pub data IsPolicy : Option (List ℕ) → Policy → Type 0 where
  usual_policy : IsPolicy none Policy.flush_local_cache_when
  policy_refused : {rest : List ℕ} → IsPolicy (some (b'0' ∷ rest)) Policy.flush_local_cache_when
  policy_empty : IsPolicy (some []) Policy.unwind_call_stack_when
  policy_wanted :
      {ch : ℕ} {rest : List ℕ}
      → ch ≢ b'0'
      → IsPolicy (some (ch ∷ rest)) Policy.unwind_call_stack_when

module _ (p : Platform) (env : Environment) where
  scaled-IsSize :
      (text : List ℕ) (shift : ℕ) (vs : List (Option (List ℕ) × ℕ))
      → IsSize p ((some text, 2 ^ shift) ∷ vs) (scaled default_size shift (p.strtoul text))
  scaled-IsSize text shift vs = elim (Bool-cases (p.strtoul text == 0)) [
    | inl zero ↦ rw zero (given_zero (ground (arith, zero)))
    | inr more ↦ rw more (given (λ h. ground (arith, more, h)))
  ]

  size_of_env-IsSize :
      (gb mb kb bytes : Option (List ℕ))
      → IsSize p
          ((gb, 2 ^ 30) ∷ (mb, 2 ^ 20) ∷ (kb, 2 ^ 10) ∷ (bytes, 1) ∷ [])
          (size_of_env p env gb mb kb bytes)
  size_of_env-IsSize (some gb) mb kb bytes = scaled-IsSize gb 30 _
  size_of_env-IsSize none (some mb) kb bytes = unset (scaled-IsSize mb 20 _)
  size_of_env-IsSize none none (some kb) bytes = unset (unset (scaled-IsSize kb 10 _))
  size_of_env-IsSize none none none (some bytes) = unset (unset (unset (scaled-IsSize bytes 0 _)))
  size_of_env-IsSize none none none none = unset (unset (unset (unset nowhere)))

  ipc_size-IsSize : IsSize p (sizes env) (ipc_size p env)
  unfolding ipc_size
  ipc_size-IsSize = size_of_env-IsSize env.size_gb env.size_mb env.size_kb env.size

  port-IsPort : (o : Option (List ℕ)) → IsPort p o (port p env o)
  port-IsPort none = usual_port
  port-IsPort (some text) = given_port

  file_or_shared-IsChoice :
      env.net_host ≡ none
      → (file shm_name : Option (List ℕ)) → env.file ≡ file
      → env.shm_name ≡ shm_name
      → IsChoice p env (file_or_shared p env file shm_name)
  file_or_shared-IsChoice h (some path) name f s = in_file h f ipc_size-IsSize
  file_or_shared-IsChoice h none (some name) f s = in_segment h f s ipc_size-IsSize
  file_or_shared-IsChoice h none none f s = in_usual_segment h f s ipc_size-IsSize

  pub new_storage-IsChoice : IsChoice p env (new_storage p env)
  unfolding new_storage
  new_storage-IsChoice = by_host env.net_host refl
    where
      by_host :
          (o : Option (List ℕ))
          → env.net_host ≡ o
          → IsChoice p env (elim o [
            | some host ↦ network host (port p env env.net_port)
            | none ↦ file_or_shared p env env.file env.shm_name
          ])
      by_host (some host) h = over_network h (port-IsPort env.net_port)
      by_host none h = file_or_shared-IsChoice h env.file env.shm_name refl refl

  pub timeout_of-IsInterval : (o : Option (List ℕ)) → IsInterval p o (timeout_of p env o)
  timeout_of-IsInterval none = usual_interval
  timeout_of-IsInterval (some text) = by_duration (p.duration_from_string text) refl
    where
      by_duration :
          (d : Option ℤ)
          → p.duration_from_string text ≡ d
          → IsInterval p (some text) (elim d [ none ↦ pos 2000000000 | some timeout ↦ timeout ])
      by_duration none h = no_interval h
      by_duration (some timeout) h = given_interval h

  pub max_items_of-IsLimit : (o : Option (List ℕ)) → IsLimit p o (max_items_of p env o)
  max_items_of-IsLimit none = no_limit
  max_items_of-IsLimit (some text) = given_limit

  pub policy_of-IsPolicy : (o : Option (List ℕ)) → IsPolicy o (policy_of p env o)
  policy_of-IsPolicy none = usual_policy
  policy_of-IsPolicy (some []) = policy_empty
  policy_of-IsPolicy (some (ch ∷ rest)) = elim (Bool-cases (ch == 48)) [
    | inl same ↦ let digit : ch ≡ 48 = ground (arith, same) in rw digit policy_refused
    | inr other ↦ rw other (policy_wanted (λ h. ground (arith, other, h)))
  ]
