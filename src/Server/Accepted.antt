-- ===== src/Server/Accepted.antt =====
-- Every accepted connection of src/memdb/memdb_server.cpp has a session of its own.
use memhook.Prelude.{
  ℕ, suc, ◌+◌, ◌<◌, ◌≡◌, Bool, true, false, none, some, List, [], ◌∷◌, length, arith, ◌⊎◌, inl, inr,
  Option-cases,
}
use memhook.Server.{
  Server, start_accept, handle_accept, accepted, new_server, ServerOptions, Creator, mmf_creator,
  shm_creator, serves, accepts_options, new_creator, main_of, shm_name,
}

-- Sessions that started before, each once, and that have all numbers below a bound.
abbrev pub Below : ℕ → List ℕ → Type 0
Below n [] = Unit
Below n (x ∷ xs) = (x < n) × Below x xs

abbrev pub successes : List Bool → ℕ
successes [] = 0
successes (true ∷ es) = successes es
successes (false ∷ es) = suc (successes es)

Below-mono : (m n : ℕ) (xs : List ℕ) → m < n → Below m xs → Below n xs
Below-mono m n [] lt h = tt
Below-mono m n (x ∷ xs) lt (h, hs) = (omega arith, hs)

accepted_from :
    (errors : List Bool) (s : Server)
    → s.waiting < s.fresh
    → Below s.waiting s.started
    → Below (accepted errors s).waiting (accepted errors s).started
      × (length (accepted errors s).started ≡ length s.started + successes errors)
unfolding accepted handle_accept start_accept
accepted_from [] s w h = (h, omega arith)
accepted_from (true ∷ errors) s w h =
    accepted_from errors (handle_accept true s) (omega arith)
      (Below-mono s.waiting s.fresh s.started w h)
accepted_from (false ∷ errors) s w h =
    let (apart, counted) = accepted_from errors (handle_accept false s) (omega arith) (w, h) in
    (apart, omega arith)

-- Whatever accepts fail, each one that does not starts one session, every started session is
-- another one, and the session that waits is none of them.
pub accepted_apart :
    (errors : List Bool)
    → Below (accepted errors new_server).waiting (accepted errors new_server).started
      × (length (accepted errors new_server).started ≡ successes errors)
accepted_apart errors =
    let (apart, counted) = accepted_from errors new_server (omega arith) tt in (apart, omega arith)

-- What is served is the file that is given, with no shared memory given beside it, or else the
-- shared memory of the given or the usual name; help was not asked for, and host and port are the
-- given ones.
pub main_of_serves :
    (o : ServerOptions) (c : Creator) (host : List ℕ) (port : ℕ)
    → main_of o ≡ serves c host port
    → (o.help ≡ false)
      × (o.host ≡ some host)
      × (o.port ≡ some port)
      × (((path : List ℕ) × (o.mapped_file ≡ some path)
            × (o.shared_memory_name ≡ none)
            × (c ≡ mmf_creator path o.size))
          ⊎ ((o.mapped_file ≡ none) × (c ≡ shm_creator (shm_name o.shared_memory_name) o.size)))
unfolding main_of accepts_options new_creator
main_of_serves o c host port e =
    let h : o.help ≡ false = ground arith in
    elim (Option-cases o.mapped_file) [
      | inl absent ↦ (h, ground arith, ground arith, inr (absent, ground arith))
      | inr (path, given) ↦
          (h, ground arith, ground arith, inl (path, given, ground arith, ground arith))
    ]
