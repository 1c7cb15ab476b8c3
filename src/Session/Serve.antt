-- ===== src/Session/Serve.antt =====
-- The session of src/memdb/memdb_session.cpp on a stream of frames, however the bytes arrive.
use memhook.Prelude.{
  All, ℕ, zero, suc, ◌-◌, ◌*◌, ◌≤◌, ◌<◌, ◌^◌, ◌≡◌, refl, ap, sym, ◌∙◌, Bool, false, Option, some,
  List, [], ◌∷◌, ◌++◌, length, take, drop, ltb, arith, Bool-cases, inl, inr, length-append,
  take-append-drop, length-take, append_assoc,
}
use memhook.Storage.{MappedStorage}
use memhook.Wire.Types.{NetRequest, outbound_shape, request_shape, request_fields}
use memhook.Wire.Codec.{read, write, get_size}
use memhook.Wire.RoundTrip.{read-write, size_of-length-write}
use memhook.Wire.Requests.{
  write_request, frame, IsSendable, read_request-write_request, length-outbound,
}
use memhook.Session.{
  Callback, Handled, Session, handle_net_request, await, parse_outbound, parse_inbound,
  after_request, after_read, Served, resume, serve,
}

-- A list that begins another one, when a longer list does.
prefix-split {ℓ} :
    {A : Type ℓ} (h xs ys zs : List A)
    → xs ++ ys ≡ h ++ zs
    → length h ≤ length xs
    → (rest : List A) × (xs ≡ h ++ rest) × (rest ++ ys ≡ zs)
prefix-split [] xs ys zs eq le = (xs, refl, eq)
prefix-split (a ∷ h) [] ys zs eq le = absurd (omega (arith, le))
prefix-split (a ∷ h) (x ∷ xs) ys zs eq le =
    let (rest, begins, ends) = prefix-split h xs ys zs (ap (drop 1) eq) (omega (arith, le)) in
    let same : x ≡ a = cc in (rest, rw (same, begins) refl, ends)

-- What the requests of a list make of `storage_`, each of them being handled.
abbrev pub AllHandled :
    (e : Bool) (m : MappedStorage) (new_storage : ℕ → m.Store)
    → List NetRequest
    → Option m.Store
    → Option m.Store
    → Type 0
AllHandled e m new_storage [] s s' = s ≡ s'
AllHandled e m new_storage (r ∷ rs) s s' =
    (t : Option m.Store) × (handle_net_request e m new_storage r s ≡ Handled.handled t)
    × AllHandled e m new_storage rs t s'

-- A request that a frame carries whole.
abbrev pub IsFramed : Bool → NetRequest → Type 0
IsFramed e r = IsSendable r × (length (write_request e r) < 2 ^ 63)

abbrev pub frames : Bool → List NetRequest → List ℕ
frames e [] = []
frames e (r ∷ rs) = frame e r ++ frames e rs

module _ (e : Bool) (m : MappedStorage) (new_storage : ℕ → m.Store) where
  abbrev S : Type 0
  S = Session e m new_storage

  abbrev Go : Type 0
  Go = Callback → S → List ℕ → Served e m new_storage

  -- A parser that has not enough bytes is called again when it has.
  resume-await :
      (go : Go) (need : ℕ) (cb : Callback) (s : S) (t : List ℕ)
      → need ≤ length (s.sbuf ++ t)
      → (b' t' : List ℕ) × (b' ++ t' ≡ s.sbuf ++ t)
        × (need ≤ length b')
        × (resume e m new_storage go (await e m new_storage need cb s) t
            ≡ go cb (record s { sbuf = b' }) t')
  resume-await go need cb s t enough = elim (Bool-cases (ltb (length s.sbuf) need)) [
    | inr full ↦ (s.sbuf, t, refl, ground arith, rw full refl)
    | inl short ↦
        let size = need - length s.sbuf in
        let arrives : ltb (length t) size ≡ false = ground (arith, length-append s.sbuf t) in
        (
          s.sbuf ++ take size t,
          drop size t,
          append_assoc s.sbuf (take size t) (drop size t)
              ∙ ap (◌++◌ s.sbuf) (take-append-drop size t),
          ground (
            arith,
            length-append s.sbuf (take size t),
            length-append s.sbuf t,
            length-take size t,
          ),
          rw (short, arrives) refl,
        )
  ]

  module _ (r : NetRequest) (sendable : IsSendable r)
      (short : length (write_request e r) < 2 ^ 63) where
    abbrev size : ℕ
    size = get_size request_shape (request_fields r)

    size-length : size ≡ length (write_request e r)
    unfolding get_size write_request
    size-length =
        omega
          (arith, short, size_of-length-write e request_shape (request_fields r) 0 (omega arith))

    header : List ℕ
    header = write e outbound_shape size

    length-header : length header ≡ 8
    unfolding header
    length-header = length-outbound e size

    read-header : (b : List ℕ) → read e outbound_shape (header ++ b) ≡ some (size, b)
    unfolding header
    read-header b = read-write e outbound_shape size b (omega (arith, short, size-length))

    parse_outbound-header :
        (b : List ℕ) (o : Option m.Store)
        → parse_outbound e m new_storage (record { sbuf = header ++ b; storage = o })
          ≡ await e m new_storage size Callback.parse_inbound_callback
              (record { sbuf = b; storage = o })
    unfolding parse_outbound
    parse_outbound-header b o =
        let full : ltb (length (header ++ b)) 8 ≡ false =
          ground (arith, length-append header b, length-header) in
        rw (full, read-header b) refl

    parse_inbound-request :
        (b : List ℕ) (o o' : Option m.Store)
        → handle_net_request e m new_storage r o ≡ Handled.handled o'
        → parse_inbound e m new_storage (record { sbuf = write_request e r ++ b; storage = o })
          ≡ await e m new_storage 8 Callback.parse_outbound_callback
              (record { sbuf = b; storage = o' })
    unfolding parse_inbound
    parse_inbound-request b o o' h =
        ap
          (λ p.
            after_read e m new_storage p (record { sbuf = write_request e r ++ b; storage = o }))
          (read_request-write_request e r b sendable)
        ∙ ap
            (λ x.
              after_request e m new_storage x b
                (record { sbuf = write_request e r ++ b; storage = o }))
            h

    -- Two calls of the parsers take a request out of the stream, wherever it is cut.
    one_request :
        (fuel : ℕ) (o o' : Option m.Store) (b t rest : List ℕ)
        → handle_net_request e m new_storage r o ≡ Handled.handled o'
        → b ++ t ≡ frame e r ++ rest
        → (b' t' : List ℕ) × (b' ++ t' ≡ rest)
          × (resume e m new_storage
                (serve e m new_storage (suc (suc fuel)))
                (await e m new_storage 8 Callback.parse_outbound_callback
                  (record { sbuf = b; storage = o }))
                t
              ≡ resume e m new_storage
                  (serve e m new_storage fuel)
                  (await e m new_storage 8 Callback.parse_outbound_callback
                    (record { sbuf = b'; storage = o' }))
                  t')
    unfolding serve frame header
    one_request fuel o o' b t rest h eq =
        let split : b ++ t ≡ header ++ (write_request e r ++ rest) =
          eq ∙ append_assoc header (write_request e r) rest in
        let (b1, t1, eq1, le1, first) =
          resume-await (serve e m new_storage (suc (suc fuel))) 8 Callback.parse_outbound_callback
            (record { sbuf = b; storage = o }) t
            (rw split
              (omega (arith, length-append header (write_request e r ++ rest), length-header))) in
        let (b2, begins, eq2) =
          prefix-split header b1 t1 (write_request e r ++ rest) (eq1 ∙ split)
            (omega (arith, le1, length-header)) in
        let (b3, t3, eq3, le3, second) =
          resume-await (serve e m new_storage (suc fuel)) size Callback.parse_inbound_callback
            (record { sbuf = b2; storage = o }) t1
            (rw eq2 (omega (arith, length-append (write_request e r) rest, size-length))) in
        let (b4, begins', eq4) =
          prefix-split (write_request e r) b3 t3 rest (eq3 ∙ eq2)
            (omega (arith, le3, size-length)) in
        (
          b4,
          t3,
          eq4,
          first
              ∙ ap
                  (λ b.
                    resume e m new_storage (serve e m new_storage (suc fuel))
                      (parse_outbound e m new_storage (record { sbuf = b; storage = o })) t1)
                  begins
              ∙ ap (λ p. resume e m new_storage (serve e m new_storage (suc fuel)) p t1)
                  (parse_outbound-header b2 o)
              ∙ second
              ∙ ap
                  (λ b.
                    resume e m new_storage (serve e m new_storage fuel)
                      (parse_inbound e m new_storage (record { sbuf = b; storage = o })) t3)
                  begins'
              ∙ ap (λ p. resume e m new_storage (serve e m new_storage fuel) p t3)
                  (parse_inbound-request b4 o o' h),
        )

  -- The session takes every request out of the stream, and then waits for the next header.
  serve-await :
      (rs : List NetRequest) (fuel : ℕ) (o o' : Option m.Store) (b t : List ℕ)
      → 2 * length rs ≤ fuel
      → All (IsFramed e) rs
      → AllHandled e m new_storage rs o o'
      → b ++ t ≡ frames e rs
      → resume e m new_storage
          (serve e m new_storage fuel)
          (await e m new_storage 8 Callback.parse_outbound_callback
            (record { sbuf = b; storage = o }))
          t
        ≡ Served.waiting 8 Callback.parse_outbound_callback (record { sbuf = []; storage = o' }) []
  serve-await [] fuel o o' [] [] h ok done eq =
      ap
        (λ o.
          Served.waiting 8 Callback.parse_outbound_callback (record { sbuf = []; storage = o }) [])
        done
  serve-await [] fuel o o' [] (x ∷ t) h ok done eq = absurd (omega (arith, ap length eq))
  serve-await [] fuel o o' (x ∷ b) t h ok done eq = absurd (omega (arith, ap length eq))
  serve-await (r ∷ rs) zero o o' b t h ok done eq = absurd (omega (arith, h))
  serve-await (r ∷ rs) (suc zero) o o' b t h ok done eq = absurd (omega (arith, h))
  serve-await (r ∷ rs) (suc (suc fuel)) o o' b t h ((sendable, short), ok) (o1, one, more) eq =
      let (b', t', eq', once) = one_request r sendable short fuel o o1 b t (frames e rs) one eq in
      once ∙ serve-await rs fuel o1 o' b' t' (omega (arith, h)) ok more eq'

  -- A session whose first read brings at least the eight bytes of a header handles a stream of
  -- frames wherever the reads cut it, when each request can be handled: in two calls of the parsers
  -- for each request it comes to wait for the next header, with an empty buffer, and with the
  -- storage that the requests make of it. Each request is to fit its representation and take less
  -- than 2 ^ 63 bytes.
  pub serve-frames :
      (rs : List NetRequest) (fuel : ℕ) (o o' : Option m.Store) (first rest : List ℕ)
      → 2 * length rs ≤ fuel
      → 8 ≤ length first
      → All (IsFramed e) rs
      → AllHandled e m new_storage rs o o'
      → first ++ rest ≡ frames e rs
      → serve e m new_storage fuel Callback.parse_outbound_callback
          (record { sbuf = first; storage = o })
          rest
        ≡ Served.waiting 8 Callback.parse_outbound_callback (record { sbuf = []; storage = o' }) []
  serve-frames rs fuel o o' first rest h header ok done eq =
      let full : ltb (length first) 8 ≡ false = ground arith in
      sym (rw full refl) ∙ serve-await rs fuel o o' first rest h ok done eq
