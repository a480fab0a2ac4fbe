-- ===== src/RateLimit/Clients.antt =====
-- The map of clients of internal/middleware/ratelimit.go, its gauge and its sweeps.
use community_waste_collecti.Base.{
  ◌-◌, ◌≤◌, ◌≡◌, refl, sym, ◌∙◌, ap, subst, Bool, not, List, [], ◌∷◌, none, some, Comparable, ◌==◌,
  ltb, if◌then◌else◌, length, arith, Bool-cases, Option-cases, inl, inr,
}
use community_waste_collecti.Table.{affected, delete, select}
use community_waste_collecti.Domain.{Time}
use community_waste_collecti.RateLimit.{
  IpLimiter, Limiters, Event, request, sweep, lookup, put, is_idle, sweep_once, rate_limiter,
  handle, handle_all, no_clients, evict_threshold,
}

module _ {A : Type 0} where
  affected-le : (test : A → Bool) (xs : List A) → affected test xs ≤ length xs
  unfolding affected
  affected-le test [] = omega arith
  affected-le test (x ∷ xs) = ground (arith, affected-le test xs)

  length-delete :
      (test : A → Bool) (xs : List A) → length (delete test xs) ≡ length xs - affected test xs
  unfolding delete select affected
  length-delete test [] = omega arith
  length-delete test (x ∷ xs) = ground (arith, length-delete test xs, affected-le test xs)

module _ {Ip Limiter : Type 0} ⦃c : Comparable Ip⦄ where
  -- No client stands twice.
  abbrev pub Distinct : List (IpLimiter Ip Limiter) → Type 0
  Distinct [] = Unit {0}
  Distinct (x ∷ xs) = (lookup x.ip xs ≡ none) × Distinct xs

  length-put :
      (y : IpLimiter Ip Limiter) (xs : List (IpLimiter Ip Limiter)) → length (put y xs) ≡ length xs
  unfolding put
  length-put y [] = refl
  length-put y (x ∷ xs) = ground (arith, length-put y xs)

  -- The state that every event keeps.
  pub record Valid (s : Limiters Ip Limiter) : Type 0 where
    pub counted : s.active ≡ length s.clients
    pub distinct : Distinct s.clients

  pub lookup-delete-none :
      (test : IpLimiter Ip Limiter → Bool) (ip : Ip) (xs : List (IpLimiter Ip Limiter))
      → lookup ip xs ≡ none
      → lookup ip (delete test xs) ≡ none
  unfolding lookup delete select
  lookup-delete-none test ip [] e = refl
  lookup-delete-none test ip (x ∷ xs) e = elim (Bool-cases (x.ip == ip)) [
    | inl hit ↦ absurd (cc (rw hit at e))
    | inr miss ↦
        let rest = lookup-delete-none test ip xs (rw miss at e) in
        elim (Bool-cases (test x)) [ inl gone ↦ rw gone rest | inr kept ↦ rw (kept, miss) rest ]
  ]

  pub lookup-delete :
      (test : IpLimiter Ip Limiter → Bool) (ip : Ip) (xs : List (IpLimiter Ip Limiter))
      {x : IpLimiter Ip Limiter}
      → Distinct xs
      → lookup ip xs ≡ some x
      → lookup ip (delete test xs) ≡ (if test x then none else some x)
  unfolding lookup delete select
  lookup-delete test ip [] d e = absurd (cc e)
  lookup-delete test ip (y ∷ ys) {x} d e = elim (Bool-cases (y.ip == ip)) [
    | inl hit ↦
        let it : y ≡ x = cc (rw hit at e) in
        let own : y.ip ≡ ip = (c.equals_iff y.ip ip).0 hit in
        let alone : lookup ip ys ≡ none = ap (λ i. lookup i ys) (sym own) ∙ d.0 in
        subst
          (λ z.
            lookup ip (if not (test y) then y ∷ delete test ys else delete test ys)
            ≡ (if test z then none else some z))
          it
          (elim (Bool-cases (test y)) [
            | inl gone ↦ rw gone (lookup-delete-none test ip ys alone)
            | inr kept ↦ rw (kept, hit) refl
          ])
    | inr miss ↦
        let rest = lookup-delete test ip ys d.1 (rw miss at e) in
        elim (Bool-cases (test y)) [ inl gone ↦ rw gone rest | inr kept ↦ rw (kept, miss) rest ]
  ]

  Distinct-delete :
      (test : IpLimiter Ip Limiter → Bool) (xs : List (IpLimiter Ip Limiter))
      → Distinct xs
      → Distinct (delete test xs)
  unfolding delete select
  Distinct-delete test [] d = tt
  Distinct-delete test (x ∷ xs) d = elim (Bool-cases (test x)) [
    | inl gone ↦ rw gone (Distinct-delete test xs d.1)
    | inr kept ↦ rw kept (lookup-delete-none test x.ip xs d.0, Distinct-delete test xs d.1)
  ]

  lookup-put-none :
      (y : IpLimiter Ip Limiter) (ip : Ip) (xs : List (IpLimiter Ip Limiter))
      → lookup ip xs ≡ none
      → lookup ip (put y xs) ≡ none
  unfolding lookup put
  lookup-put-none y ip [] e = refl
  lookup-put-none y ip (x ∷ xs) e = elim (Bool-cases (x.ip == ip)) [
    | inl hit ↦ absurd (cc (rw hit at e))
    | inr miss ↦ elim (Bool-cases (x.ip == y.ip)) [
      | inl same ↦
          let own : x.ip ≡ y.ip = (c.equals_iff x.ip y.ip).0 same in
          rw (same, sym (ap (λ i. i == ip) own) ∙ miss) (rw miss at e)
      | inr other ↦ rw (other, miss) (lookup-put-none y ip xs (rw miss at e))
    ]
  ]

  Distinct-put :
      (y : IpLimiter Ip Limiter) (xs : List (IpLimiter Ip Limiter))
      → Distinct xs
      → Distinct (put y xs)
  unfolding put
  Distinct-put y [] d = tt
  Distinct-put y (x ∷ xs) d = elim (Bool-cases (x.ip == y.ip)) [
    | inl same ↦
        let own : x.ip ≡ y.ip = (c.equals_iff x.ip y.ip).0 same in
        rw same (ap (λ i. lookup i xs) (sym own) ∙ d.0, d.1)
    | inr other ↦ rw other (lookup-put-none y x.ip xs d.0, Distinct-put y xs d.1)
  ]

  pub no_clients-Valid : Valid no_clients
  no_clients-Valid = record { counted = refl; distinct = tt }

  pub sweep-Valid : (now : Time) (s : Limiters Ip Limiter) → Valid s → Valid (sweep_once now s).1
  unfolding sweep_once
  sweep-Valid now s v = record {
    counted = omega (arith, v.counted, length-delete (is_idle now) s.clients);
    distinct = Distinct-delete (is_idle now) s.clients v.distinct;
  }

  module _ (new_limiter : Limiter) (allow : Time → Limiter → Bool × Limiter) where
    pub request-Valid :
        (ip : Ip) (now : Time) (s : Limiters Ip Limiter)
        → Valid s
        → Valid (rate_limiter new_limiter allow ip now s).1
    unfolding rate_limiter
    request-Valid ip now s v = elim (Option-cases (lookup ip s.clients)) [
      | inl unknown ↦
          rw (unknown, rate_limiter)
            (record { counted = omega (arith, v.counted); distinct = (unknown, v.distinct) })
      | inr (x, found) ↦
          let y : IpLimiter Ip Limiter = record x {
            limiter = (allow now x.limiter).1;
            last_seen = now;
          } in
          rw (found, rate_limiter)
            (record {
              counted = v.counted ∙ sym (length-put y s.clients);
              distinct = Distinct-put y s.clients v.distinct;
            })
    ]

    all-Valid :
        (es : List (Event Ip)) (s : Limiters Ip Limiter)
        → Valid s
        → Valid (handle_all new_limiter allow es s)
    unfolding handle_all handle
    all-Valid [] s v = v
    all-Valid (request ip now ∷ es) s v =
        all-Valid es (rate_limiter new_limiter allow ip now s).1 (request-Valid ip now s v)
    all-Valid (sweep now ∷ es) s v = all-Valid es (sweep_once now s).1 (sweep-Valid now s v)

    -- After any requests and sweeps, the gauge is the number of clients in the map.
    pub gauge_counts_clients :
        (es : List (Event Ip))
        → (handle_all new_limiter allow es no_clients).active
          ≡ length (handle_all new_limiter allow es no_clients).clients
    gauge_counts_clients es = (all-Valid es no_clients no_clients-Valid).counted

    -- After any requests and sweeps, a sweep removes a client that is idle for longer than the
    -- threshold, and leaves any other client its bucket and its time.
    pub sweep_spares_active_clients :
        (es : List (Event Ip)) (now : Time) (ip : Ip) (x : IpLimiter Ip Limiter)
        → lookup ip (handle_all new_limiter allow es no_clients).clients ≡ some x
        → lookup ip (sweep_once now (handle_all new_limiter allow es no_clients)).1.clients
          ≡ (if ltb x.last_seen (now - evict_threshold) then none else some x)
    unfolding sweep_once is_idle
    sweep_spares_active_clients es now ip x found =
        lookup-delete (is_idle now) ip (handle_all new_limiter allow es no_clients).clients
          (all-Valid es no_clients no_clients-Valid).distinct found
