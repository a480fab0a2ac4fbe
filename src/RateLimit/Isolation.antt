-- ===== src/RateLimit/Isolation.antt =====
-- Clients of internal/middleware/ratelimit.go do not touch each other.
use community_waste_collecti.Base.{
  ◌≡◌, refl, sym, ◌∙◌, ap, subst, Bool, List, [], ◌∷◌, Option, none, some, Comparable, ◌==◌,
  if◌then◌else◌, Bool-cases, Option-cases, inl, inr, false,
}
use community_waste_collecti.Domain.{Time}
use community_waste_collecti.RateLimit.{
  IpLimiter, Limiters, Event, request, sweep, lookup, put, is_idle, sweep_once, rate_limiter,
  handle, handle_all, no_clients,
}
use community_waste_collecti.RateLimit.Clients.{
  Valid, request-Valid, sweep-Valid, no_clients-Valid, lookup-delete, lookup-delete-none,
}

-- What one client and the sweeper do, of the events of all
abbrev pub own : {Ip : Type 0} ⦃c : Comparable Ip⦄ → Ip → List (Event Ip) → List (Event Ip)
own ip [] = []
own ip (request j now ∷ es) = let rest = own ip es in if j == ip then request j now ∷ rest else rest
own ip (sweep now ∷ es) = sweep now ∷ own ip es

module _ {Ip Limiter : Type 0} ⦃c : Comparable Ip⦄ where
  -- The entry that is found for a client is its own.
  lookup-own :
      (ip : Ip) (xs : List (IpLimiter Ip Limiter)) {x : IpLimiter Ip Limiter}
      → lookup ip xs ≡ some x
      → x.ip ≡ ip
  unfolding lookup
  lookup-own ip [] e = absurd (cc e)
  lookup-own ip (y ∷ ys) {x} e = elim (Bool-cases (y.ip == ip)) [
    | inl hit ↦
        let it : y ≡ x = cc (rw hit at e) in
        ap (λ (z : IpLimiter Ip Limiter). z.ip) (sym it) ∙ (c.equals_iff y.ip ip).0 hit
    | inr miss ↦ lookup-own ip ys (rw miss at e)
  ]

  lookup-put_self :
      (y : IpLimiter Ip Limiter) (xs : List (IpLimiter Ip Limiter)) {x : IpLimiter Ip Limiter}
      → lookup y.ip xs ≡ some x
      → lookup y.ip (put y xs) ≡ some y
  unfolding lookup put
  lookup-put_self y [] e = absurd (cc e)
  lookup-put_self y (z ∷ zs) e = elim (Bool-cases (z.ip == y.ip)) [
    | inl hit ↦ rw (hit, (c.equals_iff y.ip y.ip).1 refl) refl
    | inr miss ↦ rw (miss, miss) (lookup-put_self y zs (rw miss at e))
  ]

  lookup-put_ne :
      (y : IpLimiter Ip Limiter) (ip : Ip) (xs : List (IpLimiter Ip Limiter))
      → (y.ip == ip) ≡ false
      → lookup ip (put y xs) ≡ lookup ip xs
  unfolding lookup put
  lookup-put_ne y ip [] e = refl
  lookup-put_ne y ip (z ∷ zs) e = elim (Bool-cases (z.ip == y.ip)) [
    | inl hit ↦
        let same : z.ip ≡ y.ip = (c.equals_iff z.ip y.ip).0 hit in
        rw (hit, e, ap (λ i. i == ip) same ∙ e) refl
    | inr miss ↦ elim (Bool-cases (z.ip == ip)) [
      | inl own ↦ rw (miss, own) refl
      | inr other ↦ rw (miss, other) (lookup-put_ne y ip zs e)
    ]
  ]

  -- An entry after a sweep
  abbrev swept : Time → Option (IpLimiter Ip Limiter) → Option (IpLimiter Ip Limiter)
  swept now none = none
  swept now (some x) = if is_idle now x then none else some x

  lookup-sweep :
      (ip : Ip) (now : Time) (s : Limiters Ip Limiter)
      → Valid s
      → lookup ip (sweep_once now s).1.clients ≡ swept now (lookup ip s.clients)
  unfolding sweep_once
  lookup-sweep ip now s v = elim (Option-cases (lookup ip s.clients)) [
    | inl unknown ↦ rw unknown (lookup-delete-none (is_idle now) ip s.clients unknown)
    | inr (x, found) ↦ rw found (lookup-delete (is_idle now) ip s.clients v.distinct found)
  ]

  module _ (new_limiter : Limiter) (allow : Time → Limiter → Bool × Limiter) where
    abbrev bucket : Option (IpLimiter Ip Limiter) → Limiter
    bucket none = new_limiter
    bucket (some x) = x.limiter

    verdict :
        (ip : Ip) (now : Time) (s : Limiters Ip Limiter)
        → (rate_limiter new_limiter allow ip now s).0 ≡ (allow now (bucket (lookup ip s.clients))).0
    unfolding rate_limiter
    verdict ip now s = elim (Option-cases (lookup ip s.clients)) [
      | inl unknown ↦ rw (unknown, rate_limiter) refl
      | inr (x, found) ↦ rw (found, rate_limiter) refl
    ]

    -- The entry of a client after its own request
    lookup-request_self :
        (ip : Ip) (now : Time) (s : Limiters Ip Limiter)
        → lookup ip (rate_limiter new_limiter allow ip now s).1.clients
          ≡ some (record {
            ip = ip;
            limiter = (allow now (bucket (lookup ip s.clients))).1;
            last_seen = now;
          })
    unfolding rate_limiter lookup
    lookup-request_self ip now s = elim (Option-cases (lookup ip s.clients)) [
      | inl unknown ↦ rw (unknown, rate_limiter, (c.equals_iff ip ip).1 refl) refl
      | inr (x, found) ↦
          let mine : x.ip ≡ ip = lookup-own ip s.clients found in
          let y : IpLimiter Ip Limiter = record x {
            limiter = (allow now x.limiter).1;
            last_seen = now;
          } in
          rw (found, rate_limiter)
            (ap (λ i. lookup i (put y s.clients)) (sym mine)
              ∙ lookup-put_self y s.clients (ap (λ i. lookup i s.clients) mine ∙ found)
              ∙ ap (λ i. some (record y { ip = i })) mine)
    ]

    lookup-request_ne :
        (ip j : Ip) (now : Time) (s : Limiters Ip Limiter)
        → (j == ip) ≡ false
        → lookup ip (rate_limiter new_limiter allow j now s).1.clients ≡ lookup ip s.clients
    unfolding rate_limiter lookup
    lookup-request_ne ip j now s e = elim (Option-cases (lookup j s.clients)) [
      | inl unknown ↦ rw (unknown, rate_limiter, e) refl
      | inr (x, found) ↦
          let theirs : x.ip ≡ j = lookup-own j s.clients found in
          rw (found, rate_limiter)
            (lookup-put_ne (record x { limiter = (allow now x.limiter).1; last_seen = now }) ip
              s.clients (ap (λ i. i == ip) theirs ∙ e))
    ]

    abbrev after : List (Event Ip) → Limiters Ip Limiter → Limiters Ip Limiter
    after = handle_all new_limiter allow

    alike :
        (ip : Ip) (es : List (Event Ip)) (s t : Limiters Ip Limiter)
        → Valid s
        → Valid t
        → lookup ip s.clients ≡ lookup ip t.clients
        → lookup ip (after es s).clients ≡ lookup ip (after (own ip es) t).clients
    unfolding handle_all handle
    alike ip [] s t vs vt e = e
    alike ip (sweep now ∷ es) s t vs vt e =
        alike ip es (sweep_once now s).1 (sweep_once now t).1 (sweep-Valid now s vs)
          (sweep-Valid now t vt)
          (lookup-sweep ip now s vs ∙ ap (swept now) e ∙ sym (lookup-sweep ip now t vt))
    alike ip (request j now ∷ es) s t vs vt e = elim (Bool-cases (j == ip)) [
      | inr other ↦ rw other (
          alike ip es (rate_limiter new_limiter allow j now s).1 t
            (request-Valid new_limiter allow j now s vs) vt
            (lookup-request_ne ip j now s other ∙ e))
      | inl hit ↦
          let same : j ≡ ip = (c.equals_iff j ip).0 hit in
          let before = subst (λ i. lookup i s.clients ≡ lookup i t.clients) (sym same) e in
          rw hit (
            alike ip es (rate_limiter new_limiter allow j now s).1
              (rate_limiter new_limiter allow j now t).1
              (request-Valid new_limiter allow j now s vs)
              (request-Valid new_limiter allow j now t vt)
              (subst
                (λ i.
                  lookup i (rate_limiter new_limiter allow j now s).1.clients
                  ≡ lookup i (rate_limiter new_limiter allow j now t).1.clients)
                same
                (lookup-request_self j now s
                  ∙ ap
                      (λ o.
                        some
                          (record { ip = j; limiter = (allow now (bucket o)).1; last_seen = now }))
                      before
                  ∙ sym (lookup-request_self j now t))))
    ]

    -- After any requests and sweeps, what the limiter says to a client, and what it keeps of it, is
    -- what it would be had no other client sent anything.
    pub clients_are_independent :
        (ip : Ip) (es : List (Event Ip)) (now : Time)
        → ((rate_limiter new_limiter allow ip now (after es no_clients)).0
            ≡ (rate_limiter new_limiter allow ip now (after (own ip es) no_clients)).0)
          × (lookup ip (after es no_clients).clients
              ≡ lookup ip (after (own ip es) no_clients).clients)
    clients_are_independent ip es now =
        let same = alike ip es no_clients no_clients no_clients-Valid no_clients-Valid refl in
        (
          verdict ip now (after es no_clients)
              ∙ ap (λ o. (allow now (bucket o)).0) same
              ∙ sym (verdict ip now (after (own ip es) no_clients)),
          same,
        )
