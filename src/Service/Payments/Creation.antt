-- ===== src/Service/Payments/Creation.antt =====
-- Create of internal/service/payment.go: the row that it adds.
use community_waste_collecti.Base.{
  ℕ, ◌≡◌, refl, sym, ◌∙◌, ap, subst, inl, inr, none, some, arith, ◌==◌, nat_eq, Bool-cases,
}
use community_waste_collecti.Table.{find}
use community_waste_collecti.Table.Laws.{find_above}
use community_waste_collecti.Table.Found.{find-head}
use community_waste_collecti.Domain.{
  WastePickup, pickup_row, Payment, payment_row, PaymentStatus, payment_amounts,
  CreatePaymentRequest, ok, Result-cases,
}
use community_waste_collecti.Database.{Db, Env, World, ◌>>=◌, query}
use community_waste_collecti.Database.Integrity.{Inv, Rely}
use community_waste_collecti.Database.Calls.{seen, query-done, or_err-ok}
use community_waste_collecti.Repository.Pickups
use community_waste_collecti.Repository.Payments
use community_waste_collecti.Repository.Payments.{insert_payment}
use community_waste_collecti.Repository.Payments.Legality.{stored, insert_payment-cases}
use community_waste_collecti.Service.Pickups.Charging.{read_row}
use community_waste_collecti.Service.Pickups.Legality.{find_by_id-Legal}
use community_waste_collecti.Service.Payments.{create, new_payment}

-- The row of an INSERT whose reply arrived.
created_row :
    (q : Payment) (env : Env) (w : World) (r : Payment)
    → q.status ≡ PaymentStatus.pending
    → (Payments.create q env w).0 ≡ ok r
    → (r ≡ stored q (env w.calls).now (seen env w))
      × (find (seen env w).next_id (Payments.create q env w).1.db.payments ≡ some r)
unfolding Payments.create
created_row q env w r new e =
    let answered =
      or_err-ok Payments.map_payment_create_err (query (insert_payment q) env w).0 r e in
    let (passed, wrote) = query-done (insert_payment q) env w r answered in
    elim (insert_payment-cases q (env w.calls).now (seen env w) new) [
      | inl (x, f) ↦ absurd (cc (passed, f))
      | inr (free, known, f) ↦
          let it : r ≡ stored q (env w.calls).now (seen env w) = cc (passed, f) in
          (
            it,
            ap (λ (d : Db). find (seen env w).next_id d.payments) (wrote ∙ ap (λ s. s.1) f)
                ∙ find-head (stored q (env w.calls).now (seen env w)) (seen env w).payments
                ∙ ap some (sym it),
          )
    ]

-- What a payment that was created is: a new row, for a pickup of the household that asks.
abbrev pub Created :
    {Decimal : Type 0} → CreatePaymentRequest Decimal → Db → Db → Db → Payment → Type 0
Created req before read after q =
    (find q.id after.payments ≡ some q)
    × (find q.id before.payments ≡ none)
    × (q.status ≡ PaymentStatus.pending)
    × (q.household_id ≡ req.household_id)
    × (q.waste_id ≡ req.waste_id)
    × ((p : WastePickup) × (find req.waste_id read.pickups ≡ some p)
        × (p.household_id ≡ req.household_id)
        × (q.amount ≡ payment_amounts p.type))

module _ (env : Env) (rely : Rely env) where
  -- Where `Create` returns a payment without an error, the tables have it under a new key, pending,
  -- for the pickup of the request. When the pickup was read it was of the requesting household, and
  -- the amount is that for its type, not the one of the request.
  pub payment_create_ok :
      {Decimal : Type 0} (req : CreatePaymentRequest Decimal) (w : World) (q : Payment)
      → Inv w.db
      → (create req env w).0 ≡ ok q
      → Created req w.db (seen env w) (create req env w).1.db q
  unfolding create
  payment_create_ok req w q v = elim (Result-cases (Pickups.find_by_id req.waste_id env w).0) [
    | inr (x, e) ↦ rw (e, ◌>>=◌) (λ k. absurd (cc k))
    | inl (p, e) ↦
        rw (e, ◌>>=◌)
          (elim (Bool-cases (p.household_id == req.household_id)) [
            | inr b ↦ rw b (λ k. absurd (cc k))
            | inl b ↦
                let n = new_payment req.household_id req.waste_id (payment_amounts p.type) in
                let u : World = (Pickups.find_by_id req.waste_id env w).1 in
                rw b (elim (Result-cases (Payments.create n env u).0) [
                  | inr (x, f) ↦ rw (f, ◌>>=◌) (λ k. absurd (cc k))
                  | inl (r, f) ↦
                      rw (f, ◌>>=◌)
                        (λ k.
                          let (it, at_r) = created_row n env u r (unfold new_payment in refl) f in
                          let (v', ev) = find_by_id-Legal env rely req.waste_id w v in
                          let key : r.id ≡ (seen env u).next_id = ap (λ x. x.id) it in
                          subst (Created req w.db (seen env w) (Payments.create n env u).1.db)
                            (cc k)
                            (unfold new_payment in
                              (
                                ap (λ (i : ℕ). find i (Payments.create n env u).1.db.payments) key
                                    ∙ at_r,
                                find_above r.id w.db.next_id w.db.payments v.payment_keys (
                                    omega (arith, key, ev.supply, (rely u.calls u.db v').1.supply)),
                                ap (λ x. x.status) it,
                                ap (λ x. x.household_id) it,
                                ap (λ x. x.waste_id) it,
                                (
                                  p,
                                  read_row req.waste_id env w p e,
                                  (nat_eq.equals_iff _ _).0 b,
                                  ap (λ x. x.amount) it,
                                ),
                              )))
                ])
          ])
  ]
