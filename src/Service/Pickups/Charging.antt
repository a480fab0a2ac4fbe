-- ===== src/Service/Pickups/Charging.antt =====
-- The tables that the transaction of `Complete` of internal/service/pickup.go leaves, and its read.
use community_waste_collecti.Base.{◌≡◌, refl, ap, inl, inr, some, arith, ◌==◌, nat_eq}
use community_waste_collecti.Table.{find}
use community_waste_collecti.Table.Laws.{affected-some}
use community_waste_collecti.Table.Found.{updated_hit, find-head}
use community_waste_collecti.Domain.{
  Uuid, Time, Payment, payment_row, WastePickup, pickup_row, pickup_status_eq, scheduled, completed,
  ok,
}
use community_waste_collecti.Database.{Db, Env, World, query}
use community_waste_collecti.Database.Integrity.{Inv}
use community_waste_collecti.Database.Calls.{seen}
use community_waste_collecti.Repository.Pickups
use community_waste_collecti.Repository.Pickups.{update_status_sql, prior, some_row}
use community_waste_collecti.Service.Pickups.{complete_tx}
use community_waste_collecti.Service.Pickups.{payment_for}
use community_waste_collecti.Repository.Payments.Legality.{stored}
use community_waste_collecti.Database.Integrity.Payments.{inserted}
use community_waste_collecti.Service.Pickups.Completion.{marked, complete_tx-cases}
use community_waste_collecti.Service.Pickups.Outcomes.{some_row-ok}

-- The row of the payment that the transaction adds.
abbrev pub charged : Uuid → WastePickup → Time → Db → Payment
charged id o now d = stored (payment_for o) now (marked id now d)

-- The tables after both statements of the transaction.
abbrev pub settled_tables : Uuid → WastePickup → Time → Db → Db
settled_tables id o now d = inserted (charged id o now d) (marked id now d)

module _ (id : Uuid) (o : WastePickup) (now : Time) (d : Db) where
  -- A body without an error took both its statements.
  pub body_ok :
      (r : Payment)
      → (complete_tx id o now d).0 ≡ ok r
      → (some_row (update_status_sql id completed now d).0 ≡ ok tt)
        × ((complete_tx id o now d).1 ≡ settled_tables id o now d)
  body_ok r e = elim (complete_tx-cases id o now d) [
    | inl (x, f) ↦ absurd (cc (e, f))
    | inr (u, free, refs, f) ↦ (u, ap (λ s. s.1) f)
  ]

  pub completed_row :
      Inv d
      → some_row (update_status_sql id completed now d).0 ≡ ok tt
      → (q : WastePickup) × (find id (settled_tables id o now d).pickups ≡ some q)
        × (q.status ≡ completed)
  unfolding update_status_sql prior
  completed_row v e =
      let (n, counted, positive) = some_row-ok (update_status_sql id completed now d).0 tt e in
      let (p, found, was) =
        affected-some (λ x. x.status == scheduled) id d.next_id d.pickups v.pickup_keys
          (ground (arith, counted, positive)) in
      (
        _,
        updated_hit (λ x. x.status == scheduled)
            (λ x. record x { status = completed; updated_at = now }) id d.pickups (λ x. refl) found
            was,
        refl,
      )

  pub charged_row : find d.next_id (settled_tables id o now d).payments ≡ some (charged id o now d)
  unfolding update_status_sql
  charged_row = find-head (charged id o now d) d.payments

pub read_only :
    (id : Uuid) (env : Env) (w : World) → (Pickups.find_by_id id env w).1.db ≡ seen env w
unfolding Pickups.find_by_id query
read_only id env w = ground arith

pub read_row :
    (id : Uuid) (env : Env) (w : World) (o : WastePickup)
    → (Pickups.find_by_id id env w).0 ≡ ok o
    → find id (seen env w).pickups ≡ some o
unfolding Pickups.find_by_id query
read_row id env w o e = ground arith
