-- ===== src/Service/Payments/Marking.antt =====
-- The UPDATE of Confirm of internal/repository/payment.go: the row that it leaves, with or without
-- its reply.
use community_waste_collecti.Base.{suc, ◌≡◌, refl, ◌∙◌, ap, some, arith, ◌==◌, nat_eq}
use community_waste_collecti.Table.{find}
use community_waste_collecti.Table.Laws.{affected-some}
use community_waste_collecti.Table.Found.{updated_hit}
use community_waste_collecti.Domain.{
  Uuid, Time, Payment, payment_row, PaymentStatus, paid, payment_status_eq, ProofUrl,
  internal_failure, ok, err,
}
use community_waste_collecti.Database.{stored_time, Db, Env, World, lost, query}
use community_waste_collecti.Database.Integrity.{Inv}
use community_waste_collecti.Database.Calls.{seen, query-done}
use community_waste_collecti.Repository.Payments
use community_waste_collecti.Repository.Payments.{confirm_sql}
use community_waste_collecti.Service.Pickups.Outcomes.{some_row-ok}

-- The UPDATE on a world: its row, and what it leaves alone.
pub confirm_row :
    (id : Uuid) (url : ProofUrl) (paid_at : Time) (env : Env) (w : World)
    → Inv (seen env w)
    → (Payments.confirm id url paid_at env w).0 ≡ ok tt
    → (q : Payment) × (find id (Payments.confirm id url paid_at env w).1.db.payments ≡ some q)
      × (q.status ≡ paid)
      × (q.proof_file_url ≡ some url)
      × (q.payment_date ≡ some (stored_time paid_at))
unfolding Payments.confirm confirm_sql
confirm_row id url paid_at env w v e =
    let (n, answered, positive) = some_row-ok (query (confirm_sql id url paid_at) env w).0 tt e in
    let (counted, wrote) = query-done (confirm_sql id url paid_at) env w n answered in
    let (p, found, was) =
      affected-some (λ x. x.status == PaymentStatus.pending) id (seen env w).next_id
        (seen env w).payments v.payment_keys (ground (arith, counted, positive)) in
    (
      _,
      ap (λ (d : Db). find id d.payments) wrote
          ∙ updated_hit (λ x. x.status == PaymentStatus.pending)
              (λ x. record x {
                status = paid;
                proof_file_url = some url;
                payment_date = some (stored_time paid_at);
                updated_at = (env w.calls).now;
              })
              id (seen env w).payments (λ x. refl) found was,
      refl,
      refl,
      refl,
    )

-- The UPDATE whose reply is lost.
pub confirm-lost :
    (id : Uuid) (url : ProofUrl) (paid_at : Time) (env : Env) (w : World)
    → (env w.calls).reply ≡ lost
    → ((Payments.confirm id url paid_at env w).0 ≡ err internal_failure)
      × ((Payments.confirm id url paid_at env w).1.db
          ≡ (confirm_sql id url paid_at (env w.calls).now (seen env w)).1)
      × ((Payments.confirm id url paid_at env w).1.calls ≡ suc w.calls)
unfolding Payments.confirm query
confirm-lost id url paid_at env w e = (rw e refl, rw e refl, refl)

pub lost_row :
    (id : Uuid) (url : ProofUrl) (paid_at now : Time) (d : Db) (r : Payment)
    → find id d.payments ≡ some r
    → r.status ≡ PaymentStatus.pending
    → (p : Payment) × (find id (confirm_sql id url paid_at now d).1.payments ≡ some p)
      × (p.status ≡ paid)
      × (p.proof_file_url ≡ some url)
unfolding confirm_sql
lost_row id url paid_at now d r found waiting = (
  _,
  updated_hit (λ x. x.status == PaymentStatus.pending)
      (λ x. record x {
        status = paid;
        proof_file_url = some url;
        payment_date = some (stored_time paid_at);
        updated_at = now;
      })
      id d.payments (λ x. refl) found ((payment_status_eq.equals_iff _ _).1 waiting),
  refl,
  refl,
)

pub confirm-bucket :
    (id : Uuid) (url : ProofUrl) (paid_at : Time) (env : Env) (w : World)
    → (Payments.confirm id url paid_at env w).1.bucket ≡ w.bucket
unfolding Payments.confirm query
confirm-bucket id url paid_at env w = refl
