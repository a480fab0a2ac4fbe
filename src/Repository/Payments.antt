-- ===== src/Repository/Payments.antt =====
-- internal/repository/payment.go: the methods on single rows.
pub mod Legality
use community_waste_collecti.Base.{
  ℕ, suc, Bool, true, ◌&&◌, ◌∷◌, none, some, ◌==◌, nat_eq, ltb, not, if◌then◌else◌, is_some,
}
use community_waste_collecti.Table.{find, update, affected, exists}
use community_waste_collecti.Domain.{
  Uuid, Time, Payment, PaymentStatus, paid, payment_status_eq, payment_row, pickup_row,
  household_row, ProofUrl, Error, not_found, conflict, validation, internal_failure,
}
use community_waste_collecti.Database.{
  stored_time, Db, done, failed_with, DbError, foreign_key_violation, unique_violation,
  check_violation, other_failure, Statement, Action, Body, exec, exec_tx, or_err, select_from,
}
use community_waste_collecti.Repository.Pickups.{is_pending_of, one_row, some_row}

unfoldable pub map_payment_create_err : DbError → Error
map_payment_create_err foreign_key_violation = not_found
map_payment_create_err unique_violation = conflict
map_payment_create_err check_violation = validation
map_payment_create_err other_failure = internal_failure

unfoldable pub has_waste : Uuid → Payment → Bool
has_waste waste_id q = q.waste_id == waste_id

-- UNIQUE (waste_id), and uq_payments_one_pending_per_household
unfoldable pub violates_unique : Payment → Db → Bool
unfolding has_waste
violates_unique q d =
    if exists (has_waste q.waste_id) d.payments
    then true
    else q.status == PaymentStatus.pending && exists (is_pending_of q.household_id) d.payments

-- REFERENCES households(id), REFERENCES waste_pickups(id)
unfoldable pub references_exist : Payment → Db → Bool
references_exist q d =
    is_some (find q.household_id d.households) && is_some (find q.waste_id d.pickups)

-- INSERT INTO payments (household_id, waste_id, amount, status) … RETURNING *
unfoldable pub insert_payment : Payment → Statement Payment
insert_payment q now d =
    let row : Payment = record q {
      id = d.next_id;
      payment_date = none;
      proof_file_url = none;
      created_at = now;
      updated_at = now;
    } in
    if not (ltb 0 q.amount)
    then (failed_with check_violation, d)
    else if violates_unique q d
    then (failed_with unique_violation, d)
    else if references_exist q d
    then (done row, record d { payments = row ∷ d.payments; next_id = suc d.next_id })
    else (failed_with foreign_key_violation, d)

unfoldable pub create : Payment → Action Payment
unfolding map_payment_create_err
create q = exec (or_err map_payment_create_err) (insert_payment q)

unfoldable pub create_with_tx : Payment → Body Payment
unfolding map_payment_create_err
create_with_tx q = exec_tx (or_err map_payment_create_err) (insert_payment q)

unfoldable pub find_by_id : Uuid → Action Payment
find_by_id id = exec one_row (select_from (λ d. find id d.payments))

-- UPDATE payments SET status='paid', … WHERE id=$1 AND status='pending'
unfoldable pub confirm_sql : Uuid → ProofUrl → Time → Statement ℕ
confirm_sql id url paid_at now d =
    let test : Payment → Bool = λ q. q.id == id && q.status == PaymentStatus.pending in
    (
      done (affected test d.payments),
      record d {
        payments =
            update test
              (λ q. record q {
                status = paid;
                proof_file_url = some url;
                payment_date = some (stored_time paid_at);
                updated_at = now;
              })
              d.payments;
      },
    )

unfoldable pub confirm : Uuid → ProofUrl → Time → Action (Unit {0})
confirm id url paid_at = exec some_row (confirm_sql id url paid_at)
