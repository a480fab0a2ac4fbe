-- ===== src/Tests/History.antt =====
-- The history theorems at short stories.
use community_waste_collecti.Base.{ℕ, ◌≡◌, refl, ap, inl, inr, List, [], ◌∷◌, some, true, is_some}
use community_waste_collecti.Table.{find, update, affected, select, exists, delete}
use community_waste_collecti.Domain.{
  Uuid, pickup_row, electronic, scheduled, completed, Payment, payment_row, payment_amounts,
}
use community_waste_collecti.Database.{stored_time, Db, Env, query, transaction}
use community_waste_collecti.Database.Integrity.{Inv, Evolves, ◌⟶*◌}
use community_waste_collecti.System.{
  cancel_pickup, complete_pickup, confirm_payment, run, perform, empty_db, start_with,
}
use community_waste_collecti.System.Integrity.{run_keeps_integrity, empty_db-Inv}
use community_waste_collecti.System.History.{
  completed_has_payment, electronic_is_safe, one_payment_per_pickup, one_pending_per_household,
  paid_has_receipt, pickup_lifecycle, final_status_stays, paid_stays,
}
use community_waste_collecti.System.Sessions.{Sessions, alone, beside, nested_turns_keep_integrity}
use community_waste_collecti.Tests.Worlds.{
  quiet, quiet-Rely, s3, canceler, Request, collected, settled, after, after-collected,
  after-settled, collected_pickup, planned_pickup, open_payment, settled_payment, planned_db,
  collected_db, settled_db, planned-Inv, collected-Inv, settled-Inv,
}

run_keeps_integrity_example :
    Inv (run s3 canceler collected quiet (start_with empty_db)).db
    × Evolves empty_db (run s3 canceler collected quiet (start_with empty_db)).db
run_keeps_integrity_example =
    run_keeps_integrity s3 canceler quiet quiet-Rely collected (start_with empty_db) empty_db-Inv

pickup_settled : find 2 (after settled).db.pickups ≡ some collected_pickup
unfolding find
pickup_settled = ap (λ (d : Db). find 2 d.pickups) after-settled

payment_settled : find 3 (after settled).db.payments ≡ some settled_payment
unfolding find
payment_settled = ap (λ (d : Db). find 3 d.payments) after-settled

payment_collected : find 3 (after collected).db.payments ≡ some open_payment
unfolding find
payment_collected = ap (λ (d : Db). find 3 d.payments) after-collected

completed_has_payment_example :
    (j : Uuid) × (q : Payment) × (find j (after settled).db.payments ≡ some q)
    × (q.waste_id ≡ 2)
    × (q.household_id ≡ 1)
    × (q.amount ≡ payment_amounts electronic)
completed_has_payment_example =
    completed_has_payment s3 canceler quiet quiet-Rely settled 2 collected_pickup pickup_settled
      refl

electronic_is_safe_example : collected_pickup.safety_check ≡ true
electronic_is_safe_example =
    electronic_is_safe s3 canceler quiet quiet-Rely settled 2 collected_pickup pickup_settled refl
      (inr refl)

one_payment_per_pickup_example : settled_payment.id ≡ settled_payment.id
one_payment_per_pickup_example =
    one_payment_per_pickup s3 canceler quiet quiet-Rely settled 3 3 settled_payment settled_payment
      payment_settled payment_settled refl

one_pending_per_household_example : open_payment.id ≡ open_payment.id
one_pending_per_household_example =
    one_pending_per_household s3 canceler quiet quiet-Rely collected 3 3 open_payment open_payment
      payment_collected payment_collected refl refl refl

paid_has_receipt_example :
    (is_some settled_payment.proof_file_url ≡ true) × (is_some settled_payment.payment_date ≡ true)
paid_has_receipt_example =
    paid_has_receipt s3 canceler quiet quiet-Rely settled 3 settled_payment payment_settled refl

abbrev completes_it : List Request
completes_it = complete_pickup 2 ∷ []

abbrev cancels_it : List Request
cancels_it = cancel_pickup 2 ∷ []

abbrev confirms_it : List Request
confirms_it = confirm_payment 3 (some (9 ∷ [])) 1 "image/png" ∷ []

pickup_lifecycle_example :
    (planned_pickup.household_id ≡ planned_pickup.household_id)
    × (electronic ≡ electronic)
    × (true ≡ true)
    × (scheduled ⟶* completed)
unfolding run perform community_waste_collecti.Service.Pickups.complete
    community_waste_collecti.Service.Pickups.complete_tx
    community_waste_collecti.Service.Pickups.payment_for
    community_waste_collecti.Repository.Pickups.find_by_id
    community_waste_collecti.Repository.Pickups.update_status_tx
    community_waste_collecti.Repository.Pickups.update_status_sql
    community_waste_collecti.Repository.Pickups.prior
    community_waste_collecti.Repository.Payments.create_with_tx
    community_waste_collecti.Repository.Payments.insert_payment
    community_waste_collecti.Repository.Payments.violates_unique
    community_waste_collecti.Repository.Payments.has_waste
    community_waste_collecti.Repository.Pickups.is_pending_of
    community_waste_collecti.Repository.Payments.references_exist transaction query find update
    affected exists payment_amounts
pickup_lifecycle_example =
    pickup_lifecycle s3 canceler quiet quiet-Rely completes_it (start_with planned_db) 2
      planned_pickup (record planned_pickup { status = completed; updated_at = 101 }) planned-Inv
      refl refl

canceled_stays_canceled : completed ≡ completed
unfolding run perform community_waste_collecti.Service.Pickups.cancel
    community_waste_collecti.Repository.Pickups.cancel_if_cancellable
    community_waste_collecti.Repository.Pickups.cancel_sql
    community_waste_collecti.Repository.Pickups.is_cancellable
    community_waste_collecti.Repository.Pickups.find_by_id query find update affected
canceled_stays_canceled =
    final_status_stays s3 canceler quiet quiet-Rely cancels_it (start_with collected_db) 2
      collected_pickup collected_pickup collected-Inv refl refl (inl refl)

paid_stays_example : settled_payment ≡ settled_payment
unfolding run perform community_waste_collecti.Service.Payments.confirm
    community_waste_collecti.Service.Payments.settle community_waste_collecti.Service.Payments.mark
    community_waste_collecti.Repository.Payments.find_by_id
    community_waste_collecti.Repository.Payments.confirm
    community_waste_collecti.Repository.Payments.confirm_sql stored_time
    community_waste_collecti.Storage.upload community_waste_collecti.Storage.put_object
    community_waste_collecti.Storage.remove community_waste_collecti.Storage.delete_object query
    find update affected select delete
paid_stays_example =
    paid_stays s3 canceler quiet quiet-Rely confirms_it (start_with settled_db) 3 settled_payment
      settled_payment settled-Inv refl refl refl

-- Another session that cancels the pickup before every statement of this one.
abbrev busy : Env
busy n = record (quiet n) { others = λ d. (run s3 canceler cancels_it quiet (start_with d)).db }

busy-Sessions : Sessions ℕ s3 canceler busy
busy-Sessions = beside (λ n. quiet) (λ n. cancels_it) (λ n. alone (λ k d. refl)) (λ n d. refl)

nested_turns_keep_integrity_example :
    Inv ((busy 0).others planned_db) × Evolves planned_db ((busy 0).others planned_db)
nested_turns_keep_integrity_example =
    nested_turns_keep_integrity ℕ s3 canceler busy-Sessions 0 planned_db planned-Inv
