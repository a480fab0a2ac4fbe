-- ===== src/Tests/Payments.antt =====
-- The theorems on internal/service/payment.go at concrete tables.
use community_waste_collecti.Base.{
  ℕ, ◌+◌, ◌≡◌, refl, List, [], ◌∷◌, some, none, ◌==◌, nat_eq, if◌then◌else◌,
}
use community_waste_collecti.Table.{find, update, affected, select, exists, delete}
use community_waste_collecti.Domain.{
  Time, pickup_row, Payment, payment_row, paid, payment_amounts, CreatePaymentRequest, err,
  conflict, internal_failure, ProofKey,
}
use community_waste_collecti.Database.{stored_time, Env, query, delivered, lost}
use community_waste_collecti.System.{start_with}
use community_waste_collecti.Storage.Laws.{stored_object, proof_object, proof_url}
use community_waste_collecti.Service.Payments.{create, confirm, settle}
use community_waste_collecti.Service.Payments.Creation.{payment_create_ok, Created}
use community_waste_collecti.Service.Payments.Confirmation.{lost_reply_loses_proof}
use community_waste_collecti.Service.Payments.Proofs.{confirm_ok, failed_confirm_cleans}
use community_waste_collecti.Tests.Worlds.{
  quiet, quiet-Rely, s3, open_payment, planned_db, collected_db, settled_db, planned-Inv,
  collected-Inv,
}

abbrev in_advance : CreatePaymentRequest ℕ
in_advance = record { household_id = 1; waste_id = 2; amount = 5 }

payment_create_ok_example :
    Created in_advance planned_db planned_db
      (create in_advance quiet (start_with planned_db)).1.db
      (record open_payment { created_at = 101; updated_at = 101 })
unfolding community_waste_collecti.Service.Payments.create
    community_waste_collecti.Service.Payments.new_payment
    community_waste_collecti.Repository.Pickups.find_by_id
    community_waste_collecti.Repository.Payments.create
    community_waste_collecti.Repository.Payments.insert_payment
    community_waste_collecti.Repository.Payments.violates_unique
    community_waste_collecti.Repository.Payments.has_waste
    community_waste_collecti.Repository.Pickups.is_pending_of
    community_waste_collecti.Repository.Payments.references_exist payment_amounts query find exists
    affected
payment_create_ok_example =
    payment_create_ok quiet quiet-Rely in_advance (start_with planned_db)
      (record open_payment { created_at = 101; updated_at = 101 }) planned-Inv refl

-- the key of a proof uploaded by the first `Confirm` of a session
abbrev first_key : ProofKey
first_key = record { payment = 3; nonce = 7001 }

abbrev photo : List ℕ
photo = 137 ∷ 80 ∷ []

confirm_ok_example :
    ((r : Payment) × (find 3
          (confirm s3 3 (some photo) 2 "image/png" quiet (start_with collected_db)).1.db.payments
        ≡ some r)
      × (r.status ≡ paid)
      × (r.proof_file_url ≡ some (proof_url s3 first_key))
      × ((t : Time) × (some 103 ≡ some t) × (r.payment_date ≡ some (stored_time t))))
    × (paid ≡ paid)
    × (some (proof_url s3 first_key) ≡ some (proof_url s3 first_key))
    × (stored_object first_key
          (confirm s3 3 (some photo) 2 "image/png" quiet (start_with collected_db)).1.bucket
        ≡ some (proof_object first_key photo 2 "image/png"))
unfolding community_waste_collecti.Service.Payments.confirm
    community_waste_collecti.Service.Payments.settle community_waste_collecti.Service.Payments.mark
    community_waste_collecti.Repository.Payments.find_by_id
    community_waste_collecti.Repository.Payments.confirm
    community_waste_collecti.Repository.Payments.confirm_sql stored_time
    community_waste_collecti.Storage.upload community_waste_collecti.Storage.put_object
    community_waste_collecti.Storage.remove community_waste_collecti.Storage.delete_object query
    find update affected select delete
confirm_ok_example =
    confirm_ok s3 3 photo 2 "image/png" quiet quiet-Rely (start_with collected_db)
      (record open_payment {
        payment_date = some 103;
        status = paid;
        proof_file_url = some (proof_url s3 first_key);
      })
      collected-Inv refl

-- Another session confirms the payment just before the UPDATE.
abbrev overtaken : Env
overtaken n = record {
  others = λ d. if n == 4 then settled_db else d;
  reply = delivered;
  now = 100 + n;
  nonce = 7000 + n;
  scan = [];
}

failed_confirm_cleans_example :
    (confirm s3 3 (some photo) 2 "image/png" overtaken (start_with collected_db)).1.bucket ≡ []
unfolding stored_object community_waste_collecti.Service.Payments.confirm
    community_waste_collecti.Service.Payments.settle community_waste_collecti.Service.Payments.mark
    community_waste_collecti.Repository.Payments.find_by_id
    community_waste_collecti.Repository.Payments.confirm
    community_waste_collecti.Repository.Payments.confirm_sql stored_time
    community_waste_collecti.Storage.upload community_waste_collecti.Storage.put_object
    community_waste_collecti.Storage.remove community_waste_collecti.Storage.delete_object query
    find update affected select delete
failed_confirm_cleans_example =
    failed_confirm_cleans s3 3 photo 2 "image/png" overtaken (start_with collected_db) conflict
      (λ n. refl) refl refl

-- The reply of the fourth call is lost.
abbrev broken : Env
broken n = record (quiet n) { reply = if n == 3 then lost else delivered }

abbrev zero_key : ProofKey
zero_key = record { payment = 3; nonce = 7000 }

lost_reply_loses_proof_example :
    ((settle s3 open_payment 3 photo 2 "image/png" broken (start_with collected_db)).0
      ≡ err internal_failure)
    × ((p : Payment) × (find 3
            (settle s3 open_payment 3 photo 2 "image/png" broken
              (start_with collected_db)).1.db.payments
          ≡ some p)
        × (p.status ≡ paid)
        × (p.proof_file_url ≡ some (proof_url s3 zero_key)))
    × (stored_object zero_key
          (settle s3 open_payment 3 photo 2 "image/png" broken (start_with collected_db)).1.bucket
        ≡ none)
unfolding find
lost_reply_loses_proof_example =
    lost_reply_loses_proof s3 open_payment 3 photo 2 "image/png" broken (start_with collected_db)
      open_payment refl refl refl refl refl
