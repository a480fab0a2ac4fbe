-- ===== src/Service/Payments/Proofs.antt =====
-- Confirm of internal/service/payment.go as its caller sees it, and the bucket after it.
use community_waste_collecti.Base.{
  ℕ, String, ◌≡◌, refl, ◌∙◌, ap, inl, inr, List, some, ◌==◌, nat_eq, Bool-cases,
}
use community_waste_collecti.Table.{find}
use community_waste_collecti.Domain.{
  Uuid, Time, Payment, payment_row, PaymentStatus, paid, payment_status_eq, Error, ok, err,
  Result-cases,
}
use community_waste_collecti.Database.{stored_time, Env, World, delivered, ◌>>=◌, query}
use community_waste_collecti.Database.Integrity.{Inv, Rely}
use community_waste_collecti.Storage.{S3Client}
use community_waste_collecti.Storage.Laws.{stored_object, IsFresh, proof_object, proof_url}
use community_waste_collecti.Repository.Payments
use community_waste_collecti.Repository.Payments.{confirm_sql}
use community_waste_collecti.Service.Payments.{confirm}
use community_waste_collecti.Service.Payments.Legality.{find-Legal}
use community_waste_collecti.Service.Payments.Confirmation.{key_at, settle_ok, settle_fails}

-- The world after `Confirm` has read the payment.
abbrev pub after_read : Uuid → Env → World → World
after_read id env w = (Payments.find_by_id id env w).1

module _ (s3 : S3Client) (id : Uuid) (body : List ℕ) (size : ℕ) (content_type : String)
    (env : Env) where
  -- BR-06: where `Confirm` returns a payment without an error, its row is paid, with the URL of the
  -- uploaded file and the date that it returns, in whole microseconds, and the bucket has the file
  -- under that URL's key.
  pub confirm_ok :
      (rely : Rely env) (w : World) (p : Payment)
      → Inv w.db
      → (confirm s3 id (some body) size content_type env w).0 ≡ ok p
      → ((r : Payment) × (find id (confirm s3 id (some body) size content_type env w).1.db.payments
            ≡ some r)
          × (r.status ≡ paid)
          × (r.proof_file_url ≡ some (proof_url s3 (key_at id env (after_read id env w))))
          × ((t : Time) × (p.payment_date ≡ some t) × (r.payment_date ≡ some (stored_time t))))
        × (p.status ≡ paid)
        × (p.proof_file_url ≡ some (proof_url s3 (key_at id env (after_read id env w))))
        × (stored_object
              (key_at id env (after_read id env w))
              (confirm s3 id (some body) size content_type env w).1.bucket
            ≡ some (proof_object (key_at id env (after_read id env w)) body size content_type))
  unfolding confirm
  confirm_ok rely w p v = elim (Result-cases (Payments.find_by_id id env w).0) [
    | inr (x, e) ↦ rw (e, ◌>>=◌) (λ k. absurd (cc k))
    | inl (q, e) ↦
        rw (e, ◌>>=◌)
          (elim (Bool-cases (q.status == PaymentStatus.pending)) [
            | inr b ↦ rw b (λ k. absurd (cc k))
            | inl b ↦ rw b (
                settle_ok s3 q id body size content_type env (after_read id env w) rely p
                  (find-Legal env rely id w v).0)
          ])
  ]

  read-bucket : (w : World) → (after_read id env w).bucket ≡ w.bucket
  unfolding Payments.find_by_id query
  read-bucket w = refl

  -- On a connection that works, a `Confirm` that fails leaves the bucket as it was, where no object
  -- has the key that it would use.
  pub failed_confirm_cleans :
      (w : World) (x : Error)
      → ((n : ℕ) → (env n).reply ≡ delivered)
      → IsFresh (key_at id env (after_read id env w)) w.bucket
      → (confirm s3 id (some body) size content_type env w).0 ≡ err x
      → (confirm s3 id (some body) size content_type env w).1.bucket ≡ w.bucket
  unfolding confirm
  failed_confirm_cleans w x works fresh = elim (Result-cases (Payments.find_by_id id env w).0) [
    | inr (y, e) ↦ rw (e, ◌>>=◌) (λ k. read-bucket w)
    | inl (q, e) ↦
        rw (e, ◌>>=◌)
          (elim (Bool-cases (q.status == PaymentStatus.pending)) [
            | inr b ↦ rw b (λ k. read-bucket w)
            | inl b ↦ rw b (λ k.
                settle_fails s3 q id body size content_type env (after_read id env w) x works
                  (ap (stored_object (key_at id env (after_read id env w))) (read-bucket w) ∙ fresh)
                  k
                ∙ read-bucket w)
          ])
  ]
