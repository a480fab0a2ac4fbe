-- ===== src/Service/Payments/Confirmation.antt =====
-- Confirm of internal/service/payment.go: the row and the object that it leaves (BR-06).
use community_waste_collecti.Base.{
  ℕ, suc, String, ◌≡◌, sym, ◌∙◌, ap, subst, inl, inr, List, ◌∷◌, none, some, nat_eq,
}
use community_waste_collecti.Table.{find}
use community_waste_collecti.Domain.{
  Uuid, Time, Payment, payment_row, PaymentStatus, paid, payment_status_eq, ProofKey,
  internal_failure, Error, Result, ok, err, Result-cases,
}
use community_waste_collecti.Database.{
  stored_time, Db, Env, World, Action, delivered, lost, ◌>>=◌, s3_upload_bytes_total,
  payments_confirmed_total,
}
use community_waste_collecti.Database.Integrity.{Inv, Rely}
use community_waste_collecti.Database.Calls.{seen, bind-ok}
use community_waste_collecti.Storage
use community_waste_collecti.Storage.{S3Client, put_object, delete_object}
use community_waste_collecti.Storage.Laws.{
  stored_object, IsFresh, stored_object-put, stored_object-delete, delete-put, proof_object,
  proof_url, upload-delivered, upload-ok, remove-delivered,
}
use community_waste_collecti.Repository.Payments
use community_waste_collecti.Repository.Payments.{confirm_sql}
use community_waste_collecti.Service.Payments.{mark, settle, on_failure}
use community_waste_collecti.Service.Payments.Marking.{
  confirm_row, confirm-lost, lost_row, confirm-bucket,
}
use community_waste_collecti.Service.Pickups.Outcomes.{seen-Inv}

-- The key of the object that `Confirm` of a payment uploads at a world.
abbrev pub key_at : Uuid → Env → World → ProofKey
key_at id env w = record { payment = id; nonce = (env w.calls).nonce }

-- The world when `settle` reaches the UPDATE: three calls on, with the object in the bucket.
abbrev pub uploaded : ProofKey → List ℕ → ℕ → String → World → World
uploaded key body size content_type w = record w {
  bucket = put_object (proof_object key body size content_type) w.bucket;
  calls = suc (suc (suc w.calls));
  metrics = s3_upload_bytes_total size ∷ w.metrics;
}

module _ {A : Type 0} (m : Action A) (cleanup : Action (Unit {0})) (env : Env) (w : World) where
  abbrev guarded : Result A → Result A × World
  guarded r = elim r [ ok a ↦ (ok a, (m env w).1) | err e ↦ (err e, (cleanup env (m env w).1).1) ]

  on_failure-ok : {a : A} → (m env w).0 ≡ ok a → on_failure m cleanup env w ≡ (ok a, (m env w).1)
  on_failure-ok e = ap guarded e

  on_failure-err :
      {x : Error}
      → (m env w).0 ≡ err x
      → on_failure m cleanup env w ≡ (err x, (cleanup env (m env w).1).1)
  on_failure-err e = ap guarded e

-- With the proof stored, the rest of `settle` is the UPDATE with its cleanup.
module _ (s3 : S3Client) (q : Payment) (id : Uuid) (body : List ℕ) (size : ℕ)
    (content_type : String) (env : Env) (w : World) where
  abbrev key : ProofKey
  key = key_at id env w

  abbrev at_update : World
  at_update = uploaded key body size content_type w

  abbrev paid_at : Time
  paid_at = (env (suc (suc w.calls))).now

  abbrev update_row : Action (Unit {0})
  update_row = Payments.confirm id (proof_url s3 key) paid_at

  abbrev marked : Result (Unit {0}) × World
  marked = on_failure update_row (Storage.remove key) env at_update

  abbrev paid_payment : Payment
  paid_payment = record q {
    status = paid;
    proof_file_url = some (proof_url s3 key);
    payment_date = some paid_at;
  }

  abbrev rest : Result (Unit {0}) × World → Result Payment × World
  rest s = elim s.0 [
    | ok u ↦ (ok paid_payment, record s.1 { metrics = payments_confirmed_total ∷ s.1.metrics })
    | err x ↦ (err x, s.1)
  ]

  settle-uploaded :
      (env (suc w.calls)).reply ≡ delivered
      → settle s3 q id body size content_type env w ≡ rest marked
  unfolding settle mark
  settle-uploaded e =
      bind-ok (Storage.upload s3 key body size content_type) (mark q id key) env
        (record w { calls = suc w.calls })
        (upload-delivered s3 key body size content_type env (record w { calls = suc w.calls }) e)

  -- Without a URL there is no answer.
  pub settle-delivered :
      (p : Payment)
      → (settle s3 q id body size content_type env w).0 ≡ ok p
      → (env (suc w.calls)).reply ≡ delivered
  unfolding settle
  settle-delivered p =
      elim (Result-cases
        (Storage.upload s3 key body size content_type env (record w { calls = suc w.calls })).0) [
          | inr (x, e) ↦ rw (e, ◌>>=◌) (λ k. absurd (cc k))
          | inl (url, e) ↦ λ k.
              upload-ok s3 key body size content_type env (record w { calls = suc w.calls }) url e
        ]

  -- The payment of a row is paid with this proof, and the bucket has the proof.
  abbrev pub Receipt : Payment → World → Type 0
  Receipt p w' =
      ((r : Payment) × (find id w'.db.payments ≡ some r)
        × (r.status ≡ paid)
        × (r.proof_file_url ≡ some (proof_url s3 key))
        × ((t : Time) × (p.payment_date ≡ some t) × (r.payment_date ≡ some (stored_time t))))
      × (p.status ≡ paid)
      × (p.proof_file_url ≡ some (proof_url s3 key))
      × (stored_object key w'.bucket ≡ some (proof_object key body size content_type))

  after_ok :
      {u : Unit {0}}
      → (env (suc w.calls)).reply ≡ delivered
      → (update_row env at_update).0 ≡ ok u
      → settle s3 q id body size content_type env w ≡ (
        ok paid_payment,
        record (update_row env at_update).1 {
          metrics = payments_confirmed_total ∷ (update_row env at_update).1.metrics;
        },
      )
  after_ok d e =
      settle-uploaded d ∙ ap rest (on_failure-ok update_row (Storage.remove key) env at_update e)

  pub after_err :
      {x : Error}
      → (env (suc w.calls)).reply ≡ delivered
      → (update_row env at_update).0 ≡ err x
      → settle s3 q id body size content_type env w
        ≡ (err x, (Storage.remove key env (update_row env at_update).1).1)
  after_err d e =
      settle-uploaded d ∙ ap rest (on_failure-err update_row (Storage.remove key) env at_update e)

  pub settle_ok :
      Rely env
      → (p : Payment) → Inv w.db
      → (settle s3 q id body size content_type env w).0 ≡ ok p
      → Receipt p (settle s3 q id body size content_type env w).1
  settle_ok rely p v k =
      let d = settle-delivered p k in
      let u : World = (update_row env at_update).1 in
      elim (Result-cases (update_row env at_update).0) [
        | inr (x, e) ↦ absurd (cc (k, ap (λ (s : Result Payment × World). s.0) (after_err d e)))
        | inl (_, e) ↦
            let whole = after_ok d e in
            let it : paid_payment ≡ p = cc (k, ap (λ (s : Result Payment × World). s.0) whole) in
            let (r, at_r, is_paid, proof, date) =
              confirm_row id (proof_url s3 key) paid_at env at_update
                (seen-Inv env rely at_update v) e in
            subst (Receipt p) (sym (ap (λ s. s.1) whole)) (
              (r, at_r, is_paid, proof, (paid_at, sym (ap (λ x. x.payment_date) it), date)),
              sym (ap (λ x. x.status) it),
              sym (ap (λ x. x.proof_file_url) it),
              ap (stored_object key) (confirm-bucket id (proof_url s3 key) paid_at env at_update)
                  ∙ stored_object-put (proof_object key body size content_type) w.bucket,
            )
      ]

  pub settle_fails :
      (x : Error)
      → ((n : ℕ) → (env n).reply ≡ delivered)
      → IsFresh key w.bucket
      → (settle s3 q id body size content_type env w).0 ≡ err x
      → (settle s3 q id body size content_type env w).1.bucket ≡ w.bucket
  settle_fails x works fresh k =
      let u : World = (update_row env at_update).1 in
      let d = works (suc w.calls) in
      elim (Result-cases (update_row env at_update).0) [
        | inl (_, e) ↦ absurd (cc (k, ap (λ (s : Result Payment × World). s.0) (after_ok d e)))
        | inr (y, e) ↦
            ap (λ (s : Result Payment × World). s.1.bucket) (after_err d e)
            ∙ ap (λ (s : Result (Unit {0}) × World). s.1.bucket)
                (remove-delivered key env u (works u.calls))
            ∙ ap (delete_object key) (confirm-bucket id (proof_url s3 key) paid_at env at_update)
            ∙ delete-put (proof_object key body size content_type) w.bucket fresh
      ]

  -- Where the UPDATE takes effect but its reply is lost, and the calls round it work, the caller of
  -- `Confirm` has an internal failure, the payment is paid with the URL of its proof, and the cleanup
  -- has deleted that proof from the bucket.
  pub lost_reply_loses_proof :
      (r : Payment)
      → (env (suc w.calls)).reply ≡ delivered
      → (env (suc (suc (suc w.calls)))).reply ≡ lost
      → (env (suc (suc (suc (suc w.calls))))).reply ≡ delivered
      → find id (seen env at_update).payments ≡ some r
      → r.status ≡ PaymentStatus.pending
      → ((settle s3 q id body size content_type env w).0 ≡ err internal_failure)
        × ((p : Payment) × (find id (settle s3 q id body size content_type env w).1.db.payments
              ≡ some p)
            × (p.status ≡ paid)
            × (p.proof_file_url ≡ some (proof_url s3 key)))
        × (stored_object key (settle s3 q id body size content_type env w).1.bucket ≡ none)
  lost_reply_loses_proof r d gone cleaned found waiting =
      let u : World = (update_row env at_update).1 in
      let (failed, wrote, next) = confirm-lost id (proof_url s3 key) paid_at env at_update gone in
      let whole = after_err d failed in
      let (p, at_p, is_paid, proof) =
        lost_row id (proof_url s3 key) paid_at (env (suc (suc (suc w.calls)))).now
          (seen env at_update) r found waiting in
      let removed = remove-delivered key env u (ap (λ (n : ℕ). (env n).reply) next ∙ cleaned) in
      (
        ap (λ (s : Result Payment × World). s.0) whole,
        (
          p,
          ap (λ (s : Result Payment × World). find id s.1.db.payments) whole
              ∙ ap (λ (s : Result (Unit {0}) × World). find id s.1.db.payments) removed
              ∙ ap (λ (e : Db). find id e.payments) wrote
              ∙ at_p,
          is_paid,
          proof,
        ),
        ap (λ (s : Result Payment × World). stored_object key s.1.bucket) whole
            ∙ ap (λ (s : Result (Unit {0}) × World). stored_object key s.1.bucket) removed
            ∙ stored_object-delete key u.bucket,
      )
