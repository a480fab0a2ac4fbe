-- ===== src/Handler/Receipts.antt =====
-- ConfirmPayment of internal/handler/payment.go from the request to the tables and the bucket.
use community_waste_collecti.Base.{
  ℕ, String, ◌≡◌, ◌≢◌, refl, subst, ◌∙◌, ap, inl, inr, Bool, true, false, List, [], ◌∷◌, Option,
  none, some, take, Option-cases,
}
use community_waste_collecti.Table.{find}
use community_waste_collecti.Domain.{Uuid, Payment, payment_row, paid, Result-cases}
use community_waste_collecti.Database.{Env, World}
use community_waste_collecti.Database.Integrity.{Inv, Rely}
use community_waste_collecti.Storage.{S3Client}
use community_waste_collecti.Storage.Laws.{stored_object, proof_object}
use community_waste_collecti.Service.Payments.{confirm}
use community_waste_collecti.Service.Payments.Confirmation.{key_at}
use community_waste_collecti.Service.Payments.Proofs.{confirm_ok, after_read}
use community_waste_collecti.Handler.Responses.{
  reached, finished, success, payment, Progress-cases, bind-eq-reached, require, parsed,
}
use community_waste_collecti.Handler.Handling.{◌>>=◌, call, call-world}
use community_waste_collecti.Handler.Requests.{
  Packages, ProofPart, FormFile, too_large, no_file, part,
}
use community_waste_collecti.Handler.Proofs.{
  allowed_proof_mime, max_bytes, proof_of, readable, checked_proof,
}
use community_waste_collecti.Handler.Payments.{confirm_payment}

proof_of-part :
    (form : FormFile) (file : ProofPart) → proof_of form ≡ reached file → form ≡ part file
proof_of-part too_large file e = absurd (cc e)
proof_of-part no_file file e = absurd (cc e)
proof_of-part (part p) file e = cc e

readable_lem :
    (content bytes : List ℕ) → readable content ≡ reached bytes → (content ≡ bytes) × (bytes ≢ [])
readable_lem [] bytes e = absurd (cc e)
readable_lem (b ∷ content) bytes e = (cc e, λ k. cc (e, k))

require_lem : (b : Bool) (u : Unit {0}) → require b ≡ reached u → b ≡ true
require_lem true u e = refl
require_lem false u e = absurd (cc e)

parsed_lem : {A : Type 0} (o : Option A) (a : A) → parsed o ≡ reached a → o ≡ some a
parsed_lem none a e = absurd (cc e)
parsed_lem (some b) a e = cc e

reached_unique : {A : Type 0} {a b : A} → reached a ≡ reached b → a ≡ b
reached_unique e = cc e

module _ {Body Decimal : Type 0} (pkg : Packages Body Decimal) where
  -- What a proof that passes the gates is.
  pub record Passed (file : ProofPart) (bytes : List ℕ) : Type 0 where
    pub read : file.content ≡ some bytes
    pub not_empty : bytes ≢ []
    pub declared : allowed_proof_mime file.content_type ≡ true
    pub sniffed : allowed_proof_mime (pkg.detect_content_type (take 512 bytes)) ≡ true

  checked_proof-Passed :
      (file : ProofPart) (bytes : List ℕ)
      → checked_proof pkg file ≡ reached bytes
      → Passed file bytes
  unfolding checked_proof
  checked_proof-Passed file bytes e =
      let (u, d, e1) = bind-eq-reached (require (allowed_proof_mime file.content_type)) _ e in
      let (content, c, e2) = bind-eq-reached (parsed file.content) _ e1 in
      let (given, g, e3) = bind-eq-reached (readable content) _ e2 in
      let (v, s, e4) =
        bind-eq-reached (require (allowed_proof_mime (pkg.detect_content_type (take 512 given)))) _
          e3 in
      let (t, r, e5) = bind-eq-reached (require file.rewinds) _ e4 in
      let same : given ≡ bytes = reached_unique e5 in
      let (whole, some_bytes) = readable_lem content given g in
      record {
        read = parsed_lem file.content content c ∙ ap some (whole ∙ same);
        not_empty = subst (λ (xs : List ℕ). xs ≢ []) same some_bytes;
        declared = require_lem (allowed_proof_mime file.content_type) u d;
        sniffed =
            subst
              (λ (xs : List ℕ). allowed_proof_mime (pkg.detect_content_type (take 512 xs)) ≡ true)
              same
              (require_lem (allowed_proof_mime (pkg.detect_content_type (take 512 given))) v s);
      }

  -- Where ConfirmPayment answers 200 with a payment, the id is a UUID, the upload has a file with
  -- some content, both the declared type of the file and the type of its first 512 bytes are in the
  -- allowlist, the row of the payment is paid, and the bucket has the whole file under the key of
  -- this confirmation, with the declared type.
  pub confirmed_proof-Passed :
      (s3 : S3Client) (max_upload_size_mb : ℕ) (text : String) (body : Body) (env : Env)
      (rely : Rely env) (w : World) (p : Payment)
      → Inv w.db
      → finished (confirm_payment pkg s3 max_upload_size_mb text body env w).0
        ≡ success 200 (payment p)
      → (id : Uuid) × (file : ProofPart) × (bytes : List ℕ) × (r : Payment) × (pkg.parse_uuid text
          ≡ some id)
        × (pkg.form_file (max_bytes max_upload_size_mb) body ≡ part file)
        × Passed file bytes
        × (find id (confirm_payment pkg s3 max_upload_size_mb text body env w).1.db.payments
            ≡ some r)
        × (r.status ≡ paid)
        × (stored_object
              (key_at id env (after_read id env w))
              (confirm_payment pkg s3 max_upload_size_mb text body env w).1.bucket
            ≡ some (
                proof_object
                  (key_at id env (after_read id env w))
                  bytes
                  file.size
                  file.content_type))
  unfolding confirm_payment call
  confirmed_proof-Passed s3 mb text body env rely w p v =
      let form = pkg.form_file (max_bytes mb) body in
      elim (Option-cases (pkg.parse_uuid text)) [
        | inl e ↦ rw e (λ k. absurd (cc k))
        | inr (id, e) ↦ rw e (elim (Progress-cases (proof_of form)) [
          | inr (x, e1) ↦ rw e1 (λ k. absurd (cc k))
          | inl (file, e1) ↦ rw e1 (elim (Progress-cases (checked_proof pkg file)) [
            | inr (x, e2) ↦ rw e2 (λ k. absurd (cc k))
            | inl (bytes, e2) ↦
                rw e2
                  (elim (Result-cases
                    (confirm s3 id (some bytes) file.size file.content_type env w).0) [
                      | inr (x, e3) ↦ rw (e3, ◌>>=◌) (λ k. absurd (cc k))
                      | inl (q, e3) ↦
                          rw (e3, ◌>>=◌)
                            (λ k.
                              let ((r, found, is_paid, url, date), q_paid, q_url, stored) =
                                confirm_ok s3 id bytes file.size file.content_type env rely w q v
                                  e3 in
                              rw
                                (call-world (confirm s3 id (some bytes) file.size file.content_type)
                                  env w)
                                (
                                  id,
                                  file,
                                  bytes,
                                  r,
                                  refl,
                                  proof_of-part form file e1,
                                  checked_proof-Passed file bytes e2,
                                  found,
                                  is_paid,
                                  stored,
                                ))
                    ])
          ])
        ])
      ]
