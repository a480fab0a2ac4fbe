-- ===== src/Storage/Laws.antt =====
-- What the bucket of internal/storage/s3.go holds after an upload and after a removal.
use community_waste_collecti.Base.{
  ℕ, suc, String, ◌≡◌, refl, ap, ◌∙◌, true, List, [], ◌∷◌, Option, none, some, arith, nat_eq,
  if◌then◌else◌, Bool-cases, inl, inr,
}
use community_waste_collecti.Table.{delete, select}
use community_waste_collecti.Domain.{ProofKey, ProofUrl, ok}
use community_waste_collecti.Database.{Env, World, StoredObject, delivered, s3_upload_bytes_total}
use community_waste_collecti.Storage.{S3Client, same_key, put_object, delete_object, upload, remove}

-- The object under a key: what a GET of its URL serves.
unfoldable pub stored_object : ProofKey → List StoredObject → Option StoredObject
stored_object k [] = none
stored_object k (x ∷ xs) = if same_key x.key k then some x else stored_object k xs

-- No object has the key.
abbrev pub IsFresh : ProofKey → List StoredObject → Type 0
IsFresh k bucket = stored_object k bucket ≡ none

same_key_refl : (k : ProofKey) → same_key k k ≡ true
same_key_refl k =
    rw ((nat_eq.equals_iff k.payment k.payment).1 refl, (nat_eq.equals_iff k.nonce k.nonce).1 refl)
      refl

pub stored_object-put :
    (o : StoredObject) (bucket : List StoredObject)
    → stored_object o.key (put_object o bucket) ≡ some o
unfolding stored_object put_object
stored_object-put o bucket = rw (same_key_refl o.key) refl

pub delete-fresh :
    (k : ProofKey) (bucket : List StoredObject) → IsFresh k bucket → delete_object k bucket ≡ bucket
unfolding stored_object delete_object delete select
delete-fresh k [] e = refl
delete-fresh k (x ∷ xs) e = elim (Bool-cases (same_key x.key k)) [
  | inl hit ↦ absurd (ground (arith, hit))
  | inr miss ↦ rw miss (ap (λ ys. x ∷ ys) (delete-fresh k xs (rw miss at e)))
]

pub stored_object-delete :
    (k : ProofKey) (bucket : List StoredObject) → IsFresh k (delete_object k bucket)
unfolding stored_object delete_object delete select
stored_object-delete k [] = refl
stored_object-delete k (x ∷ xs) = elim (Bool-cases (same_key x.key k)) [
  | inl hit ↦ rw hit (stored_object-delete k xs)
  | inr miss ↦ rw (miss, miss) (stored_object-delete k xs)
]

delete-head :
    (o : StoredObject) (bucket : List StoredObject)
    → delete_object o.key (o ∷ bucket) ≡ delete_object o.key bucket
unfolding delete_object delete select
delete-head o bucket = rw (same_key_refl o.key) refl

-- An upload that is taken back leaves no trace.
pub delete-put :
    (o : StoredObject) (bucket : List StoredObject)
    → IsFresh o.key bucket
    → delete_object o.key (put_object o bucket) ≡ bucket
unfolding put_object delete delete_object
delete-put o bucket fresh =
    delete-head o (delete_object o.key bucket)
    ∙ ap (delete_object o.key) (delete-fresh o.key bucket fresh)
    ∙ delete-fresh o.key bucket fresh

abbrev pub proof_object : ProofKey → List ℕ → ℕ → String → StoredObject
proof_object key body size content_type = record {
  key = key;
  body = body;
  size = size;
  content_type = content_type;
}

abbrev pub proof_url : S3Client → ProofKey → ProofUrl
proof_url c key = record { endpoint = c.endpoint; bucket = c.bucket; key = key }

pub upload-delivered :
    (c : S3Client) (key : ProofKey) (body : List ℕ) (size : ℕ) (content_type : String) (env : Env)
    (w : World)
    → (env w.calls).reply ≡ delivered
    → upload c key body size content_type env w ≡ (
      ok (proof_url c key),
      record w {
        bucket = put_object (proof_object key body size content_type) w.bucket;
        calls = suc w.calls;
        metrics = s3_upload_bytes_total size ∷ w.metrics;
      },
    )
unfolding upload
upload-delivered c key body size content_type env w e = rw (e, upload) refl

pub remove-delivered :
    (key : ProofKey) (env : Env) (w : World)
    → (env w.calls).reply ≡ delivered
    → remove key env w
      ≡ (ok tt, record w { bucket = delete_object key w.bucket; calls = suc w.calls })
unfolding remove
remove-delivered key env w e = rw (e, remove) refl

-- An upload that returns a URL was delivered.
pub upload-ok :
    (c : S3Client) (key : ProofKey) (body : List ℕ) (size : ℕ) (content_type : String) (env : Env)
    (w : World) (url : ProofUrl)
    → (upload c key body size content_type env w).0 ≡ ok url
    → (env w.calls).reply ≡ delivered
unfolding upload
upload-ok c key body size content_type env w url e = ground arith
