-- ===== src/Storage.antt =====
-- internal/storage/s3.go: the bucket of proofs. An object is there after a call that took effect,
-- whatever the program hears of it.
pub mod Laws
use community_waste_collecti.Base.{ℕ, suc, String, Bool, not, ◌&&◌, List, ◌∷◌, ◌==◌, nat_eq}
use community_waste_collecti.Table.{delete}
use community_waste_collecti.Domain.{ProofKey, ProofUrl, internal_failure, ok, err}
use community_waste_collecti.Database.{
  Env, World, Action, Reply, delivered, refused, lost, StoredObject, Metric, s3_errors_total,
  s3_upload_bytes_total,
}

pub record S3Client : Type 0 where
  pub bucket : String
  pub endpoint : String

abbrev pub same_key : ProofKey → ProofKey → Bool
same_key k l = k.payment == l.payment && k.nonce == l.nonce

-- PutObject, which replaces an object of the same key
unfoldable pub put_object : StoredObject → List StoredObject → List StoredObject
put_object o bucket = o ∷ delete (λ x. same_key x.key o.key) bucket

unfoldable pub delete_object : ProofKey → List StoredObject → List StoredObject
delete_object k bucket = delete (λ x. same_key x.key k) bucket

unfoldable pub upload : S3Client → ProofKey → List ℕ → ℕ → String → Action ProofUrl
upload c key body size content_type env w =
    let object : StoredObject = record {
      key = key;
      body = body;
      size = size;
      content_type = content_type;
    } in
    let url : ProofUrl = record { endpoint = c.endpoint; bucket = c.bucket; key = key } in
    let failed : World = record w { calls = suc w.calls; metrics = s3_errors_total ∷ w.metrics } in
    elim (env w.calls).reply [
      | delivered ↦ (
        ok url,
        record w {
          bucket = put_object object w.bucket;
          calls = suc w.calls;
          metrics = s3_upload_bytes_total size ∷ w.metrics;
        },
      )
      | refused ↦ (err internal_failure, failed)
      | lost ↦ (err internal_failure, record failed { bucket = put_object object w.bucket })
    ]

unfoldable pub remove : ProofKey → Action (Unit {0})
remove key env w =
    let gone : World = record w { bucket = delete_object key w.bucket; calls = suc w.calls } in
    elim (env w.calls).reply [
      | delivered ↦ (ok tt, gone)
      | refused ↦ (err internal_failure, record w { calls = suc w.calls })
      | lost ↦ (err internal_failure, gone)
    ]

-- HeadBucket, whose error is of no sentinel
unfoldable pub ping : Action (Unit {0})
ping env w =
    let asked : World = record w { calls = suc w.calls } in
    elim (env w.calls).reply [
      | delivered ↦ (ok tt, asked)
      | refused ↦ (err internal_failure, asked)
      | lost ↦ (err internal_failure, asked)
    ]

unfoldable pub create_bucket : Action (Unit {0})
create_bucket env w =
    let asked : World = record w { calls = suc w.calls } in
    elim (env w.calls).reply [
      | delivered ↦ (ok tt, asked)
      | refused ↦ (err internal_failure, asked)
      | lost ↦ (err internal_failure, asked)
    ]

-- HeadBucket, and CreateBucket where that fails, whatever the failure
unfoldable pub ensure_bucket : Action (Unit {0})
unfolding ping create_bucket
ensure_bucket env w =
    let (r, w') = ping env w in elim r [ ok u ↦ (ok u, w') | err x ↦ create_bucket env w' ]
