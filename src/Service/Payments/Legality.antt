-- ===== src/Service/Payments/Legality.antt =====
-- Legality of the methods of internal/service/payment.go.
use mathlib.Core.Path.{subst₂}
use community_waste_collecti.Base.{
  ℕ, suc, String, ◌≡◌, refl, sym, ◌∙◌, ap, subst, inl, inr, true, List, Option, none, some, arith,
  ◌==◌, nat_eq, Bool-cases,
}
use community_waste_collecti.Table.{find}
use community_waste_collecti.Table.Laws.{find-lt}
use community_waste_collecti.Domain.{
  Uuid, Time, WastePickup, pickup_row, Payment, PaymentStatus, payment_status_eq,
  CreatePaymentRequest, ProofKey, ProofUrl, payment_amounts, Result-cases,
}
use community_waste_collecti.Database.{Db, Env, World, ◌>>=◌, select_from}
use community_waste_collecti.Database.Integrity.{
  Inv, PickupStep, Legal, Rely, Legal-refl, Legal-trans,
}
use community_waste_collecti.Database.Calls.{seen, query-Legal}
use community_waste_collecti.Storage
use community_waste_collecti.Storage.{S3Client}
use community_waste_collecti.Repository.Pickups
use community_waste_collecti.Repository.Payments
use community_waste_collecti.Repository.Payments.Legality.{
  Matches, insert_payment-Legal, confirm_sql-Legal,
}
use community_waste_collecti.Service.Pickups.Legality.{Keeps, find_by_id-Legal, find_by_id-found}
use community_waste_collecti.Service.Payments.{create, new_payment, confirm, settle, on_failure}

module _ (env : Env) (rely : Rely env) where
  -- What the guard has checked of the pickup is still so at the INSERT.
  still-Matches :
      (h wid : Uuid) (d : Db) (n : ℕ) (p : WastePickup)
      → Inv d
      → find wid d.pickups ≡ some p
      → (p.household_id == h) ≡ true
      → Matches (new_payment h wid (payment_amounts p.type)) ((env n).others d)
  unfolding new_payment
  still-Matches h wid d n p v found own q later =
      let (w, ev) = rely n d v in
      let step = ev.pickups wid (find-lt wid d.next_id p d.pickups v.pickup_keys found) in
      let b = subst₂ PickupStep found later step in
      (b.same_household ∙ (nat_eq.equals_iff _ _).0 own, ap payment_amounts (sym b.same_type))

  create_repo-Legal :
      (q : Payment) (w : World)
      → q.status ≡ PaymentStatus.pending
      → Matches q (seen env w)
      → Keeps w (Payments.create q env w)
  unfolding Payments.create
  create_repo-Legal q w new matches =
      query-Legal env rely (Payments.insert_payment q) w
        (insert_payment-Legal q (env w.calls).now (seen env w) new matches)

  pub create-Legal :
      {Decimal : Type 0} (req : CreatePaymentRequest Decimal) (w : World)
      → Keeps w (create req env w)
  unfolding create
  create-Legal req w = elim (Result-cases (Pickups.find_by_id req.waste_id env w).0) [
    | inr (x, e) ↦ rw (e, ◌>>=◌) (find_by_id-Legal env rely req.waste_id w)
    | inl (p, e) ↦
        let w' = (Pickups.find_by_id req.waste_id env w).1 in
        let q = new_payment req.household_id req.waste_id (payment_amounts p.type) in
        rw (e, ◌>>=◌)
          (elim (Bool-cases (p.household_id == req.household_id)) [
            | inr b ↦ rw b (find_by_id-Legal env rely req.waste_id w)
            | inl b ↦
                let both : Legal w.db (Payments.create q env w').1.db = λ v.
                  let (v', ev) = find_by_id-Legal env rely req.waste_id w v in
                  Legal-trans (find_by_id-Legal env rely req.waste_id w)
                    (create_repo-Legal q w' (unfold new_payment in refl) (
                      still-Matches req.household_id req.waste_id w'.db w'.calls p v'
                        (find_by_id-found env rely req.waste_id w p e) b))
                    v in
                rw b (elim (Result-cases (Payments.create q env w').0) [
                  | inr (x, f) ↦ rw (f, ◌>>=◌) both
                  | inl (r, f) ↦ rw (f, ◌>>=◌) both
                ])
          ])
  ]

  pub find-Legal : (id : Uuid) (w : World) → Keeps w (Payments.find_by_id id env w)
  unfolding Payments.find_by_id
  find-Legal id w = query-Legal env rely (select_from _) w (Legal-refl _)

  confirm_repo-Legal :
      (id : Uuid) (url : ProofUrl) (paid_at : Time) (w : World)
      → Keeps w (Payments.confirm id url paid_at env w)
  unfolding Payments.confirm
  confirm_repo-Legal id url paid_at w =
      query-Legal env rely (Payments.confirm_sql id url paid_at) w
        (confirm_sql-Legal id url paid_at (env w.calls).now (seen env w))

-- Object storage holds no table.
pub upload-db :
    (s3 : S3Client) (key : ProofKey) (body : List ℕ) (size : ℕ) (content_type : String) (env : Env)
    (w : World)
    → (Storage.upload s3 key body size content_type env w).1.db ≡ w.db
unfolding Storage.upload
upload-db s3 key body size content_type env w = ground arith

pub remove-db : (key : ProofKey) (env : Env) (w : World) → (Storage.remove key env w).1.db ≡ w.db
unfolding Storage.remove
remove-db key env w = ground arith

module _ (env : Env) (rely : Rely env) where
  -- Confirm with its cleanup leaves the tables as the UPDATE did.
  on_failure-Legal :
      (id : Uuid) (url : ProofUrl) (paid_at : Time) (key : ProofKey) (w : World)
      → Keeps w (on_failure (Payments.confirm id url paid_at) (Storage.remove key) env w)
  on_failure-Legal id url paid_at key w =
      elim (Result-cases (Payments.confirm id url paid_at env w).0) [
        | inl (a, e) ↦ rw (e, on_failure) (confirm_repo-Legal env rely id url paid_at w)
        | inr (x, e) ↦ rw (e, on_failure, remove-db) (confirm_repo-Legal env rely id url paid_at w)
      ]

  settle-Legal :
      (s3 : S3Client) (q : Payment) (id : Uuid) (body : List ℕ) (size : ℕ) (content_type : String)
      (w : World)
      → Keeps w (settle s3 q id body size content_type env w)
  unfolding settle
  settle-Legal s3 q id body size content_type w =
      let key : ProofKey = record { payment = id; nonce = (env w.calls).nonce } in
      let w' : World = record w { calls = suc w.calls } in
      let stored : World = (Storage.upload s3 key body size content_type env w').1 in
      let same : stored.db ≡ w.db = upload-db s3 key body size content_type env w' in
      elim (Result-cases (Storage.upload s3 key body size content_type env w').0) [
        | inr (x, e) ↦ rw (e, ◌>>=◌, same) (Legal-refl w.db)
        | inl (url, e) ↦
            let paid_at : Time = (env stored.calls).now in
            let u : World = record stored { calls = suc stored.calls } in
            let both : Legal w.db
                (on_failure (Payments.confirm id url paid_at) (Storage.remove key) env u).1.db =
              subst
                (λ d.
                  Legal d
                    (on_failure (Payments.confirm id url paid_at) (Storage.remove key) env u).1.db)
                same (on_failure-Legal id url paid_at key u) in
            rw (e, ◌>>=◌)
              (elim (Result-cases
                (on_failure (Payments.confirm id url paid_at) (Storage.remove key) env u).0) [
                  | inr (x, f) ↦ rw (f, ◌>>=◌) both
                  | inl (r, f) ↦ rw (f, ◌>>=◌) both
                ])
      ]

  pub confirm-Legal :
      (s3 : S3Client) (id : Uuid) (file : Option (List ℕ)) (size : ℕ) (content_type : String)
      (w : World)
      → Keeps w (confirm s3 id file size content_type env w)
  unfolding confirm
  confirm-Legal s3 id none size content_type w = Legal-refl w.db
  confirm-Legal s3 id (some body) size content_type w =
      elim (Result-cases (Payments.find_by_id id env w).0) [
        | inr (x, e) ↦ rw (e, ◌>>=◌) (find-Legal env rely id w)
        | inl (q, e) ↦
            rw (e, ◌>>=◌)
              (elim (Bool-cases (q.status == PaymentStatus.pending)) [
                | inr b ↦ rw b (find-Legal env rely id w)
                | inl b ↦ rw b (
                    Legal-trans (find-Legal env rely id w) (
                      settle-Legal s3 q id body size content_type (Payments.find_by_id id env w).1))
              ])
      ]
