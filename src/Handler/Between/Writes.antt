-- ===== src/Handler/Between/Writes.antt =====
-- The requests that write, and whole runs of requests.
use community_waste_collecti.Base.{
  ◌≡◌, refl, String, Bool, nat_eq, inl, inr, Option-cases, List, [], ◌∷◌, some,
}
use community_waste_collecti.Database.{Env, World}
use community_waste_collecti.Database.Integrity.{Inv, Evolves, Legal, Rely, Legal-refl, Legal-trans}
use community_waste_collecti.Storage.{S3Client}
use community_waste_collecti.Service.Households
use community_waste_collecti.Service.Households.Legality as HouseholdLegality
use community_waste_collecti.Service.Pickups
use community_waste_collecti.Service.Pickups.Legality as PickupLegality
use community_waste_collecti.Service.Pickups.Completion
use community_waste_collecti.Service.Payments
use community_waste_collecti.Service.Payments.Legality as PaymentLegality
use community_waste_collecti.Handler.Responses.{Progress-cases}
use community_waste_collecti.Handler.Requests.{Packages, Request}
use community_waste_collecti.Handler.Validation.{
  bind_household_request, bind_pickup_request, bind_schedule_request, bind_payment_request,
}
use community_waste_collecti.Handler.Proofs.{max_bytes, proof_of, checked_proof}
use community_waste_collecti.Handler.Households as HouseholdHandlers
use community_waste_collecti.Handler.Pickups as PickupHandlers
use community_waste_collecti.Handler.Payments as PaymentHandlers
use community_waste_collecti.Handler.Routes.{Endpoint, route_of, Handler, serve, serve_all}
use community_waste_collecti.Handler.Between.{Kept, answer_keeps}
use community_waste_collecti.Handler.Between.Binding.{
  bound_keeps, bind_household_keeps, bind_schedule_keeps, bind_pickup_keeps, bind_payment_keeps,
}
use community_waste_collecti.Handler.Between.Gets.{get_keeps}

module _ {Body Decimal : Type 0} (pkg : Packages Body Decimal) (s3 : S3Client) (h : Handler)
    (env : Env) (rely : Rely env) where
  legal : Kept Legal env
  legal = record { same = Legal-refl; both = λ c d e p q. Legal-trans p q; others = rely }

  create_household-Legal :
      (body : Body) (w : World)
      → Legal w.db (HouseholdHandlers.create_household pkg body env w).1.db
  unfolding HouseholdHandlers.create_household
  create_household-Legal body w =
      bound_keeps Legal env legal (bind_household_request pkg body) Households.create _ w
        (bind_household_keeps pkg Legal env legal body w) (HouseholdLegality.create-Legal env rely)

  create_pickup-Legal :
      (set : Bool) (body : Body) (w : World)
      → Legal w.db (PickupHandlers.create_pickup pkg set body env w).1.db
  unfolding PickupHandlers.create_pickup
  create_pickup-Legal set body w =
      bound_keeps Legal env legal (bind_pickup_request pkg set body) Pickups.create _ w
        (bind_pickup_keeps pkg Legal env legal set body w) (PickupLegality.create-Legal env rely)

  create_payment-Legal :
      (set : Bool) (body : Body) (w : World)
      → Legal w.db (PaymentHandlers.create_payment pkg set body env w).1.db
  unfolding PaymentHandlers.create_payment
  create_payment-Legal set body w =
      bound_keeps Legal env legal (bind_payment_request pkg set body) Payments.create _ w
        (bind_payment_keeps pkg Legal env legal set body w) (PaymentLegality.create-Legal env rely)

  schedule_pickup-Legal :
      (text : String) (body : Body) (w : World)
      → Legal w.db (PickupHandlers.schedule_pickup pkg text body env w).1.db
  unfolding PickupHandlers.schedule_pickup
  schedule_pickup-Legal text body w = elim (Option-cases (pkg.parse_uuid text)) [
    | inl e ↦ rw e (Legal-refl w.db)
    | inr (id, e) ↦ rw e (
        bound_keeps Legal env legal (bind_schedule_request pkg body) (Pickups.schedule id) _ w
          (bind_schedule_keeps pkg Legal env legal body w)
          (PickupLegality.schedule-Legal env rely id))
  ]

  complete_pickup-Legal :
      (text : String) (w : World) → Legal w.db (PickupHandlers.complete_pickup pkg text env w).1.db
  unfolding PickupHandlers.complete_pickup
  complete_pickup-Legal text w = elim (Option-cases (pkg.parse_uuid text)) [
    | inl e ↦ rw e (Legal-refl w.db)
    | inr (id, e) ↦ rw e (
        answer_keeps Legal env legal (Pickups.complete id) _ w
          (Completion.complete-Legal env rely id w))
  ]

  cancel_pickup-Legal :
      (text : String) (w : World) → Legal w.db (PickupHandlers.cancel_pickup pkg text env w).1.db
  unfolding PickupHandlers.cancel_pickup
  cancel_pickup-Legal text w = elim (Option-cases (pkg.parse_uuid text)) [
    | inl e ↦ rw e (Legal-refl w.db)
    | inr (id, e) ↦ rw e (
        answer_keeps Legal env legal (Pickups.cancel id) _ w
          (PickupLegality.cancel-Legal env rely id w))
  ]

  delete_household-Legal :
      (text : String) (w : World)
      → Legal w.db (HouseholdHandlers.delete_household pkg text env w).1.db
  unfolding HouseholdHandlers.delete_household
  delete_household-Legal text w = elim (Option-cases (pkg.parse_uuid text)) [
    | inl e ↦ rw e (Legal-refl w.db)
    | inr (id, e) ↦ rw e (
        answer_keeps Legal env legal (Households.remove id) _ w
          (HouseholdLegality.remove-Legal env rely id w))
  ]

  confirm_payment-Legal :
      (text : String) (body : Body) (w : World)
      → Legal w.db
          (PaymentHandlers.confirm_payment pkg s3 h.max_upload_size_mb text body env w).1.db
  unfolding PaymentHandlers.confirm_payment
  confirm_payment-Legal text body w =
      let form = proof_of (pkg.form_file (max_bytes h.max_upload_size_mb) body) in
      elim (Option-cases (pkg.parse_uuid text)) [
        | inl e ↦ rw e (Legal-refl w.db)
        | inr (id, e) ↦ elim (Progress-cases form) [
          | inr (x, e') ↦ rw (e, e') (Legal-refl w.db)
          | inl (file, e') ↦ elim (Progress-cases (checked_proof pkg file)) [
            | inr (x, e'') ↦ rw (e, e', e'') (Legal-refl w.db)
            | inl (bytes, e'') ↦
                rw (e, e', e'')
                  (answer_keeps Legal env legal
                    (Payments.confirm s3 id (some bytes) file.size file.content_type) _ w
                    (PaymentLegality.confirm-Legal env rely s3 id (some bytes) file.size
                      file.content_type w))
          ]
        ]
      ]

  read-Legal :
      (e : Endpoint) (r : Request Body) (w : World)
      → (route_of e).method ≡ "GET"
      → Legal w.db (serve pkg s3 h e r env w).1.db
  read-Legal e r w get = get_keeps pkg s3 h Legal env legal e r w get

  pub serve-Legal :
      (e : Endpoint) (r : Request Body) (w : World) → Legal w.db (serve pkg s3 h e r env w).1.db
  unfolding serve route_of
  serve-Legal Endpoint.create_household r w = create_household-Legal r.body w
  serve-Legal Endpoint.delete_household r w = delete_household-Legal r.id w
  serve-Legal Endpoint.create_pickup r w = create_pickup-Legal h.db_configured r.body w
  serve-Legal Endpoint.schedule_pickup r w = schedule_pickup-Legal r.id r.body w
  serve-Legal Endpoint.complete_pickup r w = complete_pickup-Legal r.id w
  serve-Legal Endpoint.cancel_pickup r w = cancel_pickup-Legal r.id w
  serve-Legal Endpoint.create_payment r w = create_payment-Legal h.db_configured r.body w
  serve-Legal Endpoint.confirm_payment r w = confirm_payment-Legal r.id r.body w
  serve-Legal Endpoint.health_check r w = read-Legal Endpoint.health_check r w refl
  serve-Legal Endpoint.ready_check r w = read-Legal Endpoint.ready_check r w refl
  serve-Legal Endpoint.list_households r w = read-Legal Endpoint.list_households r w refl
  serve-Legal Endpoint.get_household r w = read-Legal Endpoint.get_household r w refl
  serve-Legal Endpoint.list_pickups r w = read-Legal Endpoint.list_pickups r w refl
  serve-Legal Endpoint.list_payments r w = read-Legal Endpoint.list_payments r w refl
  serve-Legal Endpoint.waste_summary r w = read-Legal Endpoint.waste_summary r w refl
  serve-Legal Endpoint.payment_summary r w = read-Legal Endpoint.payment_summary r w refl
  serve-Legal Endpoint.household_history r w = read-Legal Endpoint.household_history r w refl

  serve_all-Legal :
      (rs : List (Endpoint × Request Body)) (w : World)
      → Legal w.db (serve_all pkg s3 h rs env w).db
  unfolding serve_all
  serve_all-Legal [] w = Legal-refl w.db
  serve_all-Legal ((e, r) ∷ rs) w =
      Legal-trans (serve-Legal e r w) (serve_all-Legal rs (serve pkg s3 h e r env w).1)

  -- Any sequence of requests, of whatever ids, query strings and bodies, and whatever legal changes
  -- other sessions make before each statement and whichever statements fail or lose their replies,
  -- keeps the integrity of the tables, where it holds at the start, and is a legal history of every
  -- row.
  pub requests_keep_integrity :
      (rs : List (Endpoint × Request Body)) (w : World)
      → Inv w.db
      → Inv (serve_all pkg s3 h rs env w).db × Evolves w.db (serve_all pkg s3 h rs env w).db
  requests_keep_integrity rs w v = serve_all-Legal rs w v
