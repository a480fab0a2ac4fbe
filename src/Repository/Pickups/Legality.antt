-- ===== src/Repository/Pickups/Legality.antt =====
-- Which statements of internal/repository/pickup.go are legal whatever they meet, and what the
-- others need.
use community_waste_collecti.Base.{
  ◌≡◌, refl, inl, inr, true, List, some, arith, Option-cases, &&-eq-true, ◌==◌, nat_eq, ℕ, ap, sym,
  ◌∙◌,
}
use community_waste_collecti.Table.{find}
use community_waste_collecti.Table.Laws.{find-key}
use community_waste_collecti.Domain.{
  Uuid, Time, household_row, WastePickup, pickup_row, electronic, PickupStatus, scheduled,
  completed, canceled, pickup_status_eq,
}
use community_waste_collecti.Database.{Db}
use community_waste_collecti.Database.Integrity.{
  schedules, completes, drops, withdraws, ◌⟶*◌, stay, then, Settled, PickupBecomes, Legal,
  Legal-refl,
}
use community_waste_collecti.Database.Integrity.Pickups.{
  Change, update_pickups-Legal, insert_pickup-Legal as insertion-Legal,
}
use community_waste_collecti.Repository.Pickups.{
  insert_pickup, update_status_sql, schedule_sql, is_cancellable, bulk_cancel_sql, cancel_sql,
}

cancellable_path : (s : PickupStatus) → is_cancellable s ≡ true → s ⟶* canceled
unfolding is_cancellable
cancellable_path PickupStatus.pending e = then drops stay
cancellable_path scheduled e = then withdraws stay
cancellable_path completed e = cc
cancellable_path canceled e = cc

-- A row whose status alone changes, along the lifecycle.
moved :
    (p q : WastePickup)
    → q.household_id ≡ p.household_id
    → q.type ≡ p.type
    → q.safety_check ≡ p.safety_check
    → q.created_at ≡ p.created_at
    → p.status ⟶* q.status
    → PickupBecomes p q
moved p q a b c e l = record {
  same_household = a;
  same_type = b;
  same_safety = c;
  same_creation = e;
  lifecycle = l;
}

cancels :
    (d : Db) (p : WastePickup) (now : Time)
    → is_cancellable p.status ≡ true
    → Change d p (record p { status = canceled; updated_at = now })
cancels d p now e = record {
  becomes = moved p _ refl refl refl refl (cancellable_path p.status e);
  safe = λ t a. ground arith;
  settled = λ c. ground arith;
}

pub cancel_sql-Legal : (id : Uuid) (now : Time) (d : Db) → Legal d (cancel_sql id now d).1
unfolding cancel_sql
cancel_sql-Legal id now d v =
    update_pickups-Legal _ _ d (λ p. refl) v λ i p found hit. cancels d p now (&&-eq-true _ _ hit).1

pub bulk_cancel_sql-Legal :
    (ids : List Uuid) (now : Time) (d : Db) → Legal d (bulk_cancel_sql ids now d).1
unfolding bulk_cancel_sql
bulk_cancel_sql-Legal ids now d v =
    update_pickups-Legal _ _ d (λ p. refl) v λ i p found hit. cancels d p now (&&-eq-true _ _ hit).1

-- BR-03, as the caller has to have checked it.
abbrev pub IsSafe : WastePickup → Type 0
IsSafe p = p.type ≡ electronic → p.safety_check ≡ true

pending_path : (s : PickupStatus) → (s == PickupStatus.pending) ≡ true → s ⟶* scheduled
pending_path PickupStatus.pending e = then schedules stay
pending_path scheduled e = cc
pending_path completed e = cc
pending_path canceled e = cc

scheduled_path : (s : PickupStatus) → (s == scheduled) ≡ true → s ⟶* completed
scheduled_path scheduled e = then completes stay
scheduled_path PickupStatus.pending e = cc
scheduled_path completed e = cc
scheduled_path canceled e = cc

-- The row that `WHERE id = $1` meets is the one that a lookup finds.
hit_key :
    (id i : Uuid) (p : WastePickup) (d : Db)
    → find i d.pickups ≡ some p
    → (p.id == id) ≡ true
    → find id d.pickups ≡ some p
hit_key id i p d found hit =
    ap (λ (k : ℕ). find k d.pickups)
      (sym ((nat_eq.equals_iff _ _).0 hit) ∙ find-key i p d.pickups found)
    ∙ found

pub schedule_sql-Legal :
    (id : Uuid) (date now : Time) (d : Db)
    → ((p : WastePickup) → find id d.pickups ≡ some p → IsSafe p)
    → Legal d (schedule_sql id date now d).1
unfolding schedule_sql
schedule_sql-Legal id date now d safe v =
    update_pickups-Legal _ _ d (λ p. refl) v
      λ i p found hit.
        let (same, was) = &&-eq-true _ _ hit in
        record {
          becomes = moved p _ refl refl refl refl (pending_path p.status was);
          safe = λ t a. safe p (hit_key id i p d found same) t;
          settled = λ c. ground arith;
        }

pub complete_sql-Legal :
    (id : Uuid) (now : Time) (d : Db)
    → ((p : WastePickup) → find id d.pickups ≡ some p → Settled d p)
    → Legal d (update_status_sql id completed now d).1
unfolding update_status_sql
complete_sql-Legal id now d settled v =
    update_pickups-Legal _ _ d (λ p. refl) v
      λ i p found hit.
        let (same, was) = &&-eq-true _ _ hit in
        record {
          becomes = moved p _ refl refl refl refl (scheduled_path p.status was);
          safe = λ t a.
              (v.pickups_ok i p found).safe t (inl ((pickup_status_eq.equals_iff _ _).0 was));
          settled = λ c. settled p (hit_key id i p d found same);
        }

pub insert_pickup-Legal :
    (p : WastePickup) (now : Time) (d : Db)
    → p.status ≡ PickupStatus.pending
    → Legal d (insert_pickup p now d).1
unfolding insert_pickup
insert_pickup-Legal p now d new = elim (Option-cases (find p.household_id d.households)) [
  | inl none_found ↦ rw none_found (Legal-refl d)
  | inr (h, found) ↦ rw found (λ v. insertion-Legal _ d v refl (h, found) new)
]
