-- ===== src/Database/Integrity.antt =====
-- What holds of the tables at every moment, and what may happen to a row while time passes.
pub mod Pickups
pub mod Payments
pub mod Households
use community_waste_collecti.Base.{
  ℕ, ◌≤◌, ◌<◌, ◌≡◌, refl, ◌∙◌, ◌⊎◌, inl, inr, true, Option, none, some, is_some, arith,
}
use community_waste_collecti.Table.{find, Below}
use community_waste_collecti.Domain.{
  Household, household_row, WastePickup, pickup_row, electronic, PickupStatus, scheduled, completed,
  canceled, pickup_status_eq, Payment, payment_row, PaymentStatus, paid, payment_amounts,
}
use community_waste_collecti.Database.Effects.{Db, Env, Turn}

-- The pickup lifecycle of docs/architecture.md.
pub data Edge : PickupStatus → PickupStatus → Type 0 where
  schedules : Edge PickupStatus.pending scheduled
  completes : Edge scheduled completed
  drops : Edge PickupStatus.pending canceled
  withdraws : Edge scheduled canceled

infix 40 ◌⟶*◌
pub data ◌⟶*◌ : PickupStatus → PickupStatus → Type 0 where
  stay : {s : PickupStatus} → s ⟶* s
  then : {s t u : PickupStatus} → Edge s t → t ⟶* u → s ⟶* u

pub ⟶*-trans : {s t u : PickupStatus} → s ⟶* t → t ⟶* u → s ⟶* u
⟶*-trans stay q = q
⟶*-trans (then e p) q = then e (⟶*-trans p q)

-- Both ends of the lifecycle are final.
pub completed_path : {s t : PickupStatus} → s ⟶* t → s ≡ completed → t ≡ completed
completed_path stay e = e
completed_path (then (Edge.schedules) p) e = absurd (ground arith)
completed_path (then (Edge.completes) p) e = absurd (ground arith)
completed_path (then (Edge.drops) p) e = absurd (ground arith)
completed_path (then (Edge.withdraws) p) e = absurd (ground arith)

pub canceled_path : {s t : PickupStatus} → s ⟶* t → s ≡ canceled → t ≡ canceled
canceled_path stay e = e
canceled_path (then (Edge.schedules) p) e = absurd (ground arith)
canceled_path (then (Edge.completes) p) e = absurd (ground arith)
canceled_path (then (Edge.drops) p) e = absurd (ground arith)
canceled_path (then (Edge.withdraws) p) e = absurd (ground arith)

-- A status that a pickup has only after it was scheduled, and was not canceled.
abbrev pub IsActive : PickupStatus → Type 0
IsActive s = (s ≡ scheduled) ⊎ (s ≡ completed)

abbrev pub Settled : Db → WastePickup → Type 0
Settled d p = (j : ℕ) × (q : Payment) × (find j d.payments ≡ some q) × (q.waste_id ≡ p.id)

-- A pickup belongs to a household; BR-03; a completed one has its payment (BR-05).
pub record PickupOk (d : Db) (p : WastePickup) : Type 0 where
  pub household : (h : Household) × (find p.household_id d.households ≡ some h)
  pub safe : p.type ≡ electronic → IsActive p.status → p.safety_check ≡ true
  pub settled : p.status ≡ completed → Settled d p

-- A payment has the amount that its pickup's type calls for, and both are of one household; a paid
-- one has its proof and date (BR-06), and a pending one has neither.
pub record PaymentOk (d : Db) (q : Payment) : Type 0 where
  pub household : (h : Household) × (find q.household_id d.households ≡ some h)
  pub pickup :
      (p : WastePickup) × (find q.waste_id d.pickups ≡ some p)
      × (p.household_id ≡ q.household_id)
      × (q.amount ≡ payment_amounts p.type)
  pub receipt :
      q.status ≡ paid → (is_some q.proof_file_url ≡ true) × (is_some q.payment_date ≡ true)
  pub unpaid :
      q.status ≡ PaymentStatus.pending → (q.proof_file_url ≡ none) × (q.payment_date ≡ none)

pub record Inv (d : Db) : Type 0 where
  pub household_keys : Below d.next_id d.households
  pub pickup_keys : Below d.next_id d.pickups
  pub payment_keys : Below d.next_id d.payments
  pub pickups_ok : (i : ℕ) (p : WastePickup) → find i d.pickups ≡ some p → PickupOk d p
  pub payments_ok : (i : ℕ) (q : Payment) → find i d.payments ≡ some q → PaymentOk d q
  pub one_payment :
      (i j : ℕ) (q r : Payment)
      → find i d.payments ≡ some q
      → find j d.payments ≡ some r
      → q.waste_id ≡ r.waste_id
      → i ≡ j
  pub one_pending :
      (i j : ℕ) (q r : Payment)
      → find i d.payments ≡ some q
      → find j d.payments ≡ some r
      → q.household_id ≡ r.household_id
      → q.status ≡ PaymentStatus.pending
      → r.status ≡ PaymentStatus.pending
      → i ≡ j

-- What a pickup may become.
pub record PickupBecomes (p q : WastePickup) : Type 0 where
  pub same_household : q.household_id ≡ p.household_id
  pub same_type : q.type ≡ p.type
  pub same_safety : q.safety_check ≡ p.safety_check
  pub same_creation : q.created_at ≡ p.created_at
  pub lifecycle : p.status ⟶* q.status

-- What a payment may become: it is never touched again, once it has left `pending`.
pub record PaymentBecomes (q r : Payment) : Type 0 where
  pub same_household : r.household_id ≡ q.household_id
  pub same_waste : r.waste_id ≡ q.waste_id
  pub same_amount : r.amount ≡ q.amount
  pub lifecycle : (r ≡ q) ⊎ ((q.status ≡ PaymentStatus.pending) × (r.status ≡ paid))

-- A row that is gone stays gone.
abbrev pub PickupStep : Option WastePickup → Option WastePickup → Type 0
PickupStep old none = Unit {0}
PickupStep none (some q) = ⊥
PickupStep (some p) (some q) = PickupBecomes p q

abbrev pub PaymentStep : Option Payment → Option Payment → Type 0
PaymentStep old none = Unit {0}
PaymentStep none (some r) = ⊥
PaymentStep (some q) (some r) = PaymentBecomes q r

-- What may have happened to the tables between two moments, to the rows of the first.
pub record Evolves (d e : Db) : Type 0 where
  pub supply : d.next_id ≤ e.next_id
  pub pickups : (i : ℕ) → i < d.next_id → PickupStep (find i d.pickups) (find i e.pickups)
  pub payments : (i : ℕ) → i < d.next_id → PaymentStep (find i d.payments) (find i e.payments)

-- A change that keeps the integrity of the tables and the history of every row.
abbrev pub Legal : Db → Db → Type 0
Legal d e = Inv d → Inv e × Evolves d e

-- The other sessions change the tables legally.
abbrev pub Rely : Env → Type 0
Rely env = (n : ℕ) (d : Db) → Legal d ((env n).others d)

pub PickupBecomes-refl : (p : WastePickup) → PickupBecomes p p
PickupBecomes-refl p = record {
  same_household = refl;
  same_type = refl;
  same_safety = refl;
  same_creation = refl;
  lifecycle = stay;
}

pub PaymentBecomes-refl : (q : Payment) → PaymentBecomes q q
PaymentBecomes-refl q = record {
  same_household = refl;
  same_waste = refl;
  same_amount = refl;
  lifecycle = inl refl;
}

pub PickupStep-refl : (o : Option WastePickup) → PickupStep o o
PickupStep-refl none = tt
PickupStep-refl (some p) = PickupBecomes-refl p

pub PaymentStep-refl : (o : Option Payment) → PaymentStep o o
PaymentStep-refl none = tt
PaymentStep-refl (some q) = PaymentBecomes-refl q

PickupBecomes-trans :
    {p q r : WastePickup} → PickupBecomes p q → PickupBecomes q r → PickupBecomes p r
PickupBecomes-trans a b = record {
  same_household = b.same_household ∙ a.same_household;
  same_type = b.same_type ∙ a.same_type;
  same_safety = b.same_safety ∙ a.same_safety;
  same_creation = b.same_creation ∙ a.same_creation;
  lifecycle = ⟶*-trans a.lifecycle b.lifecycle;
}

PaymentBecomes-trans :
    {q r s : Payment} → PaymentBecomes q r → PaymentBecomes r s → PaymentBecomes q s
PaymentBecomes-trans a b = record {
  same_household = b.same_household ∙ a.same_household;
  same_waste = b.same_waste ∙ a.same_waste;
  same_amount = b.same_amount ∙ a.same_amount;
  lifecycle = ground arith;
}

PickupStep-trans : (a b c : Option WastePickup) → PickupStep a b → PickupStep b c → PickupStep a c
PickupStep-trans a b none s t = tt
PickupStep-trans a none (some r) s t = absurd t
PickupStep-trans none (some q) (some r) s t = absurd s
PickupStep-trans (some p) (some q) (some r) s t = PickupBecomes-trans s t

PaymentStep-trans : (a b c : Option Payment) → PaymentStep a b → PaymentStep b c → PaymentStep a c
PaymentStep-trans a b none s t = tt
PaymentStep-trans a none (some r) s t = absurd t
PaymentStep-trans none (some q) (some r) s t = absurd s
PaymentStep-trans (some p) (some q) (some r) s t = PaymentBecomes-trans s t

pub Evolves-refl : (d : Db) → Evolves d d
Evolves-refl d = record {
  supply = omega arith;
  pickups = λ i h. PickupStep-refl (find i d.pickups);
  payments = λ i h. PaymentStep-refl (find i d.payments);
}

pub Evolves-trans : {d e f : Db} → Evolves d e → Evolves e f → Evolves d f
Evolves-trans a b = record {
  supply = omega (arith, a.supply, b.supply);
  pickups =
      λ i h. PickupStep-trans _ _ _ (a.pickups i h) (b.pickups i (omega (arith, h, a.supply)));
  payments =
      λ i h. PaymentStep-trans _ _ _ (a.payments i h) (b.payments i (omega (arith, h, a.supply)));
}

pub Legal-refl : (d : Db) → Legal d d
Legal-refl d v = (v, Evolves-refl d)

pub Legal-trans : {d e f : Db} → Legal d e → Legal e f → Legal d f
Legal-trans a b v = let (w, h) = a v in let (x, k) = b w in (x, Evolves-trans h k)
