-- ===== src/Repository/Lists/Order.antt =====
-- What a page of the List methods of internal/repository holds, whatever happens round its calls.
use community_waste_collecti.Base.{
  ℕ, zero, suc, ◌≤◌, ◌≡◌, ap, ◌∙◌, subst, Bool, true, false, List, [], ◌∷◌, take, drop, length,
  length-take, arith, Bool-cases, inl, inr, ltb,
}
use community_waste_collecti.Table.{affected, select}
use community_waste_collecti.Domain.{Time, Payment, PaymentFilter, ok, Result-cases}
use community_waste_collecti.Database.{
  Db, Env, World, Action, ◌>>=◌, exec, or_err, internal, select_from,
}
use community_waste_collecti.Database.Calls.{seen}
use community_waste_collecti.Repository.Lists.{
  insert_newest, newest_first, insert_at, arrange, ordered, page_offset, page_rows, paged,
  list_rows, list_payments, payment_matches, default_page, default_per_page,
}
use community_waste_collecti.Repository.Lists.Offsets.{paged-ok}

below_head : (a b : ℕ) → ltb a b ≡ true → a ≤ b
below_head a b e = ground arith

above_head : (a b : ℕ) → ltb a b ≡ false → b ≤ a
above_head a b e = ground arith

ok_unique : {A : Type 0} {a b : A} → ok a ≡ ok b → a ≡ b
ok_unique e = cc e

module _ {A : Type 0} where
  abbrev pub Every : (A → Type 0) → List A → Type 0
  Every P [] = Unit {0}
  Every P (x ∷ xs) = P x × Every P xs

  -- No row is older than a row after it.
  abbrev pub Descending : (A → Time) → List A → Type 0
  Descending time [] = Unit {0}
  Descending time (x ∷ xs) = Every (λ y. time y ≤ time x) xs × Descending time xs

  pub Every-map :
      {P Q : A → Type 0} → ((x : A) → P x → Q x) → (xs : List A) → Every P xs → Every Q xs
  Every-map f [] h = tt
  Every-map f (x ∷ xs) h = (f x h.0, Every-map f xs h.1)

  Every-take : (P : A → Type 0) (n : ℕ) (xs : List A) → Every P xs → Every P (take n xs)
  Every-take P zero xs h = tt
  Every-take P (suc n) [] h = tt
  Every-take P (suc n) (x ∷ xs) h = (h.0, Every-take P n xs h.1)

  Every-drop : (P : A → Type 0) (n : ℕ) (xs : List A) → Every P xs → Every P (drop n xs)
  Every-drop P zero xs h = h
  Every-drop P (suc n) [] h = tt
  Every-drop P (suc n) (x ∷ xs) h = Every-drop P n xs h.1

  Descending-take :
      (time : A → Time) (n : ℕ) (xs : List A) → Descending time xs → Descending time (take n xs)
  Descending-take time zero xs h = tt
  Descending-take time (suc n) [] h = tt
  Descending-take time (suc n) (x ∷ xs) h = (Every-take _ n xs h.0, Descending-take time n xs h.1)

  Descending-drop :
      (time : A → Time) (n : ℕ) (xs : List A) → Descending time xs → Descending time (drop n xs)
  Descending-drop time zero xs h = h
  Descending-drop time (suc n) [] h = tt
  Descending-drop time (suc n) (x ∷ xs) h = Descending-drop time n xs h.1

  pub Every-select : (test : A → Bool) (xs : List A) → Every (λ x. test x ≡ true) (select test xs)
  unfolding select
  Every-select test [] = tt
  Every-select test (x ∷ xs) = elim (Bool-cases (test x)) [
    | inl hit ↦ rw hit (hit, Every-select test xs)
    | inr miss ↦ rw miss (Every-select test xs)
  ]

  Every-insert :
      (P : A → Type 0) (time : A → Time) (x : A) (xs : List A)
      → P x
      → Every P xs
      → Every P (insert_newest time x xs)
  unfolding insert_newest
  Every-insert P time x [] p h = (p, tt)
  Every-insert P time x (y ∷ ys) p h = elim (Bool-cases (ltb (time x) (time y))) [
    | inl older ↦ rw older (h.0, Every-insert P time x ys p h.1)
    | inr newer ↦ rw newer (p, h)
  ]

  Every-insert_at :
      (P : A → Type 0) (n : ℕ) (x : A) (xs : List A) → P x → Every P xs → Every P (insert_at n x xs)
  unfolding insert_at
  Every-insert_at P zero x xs p h = (p, h)
  Every-insert_at P (suc n) x [] p h = (p, tt)
  Every-insert_at P (suc n) x (y ∷ ys) p h = (h.0, Every-insert_at P n x ys p h.1)

  pub Every-arrange :
      (P : A → Type 0) (order : List ℕ) (xs : List A) → Every P xs → Every P (arrange order xs)
  unfolding arrange
  Every-arrange P [] xs h = h
  Every-arrange P (n ∷ ns) [] h = tt
  Every-arrange P (n ∷ ns) (x ∷ xs) h =
      Every-insert_at P n x (arrange ns xs) h.0 (Every-arrange P ns xs h.1)

  pub Every-newest :
      (P : A → Type 0) (time : A → Time) (xs : List A) → Every P xs → Every P (newest_first time xs)
  unfolding newest_first
  Every-newest P time [] h = tt
  Every-newest P time (x ∷ xs) h =
      Every-insert P time x (newest_first time xs) h.0 (Every-newest P time xs h.1)

  Descending-insert :
      (time : A → Time) (x : A) (xs : List A)
      → Descending time xs
      → Descending time (insert_newest time x xs)
  unfolding insert_newest
  Descending-insert time x [] h = (tt, tt)
  Descending-insert time x (y ∷ ys) h = elim (Bool-cases (ltb (time x) (time y))) [
    | inl older ↦ rw older (
      Every-insert (λ z. time z ≤ time y) time x ys (below_head (time x) (time y) older) h.0,
      Descending-insert time x ys h.1,
    )
    | inr newer ↦
        let lower = above_head (time x) (time y) newer in
        rw newer ((lower, Every-map (λ z below. omega (arith, below, lower)) ys h.0), h)
  ]

  pub Descending-newest : (time : A → Time) (xs : List A) → Descending time (newest_first time xs)
  unfolding newest_first
  Descending-newest time [] = tt
  Descending-newest time (x ∷ xs) =
      Descending-insert time x (newest_first time xs) (Descending-newest time xs)

  pub Every-ordered :
      (P : A → Type 0) (time : A → Time) (order : List ℕ) (xs : List A)
      → Every P xs
      → Every P (ordered time order xs)
  unfolding ordered
  Every-ordered P time order xs h =
      Every-newest P time (arrange order xs) (Every-arrange P order xs h)

  pub Descending-ordered :
      (time : A → Time) (order : List ℕ) (xs : List A) → Descending time (ordered time order xs)
  unfolding ordered
  Descending-ordered time order xs = Descending-newest time (arrange order xs)

  -- What a page is: at most so many rows, each one asked for, newest first.
  abbrev pub IsPage : (A → Time) → (A → Bool) → ℕ → List A → Type 0
  IsPage time test per rows =
      (length rows ≤ per) × Every (λ x. test x ≡ true) rows × Descending time rows

  page_rows-IsPage :
      (time : A → Time) (test : A → Bool) (order : List ℕ) (offset per : ℕ) (xs : List A)
      → IsPage time test per (page_rows offset per (ordered time order (select test xs)))
  unfolding page_rows
  page_rows-IsPage time test order offset per xs =
      let all = ordered time order (select test xs) in
      (
        omega (arith, length-take per (drop offset all)),
        Every-take _ per _ (
            Every-drop _ offset all (
              Every-ordered (λ x. test x ≡ true) time order (select test xs)
                (Every-select test xs))),
        Descending-take time per _
            (Descending-drop time offset all (Descending-ordered time order (select test xs))),
      )

  list_rows-IsPage :
      (table : Db → List A) (time : A → Time) (test : A → Bool) (page per : ℕ) (env : Env)
      (w : World) (rows : List A) (total : ℕ)
      → (list_rows table time test page per env w).0 ≡ ok (rows, total)
      → IsPage time test per rows
  unfolding list_rows
  list_rows-IsPage table time test page per env w rows total =
      let count : Action ℕ = exec (or_err internal) (select_from (λ d. affected test (table d))) in
      let order : List ℕ = (env (count env w).1.calls).scan in
      let wanted : Db → List A = λ d. ordered time order (select test (table d)) in
      let rows_of : Action (List A) =
        exec (or_err internal) (paged (page_offset page per) per wanted) in
      elim (Result-cases (count env w).0) [
        | inr (x, e) ↦ rw (e, ◌>>=◌) (λ k. absurd (cc k))
        | inl (n, e) ↦
            rw (e, ◌>>=◌)
              (elim (Result-cases (rows_of env (count env w).1).0) [
                | inr (x, f) ↦ rw (f, ◌>>=◌) (λ k. absurd (cc k))
                | inl (found, f) ↦
                    rw (f, ◌>>=◌)
                      (λ k.
                        let (offset, it) =
                          paged-ok per wanted env (count env w).1 (page_offset page per) found f in
                        let same : found ≡ rows = ap (λ r. r.0) (ok_unique k) in
                        subst (IsPage time test per) (it ∙ same) (
                          page_rows-IsPage time test order offset per
                            (table (seen env (count env w).1))))
              ])
      ]

-- What `List` of payments answers is a page: it has at most as many payments as asked for, each
-- of them meets every condition of the filter, and none is older than one after it.
pub list_payments-IsPage :
    (f : PaymentFilter) (env : Env) (w : World) (rows : List Payment) (total : ℕ)
    → (list_payments f env w).0 ≡ ok (rows, total)
    → IsPage (λ q. q.created_at) (payment_matches f) (default_per_page f.per_page) rows
unfolding list_payments
list_payments-IsPage f env w rows total =
    list_rows-IsPage (λ d. d.payments) (λ q. q.created_at) (payment_matches f) (default_page f.page)
      (default_per_page f.per_page) env w rows total
