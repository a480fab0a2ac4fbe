-- ===== src/Repository/Lists/Pages.antt =====
-- The pages of the List methods of internal/repository, taken together.
use native.Mathlib.Nat.{lt-mul-div-succ, div-mul-le_self}
use community_waste_collecti.Base.{
  ℕ, zero, suc, ◌+◌, ◌-◌, ◌*◌, ◌/◌, ◌≤◌, ◌<◌, ◌≡◌, refl, sym, subst, ◌∙◌, ap, Bool, true, List, [],
  ◌∷◌, ◌++◌, take, length, take-add, take_all, arith, Bool-cases, ◌==◌, nat_eq, inl, inr, pos,
}
use community_waste_collecti.Table.{affected, select}
use community_waste_collecti.Domain.{Time, WastePickup, PickupFilter, ok}
use community_waste_collecti.Database.{
  exec, or_err, internal, select_from, Db, Env, World, Action, delivered, pure, ◌>>=◌,
}
use community_waste_collecti.Database.Calls.{bind-ok, select-answer}
use community_waste_collecti.Repository.Lists.{
  insert_newest, newest_first, ordered, page_offset, page_rows, paged, list_rows, list_pickups,
  pickup_matches, default_page, default_per_page,
}
use community_waste_collecti.Repository.Lists.Ties.{Distinct, ordered-newest}
use community_waste_collecti.Repository.Lists.Offsets.{page_offset-fits}
use community_waste_collecti.Handler.{total_pages}

module _ {A : Type 0} where
  affected-select : (test : A → Bool) (xs : List A) → affected test xs ≡ length (select test xs)
  unfolding affected select
  affected-select test [] = refl
  affected-select test (x ∷ xs) = ground (arith, affected-select test xs)

  length-insert :
      (time : A → Time) (x : A) (xs : List A) → length (insert_newest time x xs) ≡ suc (length xs)
  unfolding insert_newest
  length-insert time x [] = refl
  length-insert time x (y ∷ ys) = ground (arith, length-insert time x ys)

  length-newest : (time : A → Time) (xs : List A) → length (newest_first time xs) ≡ length xs
  unfolding newest_first
  length-newest time [] = refl
  length-newest time (x ∷ xs) =
      length-insert time x (newest_first time xs) ∙ ap (λ (n : ℕ). suc n) (length-newest time xs)

  page-next :
      (n per : ℕ) (xs : List A)
      → take (n * per) xs ++ page_rows (n * per) per xs ≡ take (suc n * per) xs
  unfolding page_rows
  page-next n per xs =
      let b : n * per + per ≡ suc n * per = omega arith in
      sym (take-add (n * per) per xs) ∙ ap (λ (k : ℕ). take k xs) b

is_zero : (q : ℕ) → (q == 0) ≡ true → q ≡ 0
is_zero q e = ground arith

total_pages_enough : (total per : ℕ) → 0 < per → total ≤ total_pages total per * per
unfolding total_pages
total_pages_enough total per h =
    let q : ℕ = (total + per - 1) / per in
    let whole : total + per - 1 < per * (q + 1) = lt-mul-div-succ (total + per - 1) h in
    let spread : per * (q + 1) ≡ q * per + per = omega arith in
    elim (Bool-cases (q == 0)) [
      | inl zero_pages ↦
          let few : total + per - 1 < per * (0 + 1) =
            subst (λ k. total + per - 1 < per * (k + 1)) (is_zero q zero_pages) whole in
          rw zero_pages (omega (arith, few, h))
      | inr many ↦ rw many (omega (arith, whole, spread, h))
    ]

-- The last of the pages begins before the end of the rows.
total_pages_le : (total per : ℕ) → total_pages total per * per ≤ total + per
unfolding total_pages
total_pages_le total per =
    let q : ℕ = (total + per - 1) / per in
    elim (Bool-cases (q == 0)) [
      | inl zero_pages ↦ rw zero_pages (omega arith)
      | inr many ↦ rw many (omega (arith, div-mul-le_self (total + per - 1) per))
    ]

-- Pages that are asked for one after another.
abbrev pub fetch_pages : PickupFilter → ℕ → Action (List WastePickup)
fetch_pages f zero = pure []
fetch_pages f (suc n) = do
  earlier ← fetch_pages f n
  answer ← list_pickups (record f { page = suc n })
  pure (earlier ++ answer.0)

list_rows-answer :
    {A : Type 0} (table : Db → List A) (created_at : A → Time) (test : A → Bool)
    (page per offset : ℕ) (env : Env) (w : World)
    → page_offset page per ≡ pos offset
    → ((n : ℕ) → (env n).reply ≡ delivered)
    → ((n : ℕ) (d : Db) → (env n).others d ≡ d)
    → Distinct created_at (select test (table w.db))
    → list_rows table created_at test page per env w ≡ (
      ok (
        page_rows offset per (newest_first created_at (select test (table w.db))),
        affected test (table w.db),
      ),
      record w { calls = suc (suc w.calls) },
    )
unfolding list_rows paged
list_rows-answer {A} table created_at test page per offset env w fits works quiet distinct =
    let next : World = record w { calls = suc w.calls } in
    let order : List ℕ = (env next.calls).scan in
    let wanted : Db → List A = λ d. ordered created_at order (select test (table d)) in
    let rows : Action (List A) = exec (or_err internal) (paged (page_offset page per) per wanted) in
    bind-ok (exec (or_err internal) (select_from (λ d. affected test (table d))))
      (λ total env w.
        (exec (or_err internal) (
              paged (page_offset page per) per
                (λ d. ordered created_at (env w.calls).scan (select test (table d))))
            >>= λ found. pure (found, total))
          env w)
      env w (select-answer (λ d. affected test (table d)) env w (works w.calls) (quiet w.calls))
    ∙ bind-ok rows (λ found. pure (found, affected test (table w.db))) env next
        (ap (λ z. exec (or_err internal) (paged z per wanted) env next) fits
          ∙ select-answer (λ d. page_rows offset per (wanted d)) env next (works next.calls)
              (quiet next.calls))
    ∙ ap
        (λ xs. (
          ok (page_rows offset per xs, affected test (table w.db)),
          record w { calls = suc (suc w.calls) },
        ))
        (ordered-newest created_at order (select test (table w.db)) distinct)

-- The calls that n pages take.
abbrev later : ℕ → World → World
later zero w = w
later (suc n) w = record (later n w) { calls = suc (suc (later n w).calls) }

later-db : (n : ℕ) (w : World) → (later n w).db ≡ w.db
later-db zero w = refl
later-db (suc n) w = later-db n w

default_page-suc : (n : ℕ) → default_page (suc n) ≡ suc n
unfolding default_page
default_page-suc n = ground arith

per-positive : (f : PickupFilter) → 0 < default_per_page f.per_page
unfolding default_per_page
per-positive f = ground arith

module _ (f : PickupFilter) (env : Env) (w : World) (works : (n : ℕ) → (env n).reply ≡ delivered)
    (quiet : (n : ℕ) (d : Db) → (env n).others d ≡ d)
    (distinct : Distinct (λ p. p.created_at) (select (pickup_matches f) w.db.pickups)) where
  -- all the rows that the filter asks for
  abbrev wanted : List WastePickup
  wanted = newest_first (λ p. p.created_at) (select (pickup_matches f) w.db.pickups)

  abbrev per : ℕ
  per = default_per_page f.per_page

  offset-fits :
      (n : ℕ)
      → n * per < 9223372036854775808
      → page_offset (default_page (suc n)) per ≡ pos (n * per)
  offset-fits n h =
      let at : suc n - 1 ≡ n = omega arith in
      ap (λ (k : ℕ). page_offset k per) (default_page-suc n)
      ∙ page_offset-fits (suc n) per (subst (λ k. k * per < 9223372036854775808) (sym at) h)
      ∙ ap (λ (k : ℕ). pos (k * per)) at

  page-answer :
      (n : ℕ)
      → n * per < 9223372036854775808
      → list_pickups (record f { page = suc n }) env (later n w) ≡ (
        ok (page_rows (n * per) per wanted, affected (pickup_matches f) w.db.pickups),
        later (suc n) w,
      )
  unfolding list_pickups pickup_matches
  page-answer n h =
      list_rows-answer (λ d. d.pickups) (λ p. p.created_at) (pickup_matches f)
        (default_page (suc n)) per (n * per) env (later n w) (offset-fits n h) works quiet
        (subst (λ (d : Db). Distinct (λ p. p.created_at) (select (pickup_matches f) d.pickups))
          (sym (later-db n w)) distinct)
      ∙ ap
          (λ (d : Db). (
            ok (
              page_rows (n * per) per
                  (newest_first (λ p. p.created_at) (select (pickup_matches f) d.pickups)),
              affected (pickup_matches f) d.pickups,
            ),
            later (suc n) w,
          ))
          (later-db n w)

  fetch-answer :
      (n : ℕ)
      → n * per < 9223372036854775808 + per
      → fetch_pages f n env w ≡ (ok (take (n * per) wanted), later n w)
  fetch-answer zero h =
      let none : 0 * per ≡ 0 = omega arith in ap (λ (k : ℕ). (ok (take k wanted), w)) (sym none)
  fetch-answer (suc n) h =
      let more : n * per + per ≡ suc n * per = omega arith in
      let before : n * per < 9223372036854775808 = omega (arith, more, h) in
      bind-ok (fetch_pages f n)
        (λ earlier.
          list_pickups (record f { page = suc n }) >>= λ answer. pure (earlier ++ answer.0))
        env w (fetch-answer n (omega (arith, before)))
      ∙ bind-ok (list_pickups (record f { page = suc n }))
          (λ answer. pure (take (n * per) wanted ++ answer.0)) env (later n w)
          (page-answer n before)
      ∙ ap (λ rows. (ok rows, later (suc n) w)) (page-next n per wanted)

  -- A client that is alone on a connection that works, and asks for as many pages of pickups as the
  -- envelope of the list announces, gets the sorted list of the rows that the filter asks for, where
  -- no two of these were created at one time and their number fits into an int. In which order the
  -- database finds the rows may differ from page to page.
  pub pages_cover_the_list :
      affected (pickup_matches f) w.db.pickups < 9223372036854775808
      → (fetch_pages f (total_pages (affected (pickup_matches f) w.db.pickups) per) env w).0
        ≡ ok (newest_first (λ p. p.created_at) (select (pickup_matches f) w.db.pickups))
  pages_cover_the_list fits =
      let total : ℕ = affected (pickup_matches f) w.db.pickups in
      let size : length wanted ≡ total =
        length-newest (λ p. p.created_at) (select (pickup_matches f) w.db.pickups)
        ∙ sym (affected-select (pickup_matches f) w.db.pickups) in
      let enough = total_pages_enough total per (per-positive f) in
      ap (λ s. s.0)
        (fetch-answer (total_pages total per) (omega (arith, fits, total_pages_le total per)))
      ∙ ap ok (take_all (total_pages total per * per) wanted (omega (arith, size, enough)))
