-- ===== src/Repository/Lists/Offsets.antt =====
-- The offset of a page in the List methods of internal/repository, and what becomes of one that does
-- not fit into 64 bits.
use community_waste_collecti.Base.{
  ℕ, ◌-◌, ◌*◌, ◌%◌, ◌≤◌, inl, inr, ◌<◌, ◌≡◌, refl, ◌∙◌, ap, Bool, List, ℤ, pos, negsuc, arith,
}
use community_waste_collecti.Domain.{Time, Error, ok, err, internal_failure, Result-cases}
use community_waste_collecti.Database.{
  Db, Env, World, Action, Outcome, query, select_from, done, failed_with, exec, or_err, internal,
  ◌>>=◌,
}
use community_waste_collecti.Database.Calls.{seen, select-db, select-result, query-done, or_err-ok}
use community_waste_collecti.Table.{affected, select}
use community_waste_collecti.Repository.Lists.{page_offset, page_rows, paged, list_rows, ordered}

pub page_offset-fits :
    (page per : ℕ)
    → (page - 1) * per < 9223372036854775808
    → page_offset page per ≡ pos ((page - 1) * per)
unfolding page_offset
page_offset-fits page per h = ground arith

page_offset-wraps :
    (page per : ℕ)
    → 9223372036854775808 ≤ (page - 1) * per % 18446744073709551616
    → page_offset page per ≡ negsuc (18446744073709551615 - (page - 1) * per % 18446744073709551616)
unfolding page_offset
page_offset-wraps page per low = ground arith

module _ {A : Type 0} (per : ℕ) (rows : Db → List A) (env : Env) (w : World) where
  pub paged-db : (z : ℤ) → (query (paged z per rows) env w).1.db ≡ seen env w
  unfolding paged query
  paged-db (pos offset) = select-db (λ d. page_rows offset per (rows d)) env w
  paged-db (negsuc n) = ground arith

  -- An answer is a page of the rows that the statement met.
  pub paged-ok :
      (z : ℤ) (found : List A)
      → (exec (or_err internal) (paged z per rows) env w).0 ≡ ok found
      → (offset : ℕ) × (page_rows offset per (rows (seen env w)) ≡ found)
  unfolding paged
  paged-ok (pos offset) found e =
      let page_of : Db → List A = λ d. page_rows offset per (rows d) in
      (
        offset,
        select-result page_of env w found
            (or_err-ok internal (query (select_from page_of) env w).0 found e),
      )
  paged-ok (negsuc n) found e =
      let answered = or_err-ok internal (query (paged (negsuc n) per rows) env w).0 found e in
      absurd (cc ((query-done (paged (negsuc n) per rows) env w found answered).0))

  paged-negative :
      (n : ℕ) → (exec (or_err internal) (paged (negsuc n) per rows) env w).0 ≡ err internal_failure
  unfolding paged query
  paged-negative n = ground arith

internal_only :
    {A : Type 0} (o : Outcome A) (x : Error) → or_err internal o ≡ err x → x ≡ internal_failure
internal_only (done a) x e = absurd (cc e)
internal_only (failed_with y) x e = cc e

-- With a product that wraps round to a negative number, List fails whatever the tables hold.
pub list_rows-overflow :
    {A : Type 0} (table : Db → List A) (created_at : A → Time) (test : A → Bool) (page per : ℕ)
    (env : Env) (w : World)
    → 9223372036854775808 ≤ (page - 1) * per % 18446744073709551616
    → (list_rows table created_at test page per env w).0 ≡ err internal_failure
unfolding list_rows
list_rows-overflow {A} table created_at test page per env w wraps =
    let count : Action ℕ = exec (or_err internal) (select_from (λ d. affected test (table d))) in
    let order : List ℕ = (env (count env w).1.calls).scan in
    let wanted : Db → List A = λ d. ordered created_at order (select test (table d)) in
    let n = 18446744073709551615 - (page - 1) * per % 18446744073709551616 in
    elim (Result-cases (count env w).0) [
      | inr (x, e) ↦ rw (e, ◌>>=◌) (ap err (internal_only _ x e))
      | inl (total, e) ↦
          let fails =
            ap (λ z. (exec (or_err internal) (paged z per wanted) env (count env w).1).0)
              (page_offset-wraps page per wraps)
            ∙ paged-negative per wanted env (count env w).1 n in
          rw (e, fails, ◌>>=◌) refl
    ]
