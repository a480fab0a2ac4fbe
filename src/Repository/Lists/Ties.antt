-- ===== src/Repository/Lists/Ties.antt =====
-- ORDER BY created_at DESC of internal/repository where no two rows have one creation time: the order
-- in which the rows are found does not matter.
use community_waste_collecti.Base.{ℕ, zero, suc, ◌≡◌, ◌≢◌, refl, sym, ◌∙◌, ap, List, [], ◌∷◌, arith}
use community_waste_collecti.Domain.{Time}
use community_waste_collecti.Repository.Lists.{
  insert_newest, newest_first, insert_at, arrange, ordered,
}
use community_waste_collecti.Repository.Lists.Order.{Every, Every-arrange}

module _ {A : Type 0} (time : A → Time) where
  -- No two rows were created at one time.
  abbrev pub Distinct : List A → Type 0
  Distinct [] = Unit {0}
  Distinct (x ∷ xs) = Every (λ y. time x ≢ time y) xs × Distinct xs

  insert-swap :
      (x y : A) (zs : List A)
      → time x ≢ time y
      → insert_newest time x (insert_newest time y zs)
        ≡ insert_newest time y (insert_newest time x zs)
  unfolding insert_newest
  insert-swap x y [] h = ground arith
  insert-swap x y (z ∷ zs) h = ground (arith, insert-swap x y zs h)

  newest-insert_at :
      (n : ℕ) (x : A) (xs : List A)
      → Every (λ y. time x ≢ time y) xs
      → newest_first time (insert_at n x xs) ≡ insert_newest time x (newest_first time xs)
  unfolding newest_first insert_at
  newest-insert_at zero x xs h = refl
  newest-insert_at (suc n) x [] h = refl
  newest-insert_at (suc n) x (y ∷ ys) h =
      ap (insert_newest time y) (newest-insert_at n x ys h.1)
      ∙ sym (insert-swap x y (newest_first time ys) h.0)

  pub ordered-newest :
      (order : List ℕ) (xs : List A) → Distinct xs → ordered time order xs ≡ newest_first time xs
  unfolding ordered arrange newest_first
  ordered-newest [] xs h = refl
  ordered-newest (n ∷ ns) [] h = refl
  ordered-newest (n ∷ ns) (x ∷ xs) h =
      newest-insert_at n x (arrange ns xs) (Every-arrange (λ y. time x ≢ time y) ns xs h.0)
      ∙ ap (insert_newest time x) (ordered-newest ns xs h.1)
