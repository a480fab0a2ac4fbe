-- ===== src/RouteExtract/Parity.antt =====
-- The verdict of cmd/route-extract/main.go, against RegisterRoutes of internal/handler/handler.go.
use Prim.Native.Char.{code}
use Prim.Native.String
use text.Mathlib.Text.{is_le}
use text.Mathlib.TextEquality.{eq_iff}
use community_waste_collecti.Base.{
  ℕ, ◌≡◌, ◌↔◌, refl, sym, subst, ◌∙◌, ap, inl, inr, String, Bool, true, false, not, ◌&&◌, ◌||◌,
  List, [], ◌∷◌, map, some, ◌==◌, nat_eq, string_eq, arith, if◌then◌else◌, Bool-cases, &&-eq-true,
}
use community_waste_collecti.Handler.Routes.{Route, register_routes}
use community_waste_collecti.RouteExtract.{
  keep_if, insert_sorted, sort_strings, contains, difference, is_empty, is_product, main, scan,
  extract_openapi_paths, extract_handler_routes,
}

-- A path of echo in the form of OpenAPI: `:id` as `{id}`. The flag says that a name is open.
braced : Bool → String → String
braced open_name String.[] = if open_name then "}" else ""
braced open_name (String.◌∷◌ c s) =
    let starts = code c == 58 in
    let ends = code c == 47 in
    let rest = braced (starts || (open_name && not ends)) s in
    if starts
    then String.◌++◌ "{" rest
    else if open_name && ends
    then String.◌++◌ "}/" rest
    else String.◌∷◌ c rest

-- A row of RegisterRoutes in the form of an OpenAPI document
pub route_text : Route → String
unfolding braced
route_text r = String.◌++◌ r.method (String.◌++◌ " " (braced false r.path))

-- The routes of RegisterRoutes, less the operational ones
pub product_routes : List String
unfolding keep_if is_product route_text register_routes
product_routes = keep_if is_product (map route_text register_routes)

routes_in_sync : product_routes ≡ extract_handler_routes
unfolding product_routes extract_handler_routes
routes_in_sync = refl

contains-insert :
    (r s : String) (ss : List String) → contains (insert_sorted s ss) r ≡ (s == r || contains ss r)
unfolding contains insert_sorted
contains-insert r s [] = refl
contains-insert r s (t ∷ ts) = elim (Bool-cases (is_le (String.compare s t))) [
  | inl first ↦ rw first refl
  | inr later ↦ rw later (ground (arith, contains-insert r s ts))
]

contains-sort : (r : String) (ss : List String) → contains (sort_strings ss) r ≡ contains ss r
unfolding contains sort_strings
contains-sort r [] = refl
contains-sort r (s ∷ ss) =
    contains-insert r s (sort_strings ss) ∙ ap (λ b. s == r || b) (contains-sort r ss)

is_empty-sort : (ss : List String) → is_empty (sort_strings ss) ≡ is_empty ss
unfolding sort_strings
is_empty-sort [] = refl
is_empty-sort (s ∷ ss) = go s (sort_strings ss)
  where
    go : (t : String) (ts : List String) → is_empty (insert_sorted t ts) ≡ false
    go t [] = unfold insert_sorted in refl
    go t (u ∷ us) = unfold insert_sorted in ground arith

-- Every text of a list is in another.
abbrev Within : List String → List String → Type 0
Within a b = (r : String) → contains a r ≡ true → contains b r ≡ true

difference-Within :
    (a b : List String) → is_empty (keep_if (λ v. not (contains b v)) a) ≡ true → Within a b
unfolding contains keep_if
difference-Within [] b e r h = absurd (cc h)
difference-Within (v ∷ vs) b e r h = elim (Bool-cases (contains b v)) [
  | inr missing ↦ absurd (ground (arith, e, missing))
  | inl there ↦ elim (Bool-cases (v == r)) [
    | inl same ↦ subst (λ (x : String). contains b x ≡ true) ((eq_iff v r).0 same) there
    | inr other ↦ difference-Within vs b (rw there at e) r (rw other at h)
  ]
]

Within-difference :
    (a b : List String) → Within a b → is_empty (keep_if (λ v. not (contains b v)) a) ≡ true
unfolding contains keep_if
Within-difference [] b h = refl
Within-difference (v ∷ vs) b h =
    let itself : (v == v) ≡ true = (eq_iff v v).1 refl in
    let there : contains b v ≡ true = h v (rw itself refl) in
    let rest : Within vs b = λ r k. h r (rw k (ground arith)) in
    rw there (Within-difference vs b rest)

bool_iff : (a b : Bool) → (a ≡ true → b ≡ true) → (b ≡ true → a ≡ true) → a ≡ b
bool_iff true true f g = refl
bool_iff false false f g = refl
bool_iff true false f g = sym (f refl)
bool_iff false true f g = g refl

-- The routes of an OpenAPI document, in the order of its lines
abbrev pub documented : List String → List String
documented lines = keep_if is_product (scan "" lines)

-- Both differences are empty exactly if the lists hold the same texts.
no_difference :
    (a b : List String)
    → ((is_empty (difference a b) && is_empty (difference b a)) ≡ true)
      ↔ ((r : String) → contains a r ≡ contains b r)
unfolding difference
no_difference a b = (to, from)
  where
    empty_of :
        (x y : List String)
        → is_empty (sort_strings (keep_if (λ v. not (contains y v)) x)) ≡ true
        → Within x y
    empty_of x y e = difference-Within x y (sym (is_empty-sort _) ∙ e)

    to :
        (is_empty (sort_strings (keep_if (λ v. not (contains b v)) a))
            && is_empty (sort_strings (keep_if (λ v. not (contains a v)) b)))
          ≡ true
        → (r : String) → contains a r ≡ contains b r
    to e r =
        let (first, second) = &&-eq-true _ _ e in
        bool_iff (contains a r) (contains b r) (empty_of a b first r) (empty_of b a second r)

    from :
        ((r : String) → contains a r ≡ contains b r)
        → (is_empty (sort_strings (keep_if (λ v. not (contains b v)) a))
            && is_empty (sort_strings (keep_if (λ v. not (contains a v)) b)))
          ≡ true
    from same =
        rw
          (
            is_empty-sort (keep_if (λ v. not (contains b v)) a),
            is_empty-sort (keep_if (λ v. not (contains a v)) b),
            Within-difference a b (λ r k. sym (same r) ∙ k),
            Within-difference b a (λ r k. same r ∙ k),
          )
          refl

exit_zero : (b : Bool) → (◌≡◌ {A = ℕ} (if b then 0 else 1) 0) ↔ (b ≡ true)
exit_zero true = (λ e. refl, λ e. refl)
exit_zero false = (λ e. absurd (omega (arith, e)), λ e. absurd (cc e))

-- route-extract exits with 0 on a document that can be read exactly if the product routes of
-- the document, as its lines give them, are those that RegisterRoutes registers.
pub main_checks_parity :
    (lines : List String)
    → (main (some lines) ≡ 0)
      ↔ ((r : String) → contains product_routes r ≡ contains (documented lines) r)
unfolding main extract_openapi_paths
main_checks_parity lines =
    let paths = sort_strings (documented lines) in
    let exit = exit_zero (
      is_empty (difference extract_handler_routes paths)
      && is_empty (difference paths extract_handler_routes)) in
    let parity = no_difference extract_handler_routes paths in
    (
      λ e r.
          ap (λ rs. contains rs r) routes_in_sync
          ∙ parity.0 (exit.0 e) r
          ∙ contains-sort r (documented lines),
      λ same. exit.1 (
          parity.1 (λ r.
            ap (λ rs. contains rs r) (sym routes_in_sync)
            ∙ same r
            ∙ sym (contains-sort r (documented lines)))),
    )
