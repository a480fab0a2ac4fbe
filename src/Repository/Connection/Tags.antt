-- ===== src/Repository/Connection/Tags.antt =====
-- injectApplicationName of internal/repository/db.go on connection strings of keywords.
use Prim.Native.Char.{Char}
use Prim.Native.String.append
use Prim.Native.String
use community_waste_collecti.Base.{
  String, ◌≡◌, ◌≢◌, refl, ◌∙◌, ap, true, false, inl, inr, Bool-cases, ◌==◌, nat_eq, string_eq,
  arith,
}
use community_waste_collecti.Repository.Connection.{
  UrlPackage, has_prefix, str_contains, is_url, keyword, inject_application_name,
}

nil_append : (t : String) → String.◌++◌ "" t ≡ t
nil_append t = λ i. append.nil t i

cons_append :
    (c : Char) (s t : String) → String.◌++◌ (String.◌∷◌ c s) t ≡ String.◌∷◌ c (String.◌++◌ s t)
cons_append c s t = λ i. append.cons c s t i

has_prefix-append : (p t : String) → has_prefix (String.◌++◌ p t) p ≡ true
unfolding has_prefix
has_prefix-append String.[] t = refl
has_prefix-append (String.◌∷◌ c p) t =
    rw (cons_append c p t) (ground (arith, has_prefix-append p t))

-- What stands in a text stands there with more before it.
contains-append_left :
    (s u sub : String) → str_contains u sub ≡ true → str_contains (String.◌++◌ s u) sub ≡ true
unfolding str_contains
contains-append_left String.[] u sub h = rw (nil_append u) h
contains-append_left (String.◌∷◌ c s) u sub h =
    rw (cons_append c s u) (ground (arith, contains-append_left s u sub h))

contains-prefix : (s sub : String) → has_prefix s sub ≡ true → str_contains s sub ≡ true
unfolding str_contains
contains-prefix String.[] sub h = h
contains-prefix (String.◌∷◌ c s) sub h = ground (arith, h)

starts_tagged : (name : String) → str_contains (String.◌++◌ keyword name) keyword ≡ true
starts_tagged name =
    contains-prefix (String.◌++◌ keyword name) keyword (has_prefix-append keyword name)

ends_tagged :
    (dsn name : String)
    → str_contains (String.◌++◌ dsn (String.◌++◌ " application_name=" name)) keyword ≡ true
unfolding str_contains
ends_tagged dsn name = contains-append_left dsn (String.◌++◌ " application_name=" name) keyword (
    ap (λ (s : String). str_contains s keyword) (cons_append " " keyword name) ∙ starts_tagged name)

-- A connection string of keywords has an application name when a configured name has been injected,
-- whether it had one before, was empty, or had other keywords only.
pub keywords_are_tagged :
    {Url : Type 0} (url : UrlPackage Url) (dsn name : String)
    → name ≢ ""
    → is_url dsn ≡ false
    → str_contains (inject_application_name url dsn name) keyword ≡ true
unfolding inject_application_name
keywords_are_tagged url dsn name given no_url = elim (Bool-cases (name == "")) [
  | inl e ↦ absurd (given ((string_eq.equals_iff name "").0 e))
  | inr e ↦ elim (Bool-cases (str_contains dsn keyword)) [
    | inl has ↦ rw (e, no_url, has) has
    | inr lacks ↦ elim (Bool-cases (dsn == "")) [
      | inl nothing ↦ rw (e, no_url, lacks, nothing) (starts_tagged name)
      | inr more ↦ rw (e, no_url, lacks, more) (ends_tagged dsn name)
    ]
  ]
]
