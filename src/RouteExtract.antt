-- ===== src/RouteExtract.antt =====
-- cmd/route-extract/main.go. A file is its lines, as bufio.Scanner gives them, or `none` where it
-- cannot be read.
pub mod Parity
use Prim.Native.Char.{Char, code}
use Prim.Native.String
use text.Mathlib.Text.{starts_with, is_le}
use community_waste_collecti.Base.{
  ℕ, String, Bool, true, false, not, ◌&&◌, ◌||◌, List, [], ◌∷◌, ◌++◌, Option, none, some, ◌==◌,
  nat_eq, string_eq, leb, if◌then◌else◌,
}

-- strings.HasSuffix
unfoldable pub ends_with : String → String → Bool
ends_with String.[] suffix = suffix == ""
ends_with (String.◌∷◌ c s) suffix =
    let later = ends_with s suffix in String.◌∷◌ c s == suffix || later

-- unicode.IsSpace
abbrev pub is_space : Char → Bool
is_space c =
    (leb 9 (code c) && leb (code c) 13)
    || code c == 32
    || code c == 133
    || code c == 160
    || code c == 5760
    || (leb 8192 (code c) && leb (code c) 8202)
    || code c == 8232
    || code c == 8233
    || code c == 8239
    || code c == 8287
    || code c == 12288

unfoldable pub trim_left : String → String
trim_left String.[] = ""
trim_left (String.◌∷◌ c s) = let rest = trim_left s in if is_space c then rest else String.◌∷◌ c s

unfoldable pub trim_right : String → String
trim_right String.[] = ""
trim_right (String.◌∷◌ c s) =
    let rest = trim_right s in if rest == "" && is_space c then "" else String.◌∷◌ c rest

-- strings.TrimSpace
unfoldable pub trim_space : String → String
unfolding trim_left trim_right
trim_space s = trim_right (trim_left s)

-- strings.TrimSuffix(s, ":")
unfoldable pub trim_colon : String → String
trim_colon String.[] = ""
trim_colon (String.◌∷◌ c s) =
    let rest = trim_colon s in if String.◌∷◌ c s == ":" then "" else String.◌∷◌ c rest

-- A top-level path entry
unfoldable pub is_path_line : String → Bool
unfolding ends_with trim_space
is_path_line line = starts_with line "  /" && ends_with (trim_space line) ":"

-- The methods, as a line has them and in capitals
abbrev pub methods : List (String × String)
methods =
    ("get:", "GET")
    ∷ ("post:", "POST")
    ∷ ("put:", "PUT")
    ∷ ("delete:", "DELETE")
    ∷ ("patch:", "PATCH")
    ∷ []

-- The loop over the methods, up to its break
unfoldable pub method_route : String → String → List (String × String) → List String
method_route trimmed path [] = []
method_route trimmed path ((m, upper) ∷ ms) =
    let rest = method_route trimmed path ms in
    if trimmed == m then String.◌++◌ upper (String.◌++◌ " " path) ∷ [] else rest

-- The path that is current after a line
unfoldable pub next_path : String → String → String
unfolding is_path_line trim_colon trim_space
next_path current line = if is_path_line line then trim_colon (trim_space line) else current

-- The routes of a line
unfoldable pub line_routes : String → String → List String
unfolding is_path_line method_route trim_space
line_routes current line =
    if is_path_line line
    then []
    else if not (current == "") && starts_with line "    "
    then method_route (trim_space line) current methods
    else []

unfoldable pub scan : String → List String → List String
unfolding next_path line_routes
scan current [] = []
scan current (line ∷ lines) = line_routes current line ++ scan (next_path current line) lines

-- Not an operational endpoint
unfoldable pub is_product : String → Bool
unfolding ends_with
is_product r = not (ends_with r "/health") && not (ends_with r "/readyz")

unfoldable pub keep_if : (String → Bool) → List String → List String
keep_if test [] = []
keep_if test (r ∷ rs) = let rest = keep_if test rs in if test r then r ∷ rest else rest

unfoldable pub insert_sorted : String → List String → List String
insert_sorted r [] = r ∷ []
insert_sorted r (s ∷ ss) =
    let rest = insert_sorted r ss in if is_le (String.compare r s) then r ∷ s ∷ ss else s ∷ rest

-- sort.Strings
unfoldable pub sort_strings : List String → List String
unfolding insert_sorted
sort_strings [] = []
sort_strings (r ∷ rs) = insert_sorted r (sort_strings rs)

unfoldable pub extract_openapi_paths : List String → List String
unfolding scan keep_if is_product sort_strings
extract_openapi_paths lines = sort_strings (keep_if is_product (scan "" lines))

unfoldable pub extract_handler_routes : List String
extract_handler_routes =
    "POST /api/households" ∷ "GET /api/households" ∷ "GET /api/households/{id}"
    ∷ "DELETE /api/households/{id}" ∷ "POST /api/pickups" ∷ "GET /api/pickups"
    ∷ "PUT /api/pickups/{id}/schedule" ∷ "PUT /api/pickups/{id}/complete"
    ∷ "PUT /api/pickups/{id}/cancel" ∷ "POST /api/payments" ∷ "GET /api/payments"
    ∷ "PUT /api/payments/{id}/confirm" ∷ "GET /api/reports/waste-summary"
    ∷ "GET /api/reports/payment-summary" ∷ "GET /api/reports/households/{id}/history" ∷ []

-- A key of the map `set`
unfoldable pub contains : List String → String → Bool
contains [] r = false
contains (s ∷ ss) r = s == r || contains ss r

unfoldable pub difference : List String → List String → List String
unfolding keep_if contains sort_strings
difference a b = sort_strings (keep_if (λ v. not (contains b v)) a)

abbrev pub is_empty : List String → Bool
is_empty [] = true
is_empty (r ∷ rs) = false

-- The exit code of main
unfoldable pub main : Option (List String) → ℕ
unfolding extract_openapi_paths extract_handler_routes difference
main none = 1
main (some lines) =
    let paths = extract_openapi_paths lines in
    let missing = difference extract_handler_routes paths in
    let extra = difference paths extract_handler_routes in
    if is_empty missing && is_empty extra then 0 else 1
