-- ===== src/Config/Validity.antt =====
-- What Validate of internal/config/config.go accepts.
use text.Mathlib.TextEquality.{eq_iff}
use community_waste_collecti.Base.{
  ℕ, ◌≤◌, ◌≡◌, ◌≢◌, ◌↔◌, ◌⊎◌, refl, inl, inr, String, Bool, true, false, Option, none, some, arith,
  ◌==◌, string_eq, Bool-cases, Option-cases, if◌then◌else◌, ℤ, pos, negsuc, below,
}
use community_waste_collecti.Strconv.{atoi}
use community_waste_collecti.Config.{Numbers, Config, validate, is_no_port}

-- An integer that is a natural number in a range
abbrev pub From : ℕ → ℤ → Type 0
From low x = (n : ℕ) × (x ≡ pos n) × (low ≤ n)

abbrev pub IsPort : String → Type 0
IsPort text = (n : ℕ) × (atoi text ≡ some (pos n)) × (1 ≤ n) × (n ≤ 65535)

-- Comparison of floating-point numbers: what is not below a number is at least that, or not a number.
abbrev pub Ieee : {Float : Type 0} → Numbers Float → (Float → Bool) → (Float → ℕ → Bool) → Type 0
Ieee num is_nan at_least =
    (x : _) (n : ℕ) → (num.less_than x n ≡ false) ↔ ((at_least x n ≡ true) ⊎ (is_nan x ≡ true))

-- The ranges of a configuration, with what is known of its rate
pub record Ranges (Rate : Type 0) {Float : Type 0} (c : Config Float) : Type 0 where
  pub organic_days : From 1 c.worker_organic_cutoff_days
  pub interval : From 1000000000 c.worker_cancel_interval
  pub rps : Rate
  pub burst : From 1 c.rate_limit_burst
  pub upload : From 1 c.max_upload_size_mb
  pub port : IsPort c.app_port
  pub database : c.database_url ≢ ""
  pub open_conns : From 1 c.db_max_open_conns
  pub idle_conns : From 0 c.db_max_idle_conns

abbrev pub Accepted : {Float : Type 0} → (Float → Bool) → (Float → ℕ → Bool) → Config Float → Type 0
Accepted is_nan at_least c =
    Ranges ((at_least c.rate_limit_rps 1 ≡ true) ⊎ (is_nan c.rate_limit_rps ≡ true)) c

below-From : (x : ℤ) (low : ℕ) → below x low ≡ false → From low x
below-From (pos n) low e = (n, refl, ground arith)
below-From (negsuc n) low e = absurd (cc e)

From-below : (x : ℤ) (low : ℕ) → From low x → below x low ≡ false
From-below x low (n, e, h) = rw e (ground arith)

is_no_port-IsPort : (text : String) → is_no_port (atoi text) ≡ false → IsPort text
is_no_port-IsPort text = elim (Option-cases (atoi text)) [
  | inl e ↦ rw e (λ k. absurd (cc k))
  | inr (v, e) ↦ rw e (in_range v)
]
  where
    in_range :
        (v : ℤ)
        → is_no_port (some v) ≡ false
        → (n : ℕ) × (◌≡◌ {A = Option ℤ} (some v) (some (pos n))) × (1 ≤ n) × (n ≤ 65535)
    in_range (pos n) k = (n, refl, ground arith, ground arith)
    in_range (negsuc n) k = absurd (cc k)

IsPort-is_no_port : (text : String) → IsPort text → is_no_port (atoi text) ≡ false
IsPort-is_no_port text (n, e, low, high) = rw e (ground arith)

-- One test of Validate
accepts :
    (b : Bool) (name : String) (rest : Option String)
    → (if b then some name else rest) ≡ none
    → (b ≡ false) × (rest ≡ none)
accepts true name rest k = absurd (cc k)
accepts false name rest k = (refl, k)

not_empty : (text : String) → (text == "") ≡ false → text ≢ ""
not_empty text e h = let same = (eq_iff text "").1 h in absurd (cc (e, same))

empty_not : (text : String) → text ≢ "" → (text == "") ≡ false
empty_not text h = elim (Bool-cases (text == "")) [
  | inl same ↦ absurd (h ((eq_iff text "").0 same))
  | inr other ↦ other
]

-- The tests of Validate, one by one
pub validate-Ranges :
    {Float : Type 0} (num : Numbers Float) (c : Config Float)
    → (validate num c ≡ none) ↔ Ranges (num.less_than c.rate_limit_rps 1 ≡ false) c
unfolding validate
validate-Ranges num c = (to, from)
  where
    to : validate num c ≡ none → Ranges (num.less_than c.rate_limit_rps 1 ≡ false) c
    to k =
        let (days, k1) = accepts _ _ _ k in
        let (interval, k2) = accepts _ _ _ k1 in
        let (rps, k3) = accepts _ _ _ k2 in
        let (burst, k4) = accepts _ _ _ k3 in
        let (upload, k5) = accepts _ _ _ k4 in
        let (port, k6) = accepts _ _ _ k5 in
        let (url, k7) = accepts _ _ _ k6 in
        let (open_conns, k8) = accepts _ _ _ k7 in
        let (idle, k9) = accepts _ _ _ k8 in
        record {
          organic_days = below-From c.worker_organic_cutoff_days 1 days;
          interval = below-From c.worker_cancel_interval 1000000000 interval;
          rps = rps;
          burst = below-From c.rate_limit_burst 1 burst;
          upload = below-From c.max_upload_size_mb 1 upload;
          port = is_no_port-IsPort c.app_port port;
          database = not_empty c.database_url url;
          open_conns = below-From c.db_max_open_conns 1 open_conns;
          idle_conns = below-From c.db_max_idle_conns 0 idle;
        }

    from : Ranges (num.less_than c.rate_limit_rps 1 ≡ false) c → validate num c ≡ none
    from v =
        rw
          (
            From-below c.worker_organic_cutoff_days 1 v.organic_days,
            From-below c.worker_cancel_interval 1000000000 v.interval,
            v.rps,
            From-below c.rate_limit_burst 1 v.burst,
            From-below c.max_upload_size_mb 1 v.upload,
            IsPort-is_no_port c.app_port v.port,
            empty_not c.database_url v.database,
            From-below c.db_max_open_conns 1 v.open_conns,
            From-below c.db_max_idle_conns 0 v.idle_conns,
          )
          refl

at_rate :
    {Rate Other : Type 0} {Float : Type 0} {c : Config Float}
    → (Rate → Other)
    → Ranges Rate c
    → Ranges Other c
at_rate f v = record {
  organic_days = v.organic_days;
  interval = v.interval;
  rps = f v.rps;
  burst = v.burst;
  upload = v.upload;
  port = v.port;
  database = v.database;
  open_conns = v.open_conns;
  idle_conns = v.idle_conns;
}

-- Validate accepts a configuration exactly if the cutoff, the burst, the upload size and the open
-- connections are at least 1, the interval of the worker is at least a second, the rate is at least 1
-- or not a number, the API port is a decimal number from 1 to 65535, the database URL is not empty, and the number
-- of idle connections is not negative.
pub validate-Accepted :
    {Float : Type 0} (num : Numbers Float) (is_nan : Float → Bool) (at_least : Float → ℕ → Bool)
    (c : Config Float)
    → Ieee num is_nan at_least
    → (validate num c ≡ none) ↔ Accepted is_nan at_least c
validate-Accepted num is_nan at_least c ieee =
    let known = ieee c.rate_limit_rps 1 in
    let (to, from) = validate-Ranges num c in
    (λ k. at_rate known.0 (to k), λ v. from (at_rate known.1 v))
