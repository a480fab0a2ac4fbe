-- ===== src/Base/Int.antt =====
-- Go's `int` and time.Duration, inside their 64 bits: an integer of either sign.
use Prim.Native.Nat.{ℕ, zero, suc, ◌+◌, ◌-◌, ◌*◌, ◌%◌}
use mathlib.Core.Bool.{Bool, true}
use community_waste_collecti.Base.Tests.{ltb, if◌then◌else◌}

-- `negsuc n` is -(n + 1).
pub data ℤ : Type 0 where
  pos : ℕ → ℤ
  negsuc : ℕ → ℤ

-- `x < bound`, for a bound that is not negative
abbrev pub below : ℤ → ℕ → Bool
below (pos n) bound = ltb n bound
below (negsuc n) bound = true

-- What an int64 keeps of a number, and of the negative of one.
abbrev pub int64 : ℕ → ℤ
int64 n =
    let low = n % 18446744073709551616 in
    if ltb low 9223372036854775808 then pos low else negsuc (18446744073709551615 - low)

abbrev pub negative : ℕ → ℤ
negative zero = pos 0
negative (suc n) = negsuc n

abbrev pub int64_negative : ℕ → ℤ
int64_negative n =
    let low = n % 18446744073709551616 in
    if ltb 9223372036854775808 low then pos (18446744073709551616 - low) else negative low

-- `x * k` in 64 bits, for a k that is not negative
abbrev pub times64 : ℤ → ℕ → ℤ
times64 (pos n) k = int64 (n * k)
times64 (negsuc n) k = int64_negative ((n + 1) * k)
