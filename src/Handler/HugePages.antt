-- ===== src/Handler/HugePages.antt =====
-- Page numbers that internal/handler accepts and internal/repository multiplies out of 64 bits.
use community_waste_collecti.Base.{ℕ, zero, suc, ◌-◌, ◌*◌, ◌%◌, ◌≤◌, ◌≡◌, refl, arith, nat_eq}
use community_waste_collecti.Domain.{PaymentFilter, err, internal_failure}
use community_waste_collecti.Database.{Env, World}
use community_waste_collecti.Repository.Lists as Rows
use community_waste_collecti.Repository.Lists.{default_page, default_per_page, payment_matches}
use community_waste_collecti.Repository.Lists.Offsets.{list_rows-overflow}
use community_waste_collecti.Service.Payments.{list}
use community_waste_collecti.Handler.Responses.{reached, finished, failure, refusal, map_error}
use community_waste_collecti.Handler.Handling.{◌>>=◌, call}
use community_waste_collecti.Handler.Paging.{Query}
use community_waste_collecti.Handler.Filters.{payment_filter}
use community_waste_collecti.Handler.Requests.{Packages}
use community_waste_collecti.Handler.Payments.{list_payments}

defaults_unused :
    (page per : ℕ)
    → 9223372036854775808 ≤ (page - 1) * per % 18446744073709551616
    → (default_page page ≡ page) × (default_per_page per ≡ per)
unfolding default_page default_per_page
defaults_unused zero per h = absurd (omega arith)
defaults_unused (suc page) zero h = absurd (omega arith)
defaults_unused (suc page) (suc per) h = (ground arith, ground arith)

-- Where paginationParams accepts a page and a size whose product wraps round to a negative number in
-- 64 bits, ListPayments answers 500, whatever the tables hold and whatever its connection does.
pub huge_page_is_an_internal_error :
    {Body Decimal : Type 0} (pkg : Packages Body Decimal) (q : Query) (f : PaymentFilter)
    (env : Env) (w : World)
    → payment_filter pkg q ≡ reached f
    → 9223372036854775808 ≤ (f.page - 1) * f.per_page % 18446744073709551616
    → finished (list_payments pkg q env w).0 ≡ failure (refusal 500 "INTERNAL_ERROR")
unfolding list_payments call map_error list Rows.list_payments
huge_page_is_an_internal_error pkg q f env w e wraps =
    let (at, of) = defaults_unused f.page f.per_page wraps in
    let fails : (list f env w).0 ≡ err internal_failure =
      list_rows-overflow (λ d. d.payments) (λ p. p.created_at) (payment_matches f)
        (default_page f.page) (default_per_page f.per_page) env w (rw (at, of) wraps) in
    rw (e, fails, ◌>>=◌) refl
