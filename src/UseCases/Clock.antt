-- ===== src/UseCases/Clock.antt =====
-- `now - timedelta(...)` as internal/usecases/ computes its cutoffs. Moments count microseconds
-- from the year 1, the first that a `datetime` can hold.
use washing.Prelude.{ℕ, ◌*◌, ◌-◌, leb, Option, none, some, if◌then◌else◌}

abbrev pub seconds : ℕ → ℕ
seconds n = n * 1000000

abbrev pub days : ℕ → ℕ
days n = seconds (n * 86400)

-- `none` for the OverflowError
abbrev pub earlier : ℕ → ℕ → Option ℕ
earlier now delta = if leb delta now then some (now - delta) else none
