-- ===== src/Config/Accepted.antt =====
-- What the other parts rely on of settings that internal/infra/config/settings.py accepts.
use washing.Prelude.{
  &&-true, ℕ, zero, suc, ◌%◌, ◌≤◌, ◌≡◌, refl, ap, sym, ◌∙◌, Bool, true, Text, ℤ, pos, negsuc, arith,
  leb→le, ==_iff,
}
use washing.Config.{
  RawSettings, is_positive, is_aligned, is_at_most, is_identifier, validate_positive_retention_days,
  validate_positive_optimization_settings, validate_ram_bounds_are_gib_aligned,
  validate_optimization_bound_order, accepts_settings,
}
use washing.UseCases.Optimizations.Defs.{Settings}

-- A validated integer is a positive natural number.
abbrev pub IsPositive : ℤ → ℕ → Type 0
IsPositive z n = (z ≡ pos n) × (1 ≤ n)

positive : (z : ℤ) → is_positive z ≡ true → (n : ℕ) × IsPositive z n
unfolding is_positive
positive (pos zero) h = absurd (ground arith)
positive (pos (suc n)) h = (suc n, (refl, omega arith))
positive (negsuc n) h = absurd (ground arith)

aligned : (z : ℤ) (n : ℕ) → z ≡ pos n → is_aligned z ≡ true → n % 1024 ≡ 0
unfolding is_aligned
aligned z n e h = (==_iff (n % 1024) 0).0 (ap is_aligned (sym e) ∙ h)

ordered : (y z : ℤ) (m n : ℕ) → y ≡ pos m → z ≡ pos n → is_at_most y z ≡ true → m ≤ n
unfolding is_at_most
ordered y z m n e f h =
    leb→le m n (ap (is_at_most (pos m)) (sym f) ∙ ap (λ x. is_at_most x z) (sym e) ∙ h)

-- Settings that are accepted are natural numbers with a window, with the minimum of each resource at
-- most its maximum, and with bounds of the memory in whole steps.
pub accepts_settings-Bounds :
    (accepts_key : Text → Bool) (r : RawSettings)
    → accepts_settings accepts_key r ≡ true
    → (s : Settings) × IsPositive r.window_size s.window_size
      × IsPositive r.min_cpu s.min_cpu
      × IsPositive r.max_cpu s.max_cpu
      × IsPositive r.min_ram_mb s.min_ram_mb
      × IsPositive r.max_ram_mb s.max_ram_mb
      × (s.min_cpu ≤ s.max_cpu)
      × (s.min_ram_mb ≤ s.max_ram_mb)
      × (s.min_ram_mb % 1024 ≡ 0)
      × (s.max_ram_mb % 1024 ≡ 0)
unfolding accepts_settings validate_positive_optimization_settings
    validate_ram_bounds_are_gib_aligned validate_optimization_bound_order
accepts_settings-Bounds accepts_key r h =
    let (_, h1) = &&-true (accepts_key r.database_encryption_key) _ h in
    let (_, h2) = &&-true (is_identifier r.database_schema) _ h1 in
    let (_, h3) = &&-true (validate_positive_retention_days r) _ h2 in
    let (sizes, h4) = &&-true (validate_positive_optimization_settings r) _ h3 in
    let (steps, order) = &&-true (validate_ram_bounds_are_gib_aligned r) _ h4 in
    let (p1, q1) = &&-true (is_positive r.window_size) _ sizes in
    let (p2, q2) = &&-true (is_positive r.min_cpu) _ q1 in
    let (p3, q3) = &&-true (is_positive r.max_cpu) _ q2 in
    let (p4, p5) = &&-true (is_positive r.min_ram_mb) (is_positive r.max_ram_mb) q3 in
    let (a1, a2) = &&-true (is_aligned r.min_ram_mb) (is_aligned r.max_ram_mb) steps in
    let (o1, o2) =
      &&-true (is_at_most r.min_cpu r.max_cpu) (is_at_most r.min_ram_mb r.max_ram_mb) order in
    let (w, w_pos) = positive r.window_size p1 in
    let (c, c_pos) = positive r.min_cpu p2 in
    let (d, d_pos) = positive r.max_cpu p3 in
    let (m, m_pos) = positive r.min_ram_mb p4 in
    let (n, n_pos) = positive r.max_ram_mb p5 in
    (
      record { window_size = w; min_cpu = c; max_cpu = d; min_ram_mb = m; max_ram_mb = n },
      w_pos,
      c_pos,
      d_pos,
      m_pos,
      n_pos,
      ordered r.min_cpu r.max_cpu c d c_pos.0 d_pos.0 o1,
      ordered r.min_ram_mb r.max_ram_mb m n m_pos.0 n_pos.0 o2,
      aligned r.min_ram_mb m m_pos.0 a1,
      aligned r.max_ram_mb n n_pos.0 a2,
    )
