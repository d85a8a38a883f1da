-- ===== src/Auth/Oidc/Chains.antt =====
-- The steps of a request in internal/infra/auth/oidc.py that passed, from a chain that passed.
use washing.Prelude.{◌≡◌, ◌≢◌, ap, refl, ℕ, Text}
use washing.Auth.Oidc.Documents.{Caches, Checked, passed, denied, crashed, Session, after, ◌>>=◌}

pub passed_inj : {A : Type 0} {a b : A} → ◌≡◌ {A = Checked A} (passed a) (passed b) → a ≡ b
passed_inj h = cc

pub denied-ne :
    {A : Type 0} {status : ℕ} {detail : Text} {a : A} {c c' : Caches}
    → ◌≢◌ {A = Checked A × Caches} (denied status detail, c) (passed a, c')
denied-ne h = let e = ap (λ p. p.0) h in cc

pub crashed-ne :
    {A : Type 0} {a : A} {c c' : Caches} → ◌≢◌ {A = Checked A × Caches} (crashed, c) (passed a, c')
crashed-ne h = let e = ap (λ p. p.0) h in cc

module _ {A B : Type 0} where
  -- A chain that passed: its first part passed.
  pub >>=-passed :
      (m : Session A) (f : A → Session B) (c c' : Caches) (b : B)
      → (m >>= f) c ≡ (passed b, c')
      → (a : A) × (d : Caches) × (m c ≡ (passed a, d)) × (f a d ≡ (passed b, c'))
  >>=-passed m f c c' b h = go (m c) refl h
    where
      go :
          (r : Checked A × Caches)
          → m c ≡ r
          → after r f ≡ (passed b, c')
          → (a : A) × (d : Caches) × (m c ≡ (passed a, d)) × (f a d ≡ (passed b, c'))
      go (passed a, d) e h = (a, d, e, h)
      go (denied status detail, d) e h = absurd (denied-ne h)
      go (crashed, d) e h = absurd (crashed-ne h)
