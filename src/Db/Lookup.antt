-- ===== src/Db/Lookup.antt =====
-- What a lookup by key finds in a table of internal/infra/db/models.py after updates by key.
use washing.Prelude.{
  ℕ, ◌≢◌, ◌≡◌, refl, ap, sym, ◌∙◌, ◌==◌, ==_iff, ==_refl, Bool, true, false, ◌||◌, Option, none,
  some, List, [], ◌∷◌, any, All, arith, Bool-cases, inl, inr, if◌then◌else◌,
}
use washing.Db.Rows.{get, update}

-- `id in ids`
abbrev pub elem_id : ℕ → List ℕ → Bool
elem_id j ids = any (λ i. i == j) ids

module _ {A : Type 0} where
  abbrev pub changed : (A → A) → Option A → Option A
  changed f none = none
  changed f (some a) = some (f a)

  -- A change if a test holds.
  abbrev pub changed_if : Bool → (A → A) → A → A
  changed_if b f a = if b then f a else a

pub none_neq_some : {A : Type 0} (a : A) → ◌≢◌ {A = Option A} none (some a)
none_neq_some a e = ground arith

module _ {A : Type 0} (key : A → ℕ) where
  -- `f` on the row of each id, in turn.
  unfoldable pub update_each : List ℕ → (A → A) → List A → List A
  unfolding update
  update_each [] f rows = rows
  update_each (i ∷ ids) f rows = update_each ids f (update key i f rows)

  abbrev pub HasDistinctKeys : List A → Type 0
  HasDistinctKeys [] = Unit
  HasDistinctKeys (r ∷ rs) = (get key rs (key r) ≡ none) × HasDistinctKeys rs

  pub get-update :
      (f : A → A) (i j : ℕ) (rows : List A)
      → ((a : A) → key (f a) ≡ key a)
      → get key (update key i f rows) j
        ≡ (if i == j then changed f (get key rows j) else get key rows j)
  unfolding get update
  get-update f i j [] keeps = ground arith
  get-update f i j (r ∷ rs) keeps = ground (arith, get-update f i j rs keeps, keeps r)

  pub changed-false : (f : A → A) (o : Option A) → changed (changed_if false f) o ≡ o
  changed-false f none = refl
  changed-false f (some a) = refl

  pub changed_twice :
      (f : A → A) (b c : Bool) (o : Option A)
      → ((a : A) → f (f a) ≡ f a)
      → changed (changed_if b f) (if c then changed f o else o) ≡ changed (changed_if (c || b) f) o
  changed_twice f b c none twice = ground arith
  changed_twice f true true (some a) twice = ap some (twice a)
  changed_twice f true false (some a) twice = refl
  changed_twice f false true (some a) twice = refl
  changed_twice f false false (some a) twice = refl

  pub get-update_each :
      (f : A → A) (ids : List ℕ) (j : ℕ) (rows : List A)
      → ((a : A) → key (f a) ≡ key a)
      → ((a : A) → f (f a) ≡ f a)
      → get key (update_each ids f rows) j ≡ changed (changed_if (elem_id j ids) f) (get key rows j)
  unfolding update_each
  get-update_each f [] j rows keeps twice = sym (changed-false f (get key rows j))
  get-update_each f (i ∷ ids) j rows keeps twice =
      get-update_each f ids j (update key i f rows) keeps twice
      ∙ ap (changed (changed_if (elem_id j ids) f)) (get-update f i j rows keeps)
      ∙ changed_twice f (elem_id j ids) (i == j) (get key rows j) twice

  stored-cons :
      (r : A) (rs ps : List A)
      → get key rs (key r) ≡ none
      → All (λ p. get key rs (key p) ≡ some p) ps
      → All (λ p. get key (r ∷ rs) (key p) ≡ some p) ps
  unfolding get
  stored-cons r rs [] fresh h = tt
  stored-cons r rs (p ∷ ps) fresh h = (
    elim (Bool-cases (key r == key p)) [
      | inl e ↦
          absurd
            (none_neq_some p (sym fresh ∙ ap (get key rs) ((==_iff (key r) (key p)).0 e) ∙ h.0))
      | inr e ↦ rw e h.0
    ],
    stored-cons r rs ps fresh h.1,
  )

  -- With distinct keys, the row under the key of a row is that row.
  pub get-stored :
      (rows : List A) → HasDistinctKeys rows → All (λ p. get key rows (key p) ≡ some p) rows
  unfolding get
  get-stored [] u = tt
  get-stored (r ∷ rs) u = (rw (==_refl (key r)) refl, stored-cons r rs rs u.0 (get-stored rs u.1))
