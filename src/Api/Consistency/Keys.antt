-- ===== src/Api/Consistency/Keys.antt =====
-- Tables of rows with distinct keys stay so: after an update, a deletion, and an insert under a new
-- key.
use mathlib.Core.Path.{subst}
use washing.Prelude.{
  ℕ, ◌≡◌, ◌==◌, ◌<◌, inl, inr, refl, sym, Bool, true, false, none, List, [], ◌∷◌, ◌++◌, map,
  keep_if, All, arith, Bool-cases, if◌then◌else◌,
}
use washing.Db.{get, update, changed, HasDistinctKeys, get-update, none_neq_some}
use washing.Api.Consistency.Tables.{get-keep_if-none}

module _ {A : Type 0} (key : A → ℕ) where
  pub keys-keep_if :
      (t : A → Bool) (rows : List A)
      → HasDistinctKeys key rows
      → HasDistinctKeys key (keep_if t rows)
  keys-keep_if t [] u = tt
  keys-keep_if t (r ∷ rs) u = elim (Bool-cases (t r)) [
    | inl e ↦ rw e (get-keep_if-none key t rs (key r) u.0, keys-keep_if t rs u.1)
    | inr e ↦ rw e (keys-keep_if t rs u.1)
  ]

  module _ (f : A → A) (keeps : (a : A) → key (f a) ≡ key a) where
    get-map-none :
        (rows : List A) (id : ℕ) → get key rows id ≡ none → get key (map f rows) id ≡ none
    unfolding get
    get-map-none [] id h = refl
    get-map-none (r ∷ rs) id h = elim (Bool-cases (key r == id)) [
      | inl e ↦ absurd (none_neq_some r (sym (rw e at h)))
      | inr e ↦ rw (keeps r, e) (get-map-none rs id (rw e at h))
    ]

    pub keys-map : (rows : List A) → HasDistinctKeys key rows → HasDistinctKeys key (map f rows)
    keys-map [] u = tt
    keys-map (r ∷ rs) u = (rw (keeps r) (get-map-none rs (key r) u.0), keys-map rs u.1)

    get-update-none :
        (id : ℕ) (rows : List A) (j : ℕ)
        → get key rows j ≡ none
        → get key (update key id f rows) j ≡ none
    get-update-none id rows j h = rw (get-update key f id j rows keeps, h) (both (id == j))
      where
        both : (b : Bool) → (if b then changed f none else none) ≡ none
        both true = refl
        both false = refl

    key-if : (b : Bool) (r : A) → key (if b then f r else r) ≡ key r
    key-if true r = keeps r
    key-if false r = refl

    pub keys-update :
        (id : ℕ) (rows : List A)
        → HasDistinctKeys key rows
        → HasDistinctKeys key (update key id f rows)
    unfolding update
    keys-update id [] u = tt
    keys-update id (r ∷ rs) u = (
      subst (λ j. get key (update key id f rs) j ≡ none) (sym (key-if (key r == id) r))
          (get-update-none id rs (key r) u.0),
      keys-update id rs u.1,
    )

  get-snoc-none :
      (rows : List A) (a : A) (id : ℕ)
      → get key rows id ≡ none
      → (key a == id) ≡ false
      → get key (rows ++ (a ∷ [])) id ≡ none
  unfolding get
  get-snoc-none [] a id h d = rw d refl
  get-snoc-none (r ∷ rs) a id h d = elim (Bool-cases (key r == id)) [
    | inl e ↦ absurd (none_neq_some r (sym (rw e at h)))
    | inr e ↦ rw e (get-snoc-none rs a id (rw e at h) d)
  ]

  keys-snoc :
      (rows : List A) (a : A)
      → All (λ r. (key r == key a) ≡ false) rows
      → HasDistinctKeys key rows
      → HasDistinctKeys key (rows ++ (a ∷ []))
  unfolding get
  keys-snoc [] a fresh u = (refl, tt)
  keys-snoc (r ∷ rs) a fresh u =
      (get-snoc-none rs a (key r) u.0 (ground (arith, fresh.0)), keys-snoc rs a fresh.1 u.1)

  below-apart :
      (rows : List A) (n : ℕ) → All (λ r. key r < n) rows → All (λ r. (key r == n) ≡ false) rows
  below-apart [] n h = tt
  below-apart (r ∷ rs) n h = (ground (arith, h.0), below-apart rs n h.1)

  -- The next number of the sequence is a new key.
  pub keys-next :
      (rows : List A) (a : A)
      → All (λ r. key r < key a) rows
      → HasDistinctKeys key rows
      → HasDistinctKeys key (rows ++ (a ∷ []))
  keys-next rows a h u = keys-snoc rows a (below-apart rows (key a) h) u
