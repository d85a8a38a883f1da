-- ===== src/Api/Consistency/Tables.antt =====
-- Tables of rows with a key: what holds of all rows, or of each two, after a change of one row.
use mathlib.Core.Path.{subst}
use washing.Prelude.{
  ℕ, ◌≡◌, ◌==◌, ==_iff, ◌⊎◌, inl, inr, some_inj, refl, sym, ap, ◌∙◌, Bool, true, false, none, some,
  List, [], ◌∷◌, ◌++◌, map, keep_if, All, arith, Bool-cases,
}
use washing.Db.{get, update, HasDistinctKeys, none_neq_some}

module _ {A : Type 0} where
  -- Each two rows, in the order of the table.
  abbrev pub Pairwise : (A → A → Type 0) → List A → Type 0
  Pairwise R [] = Unit
  Pairwise R (x ∷ xs) = All (R x) xs × Pairwise R xs

  pub All-imp : (P Q : A → Type 0) (xs : List A) → All P xs → ((x : A) → P x → Q x) → All Q xs
  All-imp P Q [] h f = tt
  All-imp P Q (x ∷ xs) h f = (f x h.0, All-imp P Q xs h.1 f)

  pub All-map :
      (P : A → Type 0) (f : A → A) (xs : List A) → All (λ x. P (f x)) xs → All P (map f xs)
  All-map P f [] h = tt
  All-map P f (x ∷ xs) h = (h.0, All-map P f xs h.1)

  pub All-keep_if : (P : A → Type 0) (t : A → Bool) (xs : List A) → All P xs → All P (keep_if t xs)
  All-keep_if P t [] h = tt
  All-keep_if P t (x ∷ xs) h = elim (Bool-cases (t x)) [
    | inl e ↦ rw e (h.0, All-keep_if P t xs h.1)
    | inr e ↦ rw e (All-keep_if P t xs h.1)
  ]

  pub All-snoc : (P : A → Type 0) (xs : List A) (y : A) → All P xs → P y → All P (xs ++ (y ∷ []))
  All-snoc P [] y h k = (k, tt)
  All-snoc P (x ∷ xs) y h k = (h.0, All-snoc P xs y h.1 k)

  module _ (R : A → A → Type 0) where
    pub Pairwise-map :
        (f : A → A) (xs : List A)
        → ((x y : A) → R x y → R (f x) (f y))
        → Pairwise R xs
        → Pairwise R (map f xs)
    Pairwise-map f [] up h = tt
    Pairwise-map f (x ∷ xs) up h = (
      All-map (R (f x)) f xs (All-imp (R x) (λ y. R (f x) (f y)) xs h.0 (up x)),
      Pairwise-map f xs up h.1,
    )

    pub Pairwise-keep_if : (t : A → Bool) (xs : List A) → Pairwise R xs → Pairwise R (keep_if t xs)
    Pairwise-keep_if t [] h = tt
    Pairwise-keep_if t (x ∷ xs) h = elim (Bool-cases (t x)) [
      | inl e ↦ rw e (All-keep_if (R x) t xs h.0, Pairwise-keep_if t xs h.1)
      | inr e ↦ rw e (Pairwise-keep_if t xs h.1)
    ]

    pub Pairwise-snoc :
        (xs : List A) (y : A) → Pairwise R xs → All (λ x. R x y) xs → Pairwise R (xs ++ (y ∷ []))
    Pairwise-snoc [] y h k = (tt, tt)
    Pairwise-snoc (x ∷ xs) y h k = (All-snoc (R x) xs y h.0 k.0, Pairwise-snoc xs y h.1 k.1)

module _ {A : Type 0} (key : A → ℕ) where
  pub get-key : (rows : List A) (id : ℕ) (a : A) → get key rows id ≡ some a → key a ≡ id
  unfolding get
  get-key [] id a h = ground arith
  get-key (r ∷ rs) id a h = elim (Bool-cases (key r == id)) [
    | inl e ↦ ap key (sym (some_inj (rw e at h))) ∙ (==_iff (key r) id).0 e
    | inr e ↦ get-key rs id a (rw e at h)
  ]

  pub get-All :
      (P : A → Type 0) (rows : List A) (id : ℕ) (a : A)
      → All P rows
      → get key rows id ≡ some a
      → P a
  unfolding get
  get-All P [] id a all h = absurd (none_neq_some a h)
  get-All P (r ∷ rs) id a all h = elim (Bool-cases (key r == id)) [
    | inl e ↦ subst P (some_inj (rw e at h)) all.0
    | inr e ↦ get-All P rs id a all.1 (rw e at h)
  ]

  pub get-keep_if :
      (t : A → Bool) (rows : List A) (id : ℕ) (a : A)
      → get key rows id ≡ some a
      → t a ≡ true
      → get key (keep_if t rows) id ≡ some a
  unfolding get
  get-keep_if t [] id a h k = h
  get-keep_if t (r ∷ rs) id a h k = elim (Bool-cases (key r == id)) [
    | inl e ↦
        let same : r ≡ a = some_inj (rw e at h) in
        let kept : t r ≡ true = ap t same ∙ k in rw (kept, e, same)
    | inr e ↦ elim (Bool-cases (t r)) [
      | inl d ↦ rw (d, e) (get-keep_if t rs id a (rw e at h) k)
      | inr d ↦ rw d (get-keep_if t rs id a (rw e at h) k)
    ]
  ]

  pub get-keep_if-none :
      (t : A → Bool) (rows : List A) (id : ℕ)
      → get key rows id ≡ none
      → get key (keep_if t rows) id ≡ none
  unfolding get
  get-keep_if-none t [] id h = refl
  get-keep_if-none t (r ∷ rs) id h = elim (Bool-cases (key r == id)) [
    | inl e ↦ absurd (none_neq_some r (sym (rw e at h)))
    | inr e ↦ elim (Bool-cases (t r)) [
      | inl d ↦ rw (d, e) (get-keep_if-none t rs id (rw e at h))
      | inr d ↦ rw d (get-keep_if-none t rs id (rw e at h))
    ]
  ]

  pub get-snoc :
      (rows : List A) (id : ℕ) (a b : A)
      → get key rows id ≡ some a
      → get key (rows ++ (b ∷ [])) id ≡ some a
  unfolding get
  get-snoc [] id a b h = absurd (none_neq_some a h)
  get-snoc (r ∷ rs) id a b h = elim (Bool-cases (key r == id)) [
    | inl e ↦ rw e (rw e at h)
    | inr e ↦ rw e (get-snoc rs id a b (rw e at h))
  ]

  pub get-absent :
      (rows : List A) (id : ℕ) → get key rows id ≡ none → All (λ r. (key r == id) ≡ false) rows
  unfolding get
  get-absent [] id h = tt
  get-absent (r ∷ rs) id h = elim (Bool-cases (key r == id)) [
    | inl e ↦ absurd (none_neq_some r (sym (rw e at h)))
    | inr e ↦ (e, get-absent rs id (rw e at h))
  ]

  pub absent-get :
      (rows : List A) (id : ℕ) → All (λ r. (key r == id) ≡ false) rows → get key rows id ≡ none
  unfolding get
  absent-get [] id h = refl
  absent-get (r ∷ rs) id h = rw h.0 (absent-get rs id h.1)

  pub update-absent :
      (f : A → A) (rows : List A) (id : ℕ)
      → All (λ r. (key r == id) ≡ false) rows
      → update key id f rows ≡ rows
  unfolding update
  update-absent f [] id h = refl
  update-absent f (r ∷ rs) id h = rw h.0 (ap (λ t. r ∷ t) (update-absent f rs id h.1))

  module _ (f : A → A) (id : ℕ) (p : A) where
    -- The head that has the key is the row that is found, and no other row has the key.
    alone :
        (r : A) (rs : List A)
        → (key r == id) ≡ true
        → get key (r ∷ rs) id ≡ some p
        → HasDistinctKeys key (r ∷ rs)
        → (r ≡ p) × All (λ r. (key r == id) ≡ false) rs
    unfolding get
    alone r rs e h u = (
      some_inj (rw e at h),
      get-absent rs id (subst (λ k. get key rs k ≡ none) ((==_iff (key r) id).0 e) u.0),
    )

    pub update-All :
        (P : A → Type 0) (rows : List A)
        → get key rows id ≡ some p
        → HasDistinctKeys key rows
        → All P rows
        → P (f p)
        → All P (update key id f rows)
    unfolding get update
    update-All P [] h u all now = tt
    update-All P (r ∷ rs) h u all now = elim (Bool-cases (key r == id)) [
      | inl e ↦
          let (same, rest) = alone r rs e h u in
          rw (e, update-absent f rs id rest) (subst (λ x. P (f x)) (sym same) now, all.1)
      | inr e ↦ rw e (all.0, update-All P rs (rw e at h) u.1 all.1 now)
    ]

    -- Each row but that of the key is so related.
    abbrev pub Others : (A → Type 0) → List A → Type 0
    Others Q rows = All (λ r. ((key r == id) ≡ true) ⊎ Q r) rows

    Others-All :
        (Q : A → Type 0) (rows : List A)
        → All (λ r. (key r == id) ≡ false) rows
        → Others Q rows
        → All Q rows
    Others-All Q [] h k = tt
    Others-All Q (r ∷ rs) h (inl e, k) = absurd (ground arith)
    Others-All Q (r ∷ rs) h (inr q, k) = (q, Others-All Q rs h.1 k)

    other : (Q : A → Type 0) (r : A) → (key r == id) ≡ false → ((key r == id) ≡ true) ⊎ Q r → Q r
    other Q r e (inl d) = absurd (ground arith)
    other Q r e (inr q) = q

    module _ (R : A → A → Type 0) (swap : (x y : A) → R x y → R y x) where
      pub update-Pairwise :
          (rows : List A)
          → get key rows id ≡ some p
          → HasDistinctKeys key rows
          → Pairwise R rows
          → Others (R (f p)) rows
          → Pairwise R (update key id f rows)
      unfolding get update
      update-Pairwise [] h u all now = tt
      update-Pairwise (r ∷ rs) h u all now = elim (Bool-cases (key r == id)) [
        | inl e ↦
            let (same, rest) = alone r rs e h u in
            rw (e, update-absent f rs id rest)
              (subst (λ x. All (R (f x)) rs) (sym same) (Others-All (R (f p)) rs rest now.1), all.1)
        | inr e ↦ rw e (
          update-All (R r) rs (rw e at h) u.1 all.0 (swap (f p) r (other (R (f p)) r e now.0)),
          update-Pairwise rs (rw e at h) u.1 all.1 now.1,
        )
      ]

      -- Each other row is related to the row that is found.
      pub Pairwise-get :
          (rows : List A)
          → get key rows id ≡ some p
          → HasDistinctKeys key rows
          → Pairwise R rows
          → Others (R p) rows
      unfolding get
      Pairwise-get [] h u all = tt
      Pairwise-get (r ∷ rs) h u all = elim (Bool-cases (key r == id)) [
        | inl e ↦
            let (same, rest) = alone r rs e h u in
            (
              inl e,
              All-imp (R p) (λ r. ((key r == id) ≡ true) ⊎ R p r) rs
                  (subst (λ x. All (R x) rs) same all.0) (λ x k. inr k),
            )
        | inr e ↦ (
          inr (swap r p (get-All (R r) rs id p all.0 (rw e at h))),
          Pairwise-get rs (rw e at h) u.1 all.1,
        )
      ]
