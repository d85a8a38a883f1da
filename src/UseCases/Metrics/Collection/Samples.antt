-- ===== src/UseCases/Metrics/Collection/Samples.antt =====
-- What the loop of a collection of internal/usecases/metrics.py makes of the records it is given.
use washing.Prelude.{
  ℕ, suc, ◌≡◌, refl, sym, ap, ◌∙◌, ◌==◌, Bool, true, false, ◌&&◌, Option, none, some, or_else,
  is_some, List, [], ◌∷◌, ◌++◌, find, ℤ, arith, Bool-cases, inl, inr, if◌then◌else◌,
}
use washing.Db.{Metric}
use washing.UseCases.Metrics.Defs.{
  Pending, Sample, upsert_sample, flush, and_then, is_same_day, set_value,
}

-- What holds of the outcome, if nothing raised.
abbrev pub Holds : {A : Type 0} → (A → Type 0) → Option A → Type 0
Holds P none = Unit
Holds P (some a) = P a

module _ {A : Type 0} where
  pub Holds-and_then :
      (P : A → Type 0) (m : Option A) (f : A → Option A)
      → Holds (λ q. Holds P (f q)) m
      → Holds P (and_then m f)
  Holds-and_then P none f h = tt
  Holds-and_then P (some q) f h = h

  pub Holds-if : (P : A → Type 0) (b : Bool) (a : A) → P a → Holds P (if b then some a else none)
  Holds-if P true a h = h
  Holds-if P false a h = tt

  pub Holds-imp : (P Q : A → Type 0) (o : Option A) → ((a : A) → P a → Q a) → Holds P o → Holds Q o
  Holds-imp P Q none k h = tt
  Holds-imp P Q (some a) k h = k a h

  pub or_else_assoc : (a b c : Option A) → or_else (or_else a b) c ≡ or_else a (or_else b c)
  or_else_assoc none b c = refl
  or_else_assoc (some x) b c = refl

  or_else-none : (a : Option A) → or_else a none ≡ a
  or_else-none none = refl
  or_else-none (some x) = refl

  no_some : (a : Option A) → is_some a ≡ false → a ≡ none
  no_some none h = refl
  no_some (some x) h = cc

-- The sample of a provider, a machine and a day.
module _ (provider machine date : ℕ) where
  abbrev is_at : Metric → Bool
  is_at r = r.provider_id == provider && (r.machine_id == machine && r.date == date)

  abbrev pub is_for : Sample → Bool
  is_for s = s.provider_id == provider && (s.machine_id == machine && s.date == date)

  abbrev pub value_at : List Metric → Option ℤ
  value_at [] = none
  value_at (r ∷ rs) = if is_at r then some r.value else value_at rs

  abbrev pub own : Sample → Option ℤ
  own s = if is_for s then some s.value else none

  -- The last of the samples that were added.
  abbrev pub added_at : List Sample → Option ℤ
  added_at [] = none
  added_at (s ∷ ss) = or_else (added_at ss) (own s)

  abbrev replaced : Bool → ℤ → Option ℤ → Option ℤ
  replaced b v none = none
  replaced b v (some w) = if b then some v else some w

  replaced-false : (v : ℤ) (o : Option ℤ) → replaced false v o ≡ o
  replaced-false v none = refl
  replaced-false v (some w) = refl

  is_some-replaced : (b : Bool) (v : ℤ) (o : Option ℤ) → is_some (replaced b v o) ≡ is_some o
  is_some-replaced b v none = refl
  is_some-replaced true v (some w) = refl
  is_some-replaced false v (some w) = refl

  replaced-true : (v : ℤ) (o : Option ℤ) → is_some o ≡ true → replaced true v o ≡ some v
  replaced-true v none h = cc
  replaced-true v (some w) h = refl

  at-same : (s : Sample) (r : Metric) → is_same_day s r ≡ true → is_at r ≡ is_for s
  unfolding is_same_day
  at-same s r h = ground arith

  same-at : (s : Sample) (r : Metric) → is_for s ≡ true → is_same_day s r ≡ is_at r
  unfolding is_same_day
  same-at s r h = ground arith

  value_at-set_value :
      (s : Sample) (rows : List Metric)
      → value_at (set_value s rows) ≡ replaced (is_for s) s.value (value_at rows)
  unfolding set_value
  value_at-set_value s [] = refl
  value_at-set_value s (r ∷ rs) = elim (Bool-cases (is_same_day s r)) [
    | inl e ↦
        rw (e, at-same s r e)
          (elim (Bool-cases (is_for s)) [
            | inl f ↦ rw f refl
            | inr f ↦ rw f (sym (replaced-false s.value (value_at rs)))
          ])
    | inr e ↦ elim (Bool-cases (is_for s)) [
      | inl f ↦ rw (e, sym (same-at s r f) ∙ e) (value_at-set_value s rs)
      | inr f ↦ elim (Bool-cases (is_at r)) [
        | inl g ↦ rw (e, f, g) refl
        | inr g ↦ rw (e, g) (value_at-set_value s rs)
      ]
    ]
  ]

  pub found-known :
      (s : Sample) (rows : List Metric)
      → is_for s ≡ true
      → is_some (find (is_same_day s) rows) ≡ is_some (value_at rows)
  found-known s [] h = refl
  found-known s (r ∷ rs) h = elim (Bool-cases (is_at r)) [
    | inl e ↦ rw (same-at s r h ∙ e, e) refl
    | inr e ↦ rw (same-at s r h ∙ e, e) (found-known s rs h)
  ]

  added_at-append :
      (s : Sample) (ss : List Sample) → added_at (ss ++ s ∷ []) ≡ or_else (own s) (added_at ss)
  added_at-append s [] = sym (or_else-none (own s))
  added_at-append s (x ∷ ss) =
      ap (λ o. or_else o (own x)) (added_at-append s ss)
      ∙ or_else_assoc (own s) (added_at ss) (own x)

  value_at-append :
      (rows : List Metric) (r : Metric)
      → value_at (rows ++ r ∷ []) ≡ or_else (value_at rows) (if is_at r then some r.value else none)
  value_at-append [] r = refl
  value_at-append (x ∷ rows) r = elim (Bool-cases (is_at x)) [
    | inl e ↦ rw e refl
    | inr e ↦ rw e (value_at-append rows r)
  ]

  -- A sample that no row has yet stands before or after the rows alike.
  own-swap :
      (s : Sample) (rows : List Metric)
      → is_some (find (is_same_day s) rows) ≡ false
      → or_else (value_at rows) (own s) ≡ or_else (own s) (value_at rows)
  own-swap s rows h = elim (Bool-cases (is_for s)) [
    | inl e ↦
        rw (no_some (value_at rows) (sym (found-known s rows e) ∙ h)) (sym (or_else-none (own s)))
    | inr e ↦ rw e (or_else-none (value_at rows))
  ]

  -- A flush that succeeds leaves what was added, and else what was there.
  pub flush-value_at :
      (accepts : ℕ → Bool) (next : ℕ) (ss : List Sample) (rows : List Metric)
      → Holds
          (λ rows'. value_at rows' ≡ or_else (added_at ss) (value_at rows))
          (flush accepts next ss rows)
  unfolding flush
  flush-value_at accepts next [] rows = refl
  flush-value_at accepts next (s ∷ ss) rows =
      let row : Metric = record {
        id = next;
        provider_id = s.provider_id;
        machine_id = s.machine_id;
        date = s.date;
        value = s.value;
      } in
      let rest = flush accepts (suc next) ss (rows ++ row ∷ []) in
      elim (Bool-cases (is_some (find (is_same_day s) rows))) [
        | inl e ↦ rw e tt
        | inr e ↦ elim (Bool-cases (accepts s.machine_id)) [
          | inl a ↦
              rw (e, a)
                (Holds-imp
                  (λ rows'. value_at rows' ≡ or_else (added_at ss) (value_at (rows ++ row ∷ [])))
                  (λ rows'.
                    value_at rows' ≡ or_else (or_else (added_at ss) (own s)) (value_at rows))
                  rest
                  (λ rows' h.
                    h
                    ∙ ap (or_else (added_at ss)) (value_at-append rows row ∙ own-swap s rows e)
                    ∙ sym (or_else_assoc (added_at ss) (own s) (value_at rows)))
                  (flush-value_at accepts (suc next) ss (rows ++ row ∷ [])))
          | inr a ↦ rw (e, a) tt
        ]
      ]

  abbrev pub view : Pending → Option ℤ
  view p = or_else (added_at p.added) (value_at p.rows)

  -- What was added is not in the table.
  abbrev pub IsDisjoint : Pending → Type 0
  IsDisjoint p = is_some (value_at p.rows) ≡ true → added_at p.added ≡ none

  pub upsert_sample-known :
      (s : Sample) (p : Pending)
      → is_some (value_at (upsert_sample s p).rows) ≡ is_some (value_at p.rows)
  unfolding upsert_sample
  upsert_sample-known s p = elim (Bool-cases (is_some (find (is_same_day s) p.rows))) [
    | inl e ↦
        rw (e, value_at-set_value s p.rows) (is_some-replaced (is_for s) s.value (value_at p.rows))
    | inr e ↦ rw e refl
  ]

  pub upsert_sample-view :
      (s : Sample) (p : Pending)
      → IsDisjoint p
      → view (upsert_sample s p) ≡ or_else (own s) (view p)
  unfolding upsert_sample
  upsert_sample-view s p d = elim (Bool-cases (is_some (find (is_same_day s) p.rows))) [
    | inl e ↦
        rw (e, value_at-set_value s p.rows)
          (elim (Bool-cases (is_for s)) [
            | inl f ↦
                let known = sym (found-known s p.rows f) ∙ e in
                rw (f, d known, replaced-true s.value (value_at p.rows) known) refl
            | inr f ↦ rw (f, replaced-false s.value (value_at p.rows)) refl
          ])
    | inr e ↦
        rw (e, added_at-append s p.added)
          (or_else_assoc (own s) (added_at p.added) (value_at p.rows))
  ]

  no_own :
      (s : Sample) (rows : List Metric)
      → is_some (find (is_same_day s) rows) ≡ false
      → is_some (value_at rows) ≡ true
      → own s ≡ none
  no_own s rows e h = elim (Bool-cases (is_for s)) [
    | inl f ↦ absurd (cc (found-known s rows f, e, h))
    | inr f ↦ rw f refl
  ]

  pub upsert_sample-IsDisjoint :
      (s : Sample) (p : Pending) → IsDisjoint p → IsDisjoint (upsert_sample s p)
  unfolding upsert_sample
  upsert_sample-IsDisjoint s p d = elim (Bool-cases (is_some (find (is_same_day s) p.rows))) [
    | inl e ↦
        rw (e, value_at-set_value s p.rows, is_some-replaced (is_for s) s.value (value_at p.rows)) d
    | inr e ↦
        rw (e, added_at-append s p.added)
          (λ h. rw (d h) (or_else-none (own s) ∙ no_own s p.rows e h))
  ]
