-- ===== src/Domain/Canonical.antt =====
-- The normal forms of identifiers are stable, so a value compares equal however often it was
-- normalised.
use mathlib.Core.List.{reverse, reverse-append, reverse-reverse}
use washing.Prelude.{
  ◌≡◌, refl, ◌≢◌, sym, ap, ◌∙◌, ◌≤◌, Option, none, some, [], ◌∷◌, ◌++◌, ◌⊎◌, Text, arith, length,
  Bool-cases, inl, inr,
}
use washing.Domain.{
  Strings, lstrip, strip, transform_non_empty, normalize_optional, normalize_application_code,
  normalize_dimension, coalesce_dimension, normalize_external_id, normalize_hostname, unknown,
  or_default,
}

-- What the documentation of Python's `str` says of a change of case.
pub record IsCasing (str : Strings) (f : Text → Text) : Type 0 where
  pub idem : (s : Text) → f (f s) ≡ f s
  pub keeps_stripped : (s : Text) → strip str s ≡ s → strip str (f s) ≡ f s
  pub keeps_non_empty : (s : Text) → s ≢ [] → f s ≢ []

abbrev pub IsCanonical : (str : Strings) (f : Text → Text) → Text → Type 0
IsCanonical str f w = (w ≢ []) × (strip str w ≡ w) × (f w ≡ w)

-- The same of an optional text, if there is one.
abbrev pub IsCanonicalOr : Strings → (Text → Text) → Option Text → Type 0
IsCanonicalOr str f none = Unit
IsCanonicalOr str f (some w) = IsCanonical str f w

module _ (str : Strings) where
  length-lstrip : (s : Text) → length (lstrip str s) ≤ length s
  unfolding lstrip
  length-lstrip [] = omega arith
  length-lstrip (c ∷ s) = ground (arith, length-lstrip s)

  lstrip-lstrip : (s : Text) → lstrip str (lstrip str s) ≡ lstrip str s
  unfolding lstrip
  lstrip-lstrip [] = refl
  lstrip-lstrip (c ∷ s) = ground (arith, lstrip-lstrip s)

  -- What `lstrip` takes off is a prefix.
  lstrip_suffix : (s : Text) → (p : Text) × (s ≡ p ++ lstrip str s)
  unfolding lstrip
  lstrip_suffix [] = ([], refl)
  lstrip_suffix (c ∷ s) =
      let (p, e) = lstrip_suffix s in
      elim (Bool-cases (str.is_space c)) [
        | inl space ↦ (c ∷ p, rw space (ap (λ t. c ∷ t) e))
        | inr other ↦ ([], rw other)
      ]

  lstrip-prefix : (u q : Text) → lstrip str (u ++ q) ≡ u ++ q → lstrip str u ≡ u
  unfolding lstrip
  lstrip-prefix [] q h = refl
  lstrip-prefix (c ∷ u) q h = elim (Bool-cases (str.is_space c)) [
    | inl space ↦
        absurd (omega (arith, length-lstrip (u ++ q), ap (length {A = _}) (rw space at h)))
    | inr other ↦ rw other
  ]

  -- The front of a stripped text is bare already, so is its back.
  lstrip-strip : (s : Text) → lstrip str (strip str s) ≡ strip str s
  unfolding strip
  lstrip-strip s =
      let t = lstrip str s in
      let (p, e) = lstrip_suffix (reverse t) in
      let split : reverse (lstrip str (reverse t)) ++ reverse p ≡ t =
        sym (reverse-append p (lstrip str (reverse t))) ∙ sym (ap reverse e) ∙ reverse-reverse t in
      lstrip-prefix (reverse (lstrip str (reverse t))) (reverse p)
        (ap (lstrip str) split ∙ lstrip-lstrip s ∙ sym split)

  pub strip-strip : (s : Text) → strip str (strip str s) ≡ strip str s
  strip-strip s =
      let r = lstrip str (reverse (lstrip str s)) in
      unfold strip in
      (ap (λ t. reverse (lstrip str (reverse t))) (lstrip-strip s)
        ∙ ap (λ t. reverse (lstrip str t)) (reverse-reverse r)
        ∙ ap reverse (lstrip-lstrip (reverse (lstrip str s))))

  module _ (f : Text → Text) (casing : IsCasing str f) where
    transform_non_empty_lem : (s : Text) → s ≢ [] → transform_non_empty f s ≡ some (f s)
    transform_non_empty_lem [] h = absurd (h refl)
    transform_non_empty_lem (c ∷ s) h = refl

    normalize_optional-stripped :
        (s : Text)
        → strip str s ≡ s
        → normalize_optional str (transform_non_empty f s) f ≡ transform_non_empty f s
    unfolding normalize_optional
    normalize_optional-stripped [] h = refl
    normalize_optional-stripped (c ∷ s) h =
        ap (transform_non_empty f) (casing.keeps_stripped (c ∷ s) h)
        ∙ transform_non_empty_lem (f (c ∷ s)) (casing.keeps_non_empty (c ∷ s) (λ e. cc))
        ∙ ap some (casing.idem (c ∷ s))

    pub normalize_optional_idem :
        (v : Option Text)
        → normalize_optional str (normalize_optional str v f) f ≡ normalize_optional str v f
    unfolding normalize_optional
    normalize_optional_idem none = refl
    normalize_optional_idem (some v) = normalize_optional-stripped (strip str v) (strip-strip v)

    stripped-IsCanonical :
        (s : Text) → strip str s ≡ s → IsCanonicalOr str f (transform_non_empty f s)
    stripped-IsCanonical [] e = tt
    stripped-IsCanonical (c ∷ s) e = (
      casing.keeps_non_empty (c ∷ s) (λ p. cc),
      casing.keeps_stripped (c ∷ s) e,
      casing.idem (c ∷ s),
    )

    pub normalize_optional-IsCanonical :
        (v : Option Text) → IsCanonicalOr str f (normalize_optional str v f)
    unfolding normalize_optional
    normalize_optional-IsCanonical none = tt
    normalize_optional-IsCanonical (some v) = stripped-IsCanonical (strip str v) (strip-strip v)

module _ (str : Strings) (up : IsCasing str str.upper) (low : IsCasing str str.lower) where
  -- Each normaliser of identifiers is stable, whatever text it was given, and what it returns is
  -- not empty, stripped and in its case: upper for application codes, dimensions and hostnames,
  -- lower for external ids.
  pub normalize_stable :
      (v : Option Text)
      → let app = normalize_application_code str v in
        let dim = normalize_dimension str v in
        let ext = normalize_external_id str v in
        let host = normalize_hostname str v in
        (normalize_application_code str app ≡ app)
        × (normalize_dimension str dim ≡ dim)
        × (normalize_external_id str ext ≡ ext)
        × (normalize_hostname str host ≡ host)
        × IsCanonicalOr str str.upper app
        × IsCanonicalOr str str.upper dim
        × IsCanonicalOr str str.lower ext
        × IsCanonicalOr str str.upper host
  unfolding normalize_application_code normalize_dimension normalize_external_id normalize_hostname
  normalize_stable v =
      let same = normalize_optional_idem str str.upper up v in
      let form = normalize_optional-IsCanonical str str.upper up v in
      (
        same,
        same,
        normalize_optional_idem str str.lower low v,
        same,
        form,
        form,
        normalize_optional-IsCanonical str str.lower low v,
        form,
      )

  or_default-normalize :
      (v : Option Text)
      → IsCanonicalOr str str.upper v
      → (or_default v unknown ≡ unknown) ⊎ (some (or_default v unknown) ≡ v)
  or_default-normalize none h = inl refl
  or_default-normalize (some []) h = absurd (h.0 refl)
  or_default-normalize (some (c ∷ s)) h = inr refl

  -- A grouping dimension, once coalesced, is its own coalesced form, if "UNKNOWN" is.
  pub coalesce_dimension_stable :
      (v : Option Text)
      → normalize_dimension str (some unknown) ≡ some unknown
      → coalesce_dimension str (some (coalesce_dimension str v)) ≡ coalesce_dimension str v
  unfolding coalesce_dimension
  coalesce_dimension_stable v h =
      elim (or_default-normalize (normalize_dimension str v) (normalize_stable v).5) [
        | inl e ↦
            ap (λ t. or_default (normalize_dimension str (some t)) unknown) e
            ∙ ap (λ o. or_default o unknown) h
            ∙ sym e
        | inr e ↦
            ap (λ o. or_default (normalize_dimension str o) unknown) e
            ∙ ap (λ o. or_default o unknown) (normalize_stable v).1
      ]
