-- ===== src/Security/Errors.antt =====
-- `sanitize_operational_error` against a description by what occurs in the message.
use washing.Prelude.{
  ◌≡◌, refl, ap, ◌++◌, ◌⊎◌, inl, inr, Bool, true, false, ◌||◌, some, [], ◌∷◌, String, Text, codes,
  arith, starts_with, contains, ends_with, eq_text, eq_text_iff, Bool-cases, if◌then◌else◌,
}
use washing.Domain.{Strings, strip}
use washing.Security.{
  ErrorCode, disabled, resource_not_found, invalid_configuration, connector_unavailable,
  dispatch_failed, unexpected, Failure, classify_message, classify_non_empty,
  sanitize_operational_error,
}

-- `p` stands somewhere in `s`.
abbrev pub Occurs : Text → Text → Type 0
Occurs p s = (before : Text) × (after : Text) × (s ≡ before ++ (p ++ after))

-- `p` stands at the end of `s`.
abbrev pub Ends : Text → Text → Type 0
Ends p s = (before : Text) × (s ≡ before ++ p)

-- A test decides a statement.
abbrev Reflects : Type 0 → Bool → Type 0
Reflects P b = (b ≡ true → P) × (b ≡ false → ¬ P)

Reflects-or : {P Q : Type 0} (a b : Bool) → Reflects P a → Reflects Q b → Reflects (P ⊎ Q) (a || b)
Reflects-or true b p q = (λ h. inl (p.0 refl), λ h. cc)
Reflects-or false b p q = (λ h. inr (q.0 h), λ h. elim [ inl x ↦ p.1 refl x | inr y ↦ q.1 h y ])

Reflects-iff : {P Q : Type 0} (b : Bool) → (P → Q) → (Q → P) → Reflects P b → Reflects Q b
Reflects-iff b f g r = (λ h. f (r.0 h), λ h y. r.1 h (g y))

starts_with-Reflects : (s p : Text) → Reflects ((after : Text) × (s ≡ p ++ after)) (starts_with s p)
unfolding starts_with
starts_with-Reflects s [] = (λ h. (s, refl), λ h. cc)
starts_with-Reflects [] (d ∷ p) = (λ h. cc, λ h x. cc (x.1))
starts_with-Reflects (c ∷ s) (d ∷ p) =
    let (yes_tail, no_tail) = starts_with-Reflects s p in
    (
      λ h. let (after, e) = yes_tail (ground arith) in (after, ground (arith, e)),
      λ h x. no_tail (ground arith) (x.0, ground arith),
    )

Occurs-nil : (p : Text) → Occurs p [] → (after : Text) × ([] ≡ p ++ after)
Occurs-nil p ([], after, e) = (after, e)
Occurs-nil p (b ∷ before, after, e) = cc

Occurs-cons :
    (p : Text) {c : _} {s : Text}
    → Occurs p (c ∷ s)
    → ((after : Text) × (c ∷ s ≡ p ++ after)) ⊎ Occurs p s
Occurs-cons p ([], after, e) = inl (after, e)
Occurs-cons p (b ∷ before, after, e) = inr (before, after, cc)

contains-Reflects : (s p : Text) → Reflects (Occurs p s) (contains s p)
unfolding contains
contains-Reflects [] p =
    Reflects-iff (starts_with [] p) (λ x. ([], x.0, x.1)) (Occurs-nil p) (starts_with-Reflects [] p)
contains-Reflects (c ∷ s) p =
    Reflects-iff (starts_with (c ∷ s) p || contains s p)
      (elim [ inl x ↦ ([], x.0, x.1) | inr x ↦ (c ∷ x.0, x.1, ap (λ (t : Text). c ∷ t) x.2) ])
      (Occurs-cons p)
      (Reflects-or (starts_with (c ∷ s) p) (contains s p) (starts_with-Reflects (c ∷ s) p)
        (contains-Reflects s p))

eq_text-Reflects : (s t : Text) → Reflects (s ≡ t) (eq_text s t)
eq_text-Reflects s t = ((eq_text_iff s t).0, λ h e. cc ((eq_text_iff s t).1 e))

Ends-cons : (p : Text) {c : _} {s : Text} → Ends p (c ∷ s) → (c ∷ s ≡ p) ⊎ Ends p s
Ends-cons p ([], e) = inl e
Ends-cons p (b ∷ before, e) = inr (before, cc)

Ends-nil : (p : Text) → Ends p [] → [] ≡ p
Ends-nil p ([], e) = e
Ends-nil p (b ∷ before, e) = cc

ends_with-Reflects : (s p : Text) → Reflects (Ends p s) (ends_with s p)
unfolding ends_with
ends_with-Reflects [] p =
    Reflects-iff (eq_text [] p) (λ e. ([], e)) (Ends-nil p) (eq_text-Reflects [] p)
ends_with-Reflects (c ∷ s) p =
    Reflects-iff (eq_text (c ∷ s) p || ends_with s p)
      (elim [ inl e ↦ ([], e) | inr x ↦ (c ∷ x.0, ap (λ (t : Text). c ∷ t) x.1) ]) (Ends-cons p)
      (Reflects-or (eq_text (c ∷ s) p) (ends_with s p) (eq_text-Reflects (c ∷ s) p)
        (ends_with-Reflects s p))

-- Of five statements in their order, the first that holds, as a code; the last code if none does.
abbrev pub FirstOf : Type 0 → Type 0 → Type 0 → Type 0 → Type 0 → ErrorCode → Type 0
FirstOf A B C D E disabled = A
FirstOf A B C D E resource_not_found = (¬ A) × B
FirstOf A B C D E connector_unavailable = (¬ A) × (¬ B) × C
FirstOf A B C D E invalid_configuration = (¬ A) × (¬ B) × (¬ C) × D
FirstOf A B C D E dispatch_failed = (¬ A) × (¬ B) × (¬ C) × (¬ D) × E
FirstOf A B C D E unexpected = (¬ A) × (¬ B) × (¬ C) × (¬ D) × (¬ E)

ladder-FirstOf :
    {A B C D E : Type 0} (a b c d e : Bool)
    → Reflects A a
    → Reflects B b
    → Reflects C c
    → Reflects D d
    → Reflects E e
    → FirstOf A B C D E (
        if a
        then disabled
        else if b
        then resource_not_found
        else if c
        then connector_unavailable
        else if d
        then invalid_configuration
        else if e
        then dispatch_failed
        else unexpected)
ladder-FirstOf true b c d e p q r s t = p.0 refl
ladder-FirstOf false true c d e p q r s t = (p.1 refl, q.0 refl)
ladder-FirstOf false false true d e p q r s t = (p.1 refl, q.1 refl, r.0 refl)
ladder-FirstOf false false false true e p q r s t = (p.1 refl, q.1 refl, r.1 refl, s.0 refl)
ladder-FirstOf false false false false true p q r s t =
    (p.1 refl, q.1 refl, r.1 refl, s.1 refl, t.0 refl)
ladder-FirstOf false false false false false p q r s t =
    (p.1 refl, q.1 refl, r.1 refl, s.1 refl, t.1 refl)

abbrev SaysDisabled : Text → Type 0
SaysDisabled m = Occurs (codes "must be enabled") m ⊎ Occurs (codes "disabled") m

abbrev SaysNotFound : Text → Type 0
SaysNotFound m = Ends (codes "not found") m ⊎ Occurs (codes " not found") m

abbrev SaysUnsupported : Text → Type 0
SaysUnsupported m =
    Occurs (codes "unsupported metric collector type") m
    ⊎ Occurs (codes "unsupported machine provisioner type") m

abbrev SaysInvalid : Text → Type 0
SaysInvalid m =
    ((Occurs (codes "invalid mock") m ⊎ Occurs (codes "invalid config") m)
      ⊎ Occurs (codes "invalid configuration") m)
    ⊎ Occurs (codes "invalid encrypted payload") m

abbrev SaysDispatch : Text → Type 0
SaysDispatch m =
    (Occurs (codes "enqueue") m ⊎ Occurs (codes "dispatch") m) ⊎ Occurs (codes "publish") m

-- The reason for which a message has a code: what it says, and that it says nothing that comes
-- before.
abbrev pub Explains : ErrorCode → Text → Type 0
Explains code m =
    FirstOf (SaysDisabled m) (SaysNotFound m) (SaysUnsupported m) (SaysInvalid m) (SaysDispatch m)
      code

module _ (m : Text) where
  abbrev has : String → Bool
  has p = contains m (codes p)

  has_either-Reflects :
      (p q : String) → Reflects (Occurs (codes p) m ⊎ Occurs (codes q) m) (has p || has q)
  has_either-Reflects p q =
      Reflects-or (has p) (has q) (contains-Reflects m (codes p)) (contains-Reflects m (codes q))

  SaysNotFound-Reflects :
      Reflects (SaysNotFound m) (ends_with m (codes "not found") || has " not found")
  SaysNotFound-Reflects =
      Reflects-or (ends_with m (codes "not found")) (has " not found")
        (ends_with-Reflects m (codes "not found")) (contains-Reflects m (codes " not found"))

  SaysInvalid-Reflects : Reflects (SaysInvalid m) (
      has "invalid mock"
      || has "invalid config"
      || has "invalid configuration"
      || has "invalid encrypted payload")
  SaysInvalid-Reflects =
      Reflects-or (has "invalid mock" || has "invalid config" || has "invalid configuration")
        (has "invalid encrypted payload")
        (Reflects-or (has "invalid mock" || has "invalid config") (has "invalid configuration")
          (has_either-Reflects "invalid mock" "invalid config")
          (contains-Reflects m (codes "invalid configuration")))
        (contains-Reflects m (codes "invalid encrypted payload"))

  SaysDispatch-Reflects :
      Reflects (SaysDispatch m) (has "enqueue" || has "dispatch" || has "publish")
  SaysDispatch-Reflects =
      Reflects-or (has "enqueue" || has "dispatch") (has "publish")
        (has_either-Reflects "enqueue" "dispatch") (contains-Reflects m (codes "publish"))

  classify_message-Explains : Explains (classify_message m) m
  unfolding classify_message
  classify_message-Explains =
      ladder-FirstOf (has "must be enabled" || has "disabled")
        (ends_with m (codes "not found") || has " not found")
        (has "unsupported metric collector type" || has "unsupported machine provisioner type")
        (has "invalid mock"
          || has "invalid config"
          || has "invalid configuration"
          || has "invalid encrypted payload")
        (has "enqueue" || has "dispatch" || has "publish")
        (has_either-Reflects "must be enabled" "disabled") SaysNotFound-Reflects
        (has_either-Reflects "unsupported metric collector type"
          "unsupported machine provisioner type")
        SaysInvalid-Reflects SaysDispatch-Reflects

classify_non_empty-Explains : (m : Text) → Explains (classify_non_empty m) m
classify_non_empty-Explains [] =
    unfold classify_message contains ends_with in classify_message-Explains []
classify_non_empty-Explains (c ∷ s) = classify_message-Explains (c ∷ s)

-- Why a failure has a code: a JSON decoding error by its class, any other by its message.
abbrev pub HasReason : Bool → Text → ErrorCode → Type 0
HasReason true m code = code ≡ invalid_configuration
HasReason false m code = Explains code m

-- An operational error always has a code: "invalid configuration" for a JSON decoding error, and
-- otherwise the first, in the order of the tests, whose phrases occur in the stripped message in
-- lower case, or "unexpected" if no phrase does.
pub sanitize_operational_error-HasReason :
    (str : Strings) (value : Failure)
    → (code : ErrorCode) × (sanitize_operational_error str (some value) ≡ some code)
      × HasReason value.is_json_decode_error (str.lower (strip str value.message)) code
unfolding sanitize_operational_error
sanitize_operational_error-HasReason str value =
    let m = str.lower (strip str value.message) in
    elim (Bool-cases value.is_json_decode_error) [
      | inl e ↦ (invalid_configuration, rw e, rw e refl)
      | inr e ↦ (classify_non_empty m, rw e, rw e (classify_non_empty-Explains m))
    ]
