-- ===== src/UseCases/Applications/Projection.antt =====
-- The projection of internal/usecases/applications.py after a rebuild.
use washing.Prelude.{
  ℕ, suc, ◌≡◌, refl, ap, sym, ◌∙◌, Bool, true, false, not, ◌&&◌, ◌||◌, Option, none, some, List, [],
  ◌∷◌, ◌++◌, map, keep_if, Text, eq_text, eq_text→eq, arith, Bool-cases, inl, inr, All, any,
}
use washing.Db.{Application, Machine, or_value, validate_application_name}
use washing.Domain.{
  Strings, normalize_application_code, normalize_dimension, coalesce_dimension, unknown,
}
use washing.Domain.Canonical.{IsCasing, normalize_stable, coalesce_dimension_stable}
use washing.UseCases.Applications.Sync.{
  Key, eq_key, key_of, elem_key, new_application, add_missing, rebuild, snapshot, with_name,
  insert_key, lt_key, rebuild_applications_from_machines,
}

key_eq : (a b : Key) → a.name ≡ b.name → a.environment ≡ b.environment → a.region ≡ b.region → a ≡ b
key_eq a b n e r =
    ap (λ x. record { name = x; environment = a.environment; region = a.region }) n
    ∙ ap (λ x. record { name = b.name; environment = x; region = a.region }) e
    ∙ ap (λ x. record { name = b.name; environment = b.environment; region = x }) r

and_true : (a b : Bool) → (a && b) ≡ true → (a ≡ true) × (b ≡ true)
and_true true true h = (refl, refl)
and_true true false h = absurd (ground arith)
and_true false b h = absurd (ground arith)

eq_key→eq : (a b : Key) → eq_key a b ≡ true → a ≡ b
unfolding eq_key
eq_key→eq a b h =
    let (n, rest) = and_true (eq_text a.name b.name) _ h in
    let (e, r) = and_true (eq_text a.environment b.environment) (eq_text a.region b.region) rest in
    key_eq a b (eq_text→eq a.name b.name n) (eq_text→eq a.environment b.environment e)
      (eq_text→eq a.region b.region r)

elem_key-append :
    (k : Key) (xs ys : List Application)
    → elem_key k (map key_of (xs ++ ys))
      ≡ (elem_key k (map key_of xs) || elem_key k (map key_of ys))
unfolding elem_key
elem_key-append k [] ys = refl
elem_key-append k (x ∷ xs) ys = ground (arith, elem_key-append k xs ys)

-- Equal keys are members of the same lists.
elem_key-cong :
    (j k : Key) (keys : List Key) → eq_key j k ≡ true → elem_key j keys ≡ elem_key k keys
elem_key-cong j k keys h = ap (λ x. elem_key x keys) (eq_key→eq j k h)

elem_key-keep :
    (k : Key) (keys : List Key) (rows : List Application)
    → elem_key k (map key_of (keep_if (λ a. elem_key (key_of a) keys) rows))
      ≡ (elem_key k (map key_of rows) && elem_key k keys)
unfolding elem_key
elem_key-keep k keys [] = refl
elem_key-keep k keys (a ∷ rows) = elim (Bool-cases (eq_key (key_of a) k)) [
  | inl same ↦ ground (arith, elem_key-keep k keys rows, elem_key-cong (key_of a) k keys same)
  | inr other ↦ ground (arith, elem_key-keep k keys rows)
]

elem_key-insert :
    (k j : Key) (keys : List Key) → elem_key k (insert_key j keys) ≡ (eq_key j k || elem_key k keys)
unfolding elem_key insert_key
elem_key-insert k j [] = refl
elem_key-insert k j (i ∷ keys) = elim (Bool-cases (eq_key i j)) [
  | inl same ↦ ground (arith, ap (λ x. eq_key x k) (eq_key→eq i j same))
  | inr other ↦ ground (arith, elem_key-insert k j keys)
]

-- A machine whose application, environment and region make the key.
abbrev pub is_named : Strings → Key → Machine → Option Text → Bool
is_named strings k m none = false
is_named strings k m (some name) =
    eq_key
      (record {
        name = name;
        environment = coalesce_dimension strings m.environment;
        region = coalesce_dimension strings m.region;
      })
      k

abbrev pub has_key : Strings → Key → Machine → Bool
has_key strings k m = is_named strings k m (normalize_application_code strings m.application)

module _ (strings : Strings) where
  -- A key that the hooks of the model store as it is.
  abbrev pub IsStored : Key → Type 0
  IsStored k = (n : ℕ) → key_of (new_application strings n k) ≡ k

  elem_key-add :
      (k : Key) (existing : List Key) (next : ℕ) (keys : List Key)
      → All IsStored keys
      → elem_key k (map key_of (add_missing strings existing next keys))
        ≡ (elem_key k keys && not (elem_key k existing))
  unfolding elem_key add_missing
  elem_key-add k existing next [] h = refl
  elem_key-add k existing next (j ∷ keys) h = elim (Bool-cases (eq_key j k)) [
    | inl same ↦ ground (
      arith,
      elem_key-add k existing next keys h.1,
      elem_key-add k existing (suc next) keys h.1,
      ap (λ x. eq_key x k) (h.0 next),
      elem_key-cong j k existing same,
    )
    | inr other ↦ ground (
      arith,
      elem_key-add k existing next keys h.1,
      elem_key-add k existing (suc next) keys h.1,
      ap (λ x. eq_key x k) (h.0 next),
    )
  ]

  rebuild-keys :
      (k : Key) (next : ℕ) (keys : List Key) (rows : List Application)
      → All IsStored keys
      → elem_key k (map key_of (rebuild strings next keys rows).rows) ≡ elem_key k keys
  unfolding rebuild
  rebuild-keys k next keys rows h =
      let kept = keep_if (λ a. elem_key (key_of a) keys) rows in
      let added = add_missing strings (map key_of rows) next keys in
      ground (
        arith,
        elem_key-append k kept added,
        elem_key-keep k keys rows,
        elem_key-add k (map key_of rows) next keys h,
      )

  elem_key-with_name :
      (k : Key) (name : Option Text) (m : Machine) (keys : List Key)
      → elem_key k (with_name strings name m keys) ≡ (is_named strings k m name || elem_key k keys)
  unfolding with_name
  elem_key-with_name k none m keys = refl
  elem_key-with_name k (some name) m keys = elem_key-insert k _ keys

  elem_key-snapshot :
      (k : Key) (machines : List Machine)
      → elem_key k (snapshot strings machines) ≡ any (has_key strings k) machines
  unfolding snapshot elem_key
  elem_key-snapshot k [] = refl
  elem_key-snapshot k (m ∷ ms) =
      elem_key-with_name k (normalize_application_code strings m.application) m
        (snapshot strings ms)
      ∙ ap (λ b. has_key strings k m || b) (elem_key-snapshot k ms)

  insert_key-All :
      (P : Key → Type 0) (k : Key) (keys : List Key) → P k → All P keys → All P (insert_key k keys)
  unfolding insert_key
  insert_key-All P k [] p h = (p, tt)
  insert_key-All P k (j ∷ keys) p h = elim (Bool-cases (eq_key j k)) [
    | inl same ↦ rw same h
    | inr other ↦ elim (Bool-cases (lt_key k j)) [
      | inl before ↦ rw (other, before) (p, h)
      | inr after ↦ rw (other, after) (h.0, insert_key-All P k keys p h.1)
    ]
  ]

or_value_same : (w : Text) → or_value (some w) w ≡ w
or_value_same [] = refl
or_value_same (c ∷ s) = refl

module _ (strings : Strings) (up : IsCasing strings strings.upper)
    (unknown_stays : normalize_dimension strings (some unknown) ≡ some unknown)
    (low : IsCasing strings strings.lower) where
  validate_application_name-same :
      (v : Option Text) (w : Text)
      → normalize_application_code strings v ≡ some w
      → validate_application_name strings w ≡ w
  unfolding validate_application_name
  validate_application_name-same v w h =
      ap (λ o. or_value o w)
        (ap (normalize_application_code strings) (sym h)
          ∙ (normalize_stable strings up low v).0
          ∙ h)
      ∙ or_value_same w

  with_name-IsStored :
      (name : Option Text) (m : Machine) (keys : List Key)
      → normalize_application_code strings m.application ≡ name
      → All (IsStored strings) keys
      → All (IsStored strings) (with_name strings name m keys)
  unfolding with_name new_application
  with_name-IsStored none m keys e h = h
  with_name-IsStored (some name) m keys e h =
      insert_key-All strings (IsStored strings) _ keys
        (λ n.
          key_eq _ _ (validate_application_name-same m.application name e)
            (coalesce_dimension_stable strings up low m.environment unknown_stays)
            (coalesce_dimension_stable strings up low m.region unknown_stays))
        h

  snapshot-IsStored : (machines : List Machine) → All (IsStored strings) (snapshot strings machines)
  unfolding snapshot
  snapshot-IsStored [] = tt
  snapshot-IsStored (m ∷ ms) =
      with_name-IsStored (normalize_application_code strings m.application) m (snapshot strings ms)
        refl (snapshot-IsStored ms)

  -- After a rebuild, whatever rows there were before, a name, environment and region have a row
  -- exactly when some machine has them, once normalised. The changes of case are as Python documents
  -- them, and leave "UNKNOWN" alone.
  pub rebuild-elem :
      (machines : List Machine) (next : ℕ) (rows : List Application) (k : Key)
      → elem_key k (map key_of (rebuild_applications_from_machines strings machines next rows).rows)
        ≡ any (has_key strings k) machines
  unfolding rebuild_applications_from_machines
  rebuild-elem machines next rows k =
      rebuild-keys strings k next (snapshot strings machines) rows (snapshot-IsStored machines)
      ∙ elem_key-snapshot strings k machines
