-- ===== src/Security/Allowlist.antt =====
-- `sanitize_task_result` and `_sanitize_json_value` against the allowlist of keys.
use mathlib.Core.Path.{ap₂, subst}
use washing.Prelude.{
  ◌≡◌, ◌↔◌, refl, sym, ap, ◌∙◌, Bool, true, false, ◌||◌, some, codes, Text, arith, eq_text,
  eq_text_iff, Bool-cases, inl, inr, if◌then◌else◌,
}
use washing.Security.{
  Json, null, bool, int, float, str, moment, other, dict, list, Fields, end, field, Items, nil,
  cons, is_safe_key, set_field, sanitize_json_value, sanitize_fields, sanitize_items,
  non_empty_dict, sanitize_task_result,
}

pub has_field : Text → Fields → Bool
has_field k end = false
has_field k (field j v fs) = eq_text j k || has_field k fs

-- A JSON value whose mappings, at any depth, have allowlisted keys only, none of them twice, and
-- which holds no other object.
abbrev mutual
  pub IsSafe : Json → Type 0
  IsSafe (moment s) = ⊥
  IsSafe (other s) = ⊥
  IsSafe (dict fs) = IsSafeFields fs
  IsSafe (list xs) = IsSafeItems xs
  IsSafe _ = Unit

  pub IsSafeFields : Fields → Type 0
  IsSafeFields end = Unit
  IsSafeFields (field k v fs) =
      (is_safe_key k ≡ true) × (has_field k fs ≡ false) × IsSafe v × IsSafeFields fs

  pub IsSafeItems : Items → Type 0
  IsSafeItems nil = Unit
  IsSafeItems (cons v vs) = IsSafe v × IsSafeItems vs

has_field-set_field :
    (j k : Text) (v : Json) (fs : Fields)
    → has_field j (set_field k v fs) ≡ (eq_text k j || has_field j fs)
unfolding has_field set_field
has_field-set_field j k v end = refl
has_field-set_field j k v (field i w fs) =
    ground (arith, has_field-set_field j k v fs, eq_text_iff i k)

set_field-IsSafeFields :
    (k : Text) (v : Json) (fs : Fields)
    → is_safe_key k ≡ true
    → IsSafe v
    → IsSafeFields fs
    → IsSafeFields (set_field k v fs)
unfolding has_field set_field
set_field-IsSafeFields k v end hk hv h = (hk, refl, hv, tt)
set_field-IsSafeFields k v (field i w fs) hk hv h = elim (Bool-cases (eq_text i k)) [
  | inl same ↦ rw same (h.0, h.1, hv, h.3)
  | inr differs ↦ rw differs (
    h.0,
    ground (arith, has_field-set_field i k v fs, eq_text_iff i k, eq_text_iff k i),
    h.2,
    set_field-IsSafeFields k v fs hk hv h.3,
  )
]

made-IsSafeFields :
    (k : Text) (v : Json) (made : Fields)
    → IsSafe v
    → IsSafeFields made
    → IsSafeFields (if is_safe_key k then set_field k v made else made)
made-IsSafeFields k v made hv h = elim (Bool-cases (is_safe_key k)) [
  | inl safe ↦ rw safe (set_field-IsSafeFields k v made safe hv h)
  | inr dropped ↦ rw dropped h
]

mutual
  unfolding sanitize_json_value

  sanitize_json_value-IsSafe : (v : Json) → IsSafe (sanitize_json_value v)
  sanitize_json_value-IsSafe (dict fs) = sanitize_fields-IsSafeFields fs end tt
  sanitize_json_value-IsSafe (list xs) = sanitize_items-IsSafeItems xs
  sanitize_json_value-IsSafe _ = tt

  sanitize_fields-IsSafeFields :
      (fs made : Fields) → IsSafeFields made → IsSafeFields (sanitize_fields fs made)
  sanitize_fields-IsSafeFields end made h = h
  sanitize_fields-IsSafeFields (field k v fs) made h =
      sanitize_fields-IsSafeFields fs _
        (made-IsSafeFields k _ made (sanitize_json_value-IsSafe v) h)

  sanitize_items-IsSafeItems : (xs : Items) → IsSafeItems (sanitize_items xs)
  sanitize_items-IsSafeItems nil = tt
  sanitize_items-IsSafeItems (cons v vs) =
      (sanitize_json_value-IsSafe v, sanitize_items-IsSafeItems vs)

-- The entries of one mapping, then those of another.
join : Fields → Fields → Fields
join end gs = gs
join (field k v fs) gs = field k v (join fs gs)

join-end : (fs : Fields) → join fs end ≡ fs
unfolding join
join-end end = refl
join-end (field k v fs) = ap (field k v) (join-end fs)

join_assoc : (fs gs hs : Fields) → join (join fs gs) hs ≡ join fs (join gs hs)
unfolding join
join_assoc end gs hs = refl
join_assoc (field k v fs) gs hs = ap (field k v) (join_assoc fs gs hs)

set_field_new :
    (k : Text) (v : Json) (fs : Fields)
    → has_field k fs ≡ false
    → set_field k v fs ≡ join fs (field k v end)
unfolding has_field set_field join
set_field_new k v end h = refl
set_field_new k v (field j w fs) h = ground (arith, set_field_new k v fs)

-- No entry of the first is one of the second.
abbrev IsDisjoint : Fields → Fields → Type 0
IsDisjoint end made = Unit
IsDisjoint (field k v fs) made = (has_field k made ≡ false) × IsDisjoint fs made

has_field-join :
    (j : Text) (fs gs : Fields) → has_field j (join fs gs) ≡ (has_field j fs || has_field j gs)
unfolding has_field join
has_field-join j end gs = refl
has_field-join j (field k v fs) gs = ground (arith, has_field-join j fs gs)

IsDisjoint-join :
    (k : Text) (v : Json) (fs made : Fields)
    → has_field k fs ≡ false
    → IsDisjoint fs made
    → IsDisjoint fs (join made (field k v end))
unfolding has_field
IsDisjoint-join k v end made h d = tt
IsDisjoint-join k v (field j w fs) made h d = (
  ground (arith, has_field-join j made (field k v end), d.0, eq_text_iff j k, eq_text_iff k j),
  IsDisjoint-join k v fs made (ground arith) d.1,
)

IsDisjoint-end : (fs : Fields) → IsDisjoint fs end
unfolding has_field
IsDisjoint-end end = tt
IsDisjoint-end (field k v fs) = (refl, IsDisjoint-end fs)

mutual
  unfolding sanitize_json_value join

  sanitize_json_value_of_safe : (v : Json) → IsSafe v → sanitize_json_value v ≡ v
  sanitize_json_value_of_safe null h = refl
  sanitize_json_value_of_safe (bool b) h = refl
  sanitize_json_value_of_safe (int n) h = refl
  sanitize_json_value_of_safe (float x) h = refl
  sanitize_json_value_of_safe (str s) h = refl
  sanitize_json_value_of_safe (moment s) h = absurd h
  sanitize_json_value_of_safe (other s) h = absurd h
  sanitize_json_value_of_safe (dict fs) h =
      ap dict (sanitize_fields_of_safe fs end h (IsDisjoint-end fs))
  sanitize_json_value_of_safe (list xs) h = ap list (sanitize_items_of_safe xs h)

  sanitize_fields_of_safe :
      (fs made : Fields)
      → IsSafeFields fs
      → IsDisjoint fs made
      → sanitize_fields fs made ≡ join made fs
  sanitize_fields_of_safe end made h d = sym (join-end made)
  sanitize_fields_of_safe (field k v fs) made h d =
      rw (h.0, sanitize_json_value_of_safe v h.2, set_field_new k v made d.0)
        (sanitize_fields_of_safe fs (join made (field k v end)) h.3
            (IsDisjoint-join k v fs made h.1 d.1)
          ∙ join_assoc made (field k v end) fs)

  sanitize_items_of_safe : (xs : Items) → IsSafeItems xs → sanitize_items xs ≡ xs
  sanitize_items_of_safe nil h = refl
  sanitize_items_of_safe (cons v vs) h =
      ap₂ cons (sanitize_json_value_of_safe v h.0) (sanitize_items_of_safe vs h.1)

-- The sanitizer leaves a value alone exactly when it is allowlisted at every depth, and a second
-- pass changes nothing.
pub sanitize_json_value_fixed :
    (v : Json)
    → (IsSafe v ↔ (sanitize_json_value v ≡ v))
      × (sanitize_json_value (sanitize_json_value v) ≡ sanitize_json_value v)
sanitize_json_value_fixed v =
    let safe = sanitize_json_value-IsSafe v in
    (
      (sanitize_json_value_of_safe v, λ e. subst IsSafe e safe),
      sanitize_json_value_of_safe (sanitize_json_value v) safe,
    )

non_empty_dict-IsSafe :
    (fs : Fields) (r : Json)
    → IsSafeFields fs
    → non_empty_dict fs ≡ some r
    → ((gs : Fields) × (r ≡ dict gs)) × IsSafe r
non_empty_dict-IsSafe end r h e = cc
non_empty_dict-IsSafe (field k v fs) r h e =
    let p : dict (field k v fs) ≡ r = cc in ((field k v fs, sym p), subst IsSafe p h)

status-IsSafe :
    (v r : Json)
    → IsSafe v
    → some (dict (field (codes "status") v end)) ≡ some r
    → ((gs : Fields) × (r ≡ dict gs)) × IsSafe r
unfolding has_field is_safe_key
status-IsSafe v r h e =
    let p : dict (field (codes "status") v end) ≡ r = cc in
    ((field (codes "status") v end, sym p), subst IsSafe p (refl, refl, h, tt))

-- What is stored as the result of a task is nothing, or a mapping whose keys, at every depth, are
-- allowlisted, without a repeated key and without any object that is not a JSON value.
pub sanitize_task_result-IsSafe :
    (v r : Json) → sanitize_task_result v ≡ some r → ((gs : Fields) × (r ≡ dict gs)) × IsSafe r
unfolding sanitize_task_result
sanitize_task_result-IsSafe null r h = cc
sanitize_task_result-IsSafe (dict fs) r h =
    non_empty_dict-IsSafe (sanitize_fields fs end) r (sanitize_fields-IsSafeFields fs end tt) h
sanitize_task_result-IsSafe v r h =
    status-IsSafe (sanitize_json_value v) r (sanitize_json_value-IsSafe v) h
