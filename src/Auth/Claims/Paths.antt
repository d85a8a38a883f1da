-- ===== src/Auth/Claims/Paths.antt =====
-- The values that a claim path of internal/infra/auth/oidc.py reaches, as a relation.
use mathlib.Core.Path.{subst}
use washing.Prelude.{
  ◌≡◌, ◌≢◌, ◌↔◌, inl, inr, refl, sym, ap, true, false, Option, none, some, List, [], ◌∷◌, Text,
  Bool-cases, eq_text, elem_text, elem_text-In, In, In-append,
}
use washing.Security.{Json, str, list, Items}
use washing.Queue.Context.{to_list}
use washing.Auth.Claims.{
  role_of, extract_path_values, concat_map, values_at, children, find_key, wildcard, roles_of_value,
  extract_roles,
}
use washing.Auth.Settings.{split_on}

-- `Reaches path v w`: the walk along `path` from `v` can end in `w`.
pub data Reaches : List Text → Json → Json → Type 0 where
  here : (v : Json) → Reaches [] v v
  key :
      (k : Text) (ks : List Text) (v w x : Json)
      → eq_text k wildcard ≡ false
      → find_key k v ≡ some w
      → Reaches ks w x
      → Reaches (k ∷ ks) v x
  each :
      (k : Text) (ks : List Text) (v w x : Json)
      → eq_text k wildcard ≡ true
      → In w (children v)
      → Reaches ks w x
      → Reaches (k ∷ ks) v x

module _ {A B : Type 0} (f : A → List B) where
  pub In-concat_map :
      (b : B) (xs : List A) → In b (concat_map f xs) → (a : A) × In a xs × In b (f a)
  unfolding concat_map
  In-concat_map b [] h = absurd h
  In-concat_map b (x ∷ xs) h = elim ((In-append b (f x) (concat_map f xs)).0 h) [
    | inl h ↦ (x, inl refl, h)
    | inr h ↦ let (a, m, n) = In-concat_map b xs h in (a, inr m, n)
  ]

  pub concat_map-In : (a : A) (b : B) (xs : List A) → In a xs → In b (f a) → In b (concat_map f xs)
  unfolding concat_map
  concat_map-In a b [] h k = absurd h
  concat_map-In a b (x ∷ xs) (inl e) k =
      (In-append b (f x) (concat_map f xs)).1 (inl (subst (λ y. In b (f y)) (sym e) k))
  concat_map-In a b (x ∷ xs) (inr h) k =
      (In-append b (f x) (concat_map f xs)).1 (inr (concat_map-In a b xs h k))

values_at-In :
    (f : Json → List Json) (x : Json) (o : Option Json)
    → In x (values_at f o)
    → (w : Json) × (o ≡ some w) × In x (f w)
unfolding values_at
values_at-In f x none h = absurd h
values_at-In f x (some w) h = (w, refl, h)

-- A value that the code extracts is reached.
extract-Reaches :
    (path : List Text) (v x : Json) → In x (extract_path_values path v) → Reaches path v x
unfolding extract_path_values
extract-Reaches [] v x (inl e) = subst (Reaches [] v) e (here v)
extract-Reaches [] v x (inr h) = absurd h
extract-Reaches (k ∷ ks) v x h = elim (Bool-cases (eq_text k wildcard)) [
  | inl e ↦
      let (w, m, n) = In-concat_map (extract_path_values ks) x (children v) (rw e at h) in
      each k ks v w x e m (extract-Reaches ks w x n)
  | inr e ↦
      let (w, m, n) = values_at-In (extract_path_values ks) x (find_key k v) (rw e at h) in
      key k ks v w x e m (extract-Reaches ks w x n)
]

Reaches-extract :
    {path : List Text} {v x : Json} → Reaches path v x → In x (extract_path_values path v)
unfolding extract_path_values
Reaches-extract (here v) = inl refl
Reaches-extract (key k ks v w x e m r) = rw (e, m) (Reaches-extract r)
Reaches-extract (each k ks v w x e m r) =
    rw e (concat_map-In (extract_path_values ks) w x (children v) m (Reaches-extract r))

-- A value names a role: it is the role, or a list that holds it.
pub data Names (role : Text) (v : Json) : Type 0 where
  text : role ≢ [] → v ≡ str role → Names role v
  item : (xs : Items) → role ≢ [] → v ≡ list xs → In (str role) (to_list xs) → Names role v

role_of-str : (role : Text) (v : Json) → In role (role_of v) → (role ≢ []) × (v ≡ str role)
role_of-str role (str (c ∷ s)) (inl e) = (λ d. cc, ap str e)
role_of-str role (str (c ∷ s)) (inr h) = absurd h
role_of-str role (str []) h = absurd h
role_of-str role v h = absurd h

str-role_of : (role : Text) → role ≢ [] → In role (role_of (str role))
str-role_of [] h = absurd (h refl)
str-role_of (c ∷ s) h = inl refl

roles_of_value-Names : (role : Text) (v : Json) → In role (roles_of_value v) → Names role v
unfolding roles_of_value
roles_of_value-Names role (list xs) h =
    let (item_of, m, n) = In-concat_map role_of role (to_list xs) h in
    let (full, e) = role_of-str role item_of n in
    item xs full refl (subst (λ x. In x (to_list xs)) e m)
roles_of_value-Names role (str s) h = let (full, e) = role_of-str role (str s) h in text full e
roles_of_value-Names role v h = absurd h

Names-roles_of_value : (role : Text) (v : Json) → Names role v → In role (roles_of_value v)
unfolding roles_of_value
Names-roles_of_value role v (text full e) = rw e (str-role_of role full)
Names-roles_of_value role v (item xs full e m) =
    rw e (concat_map-In role_of (str role) role (to_list xs) m (str-role_of role full))

-- `Grants claims paths role`: some configured path reaches a value that names the role.
abbrev pub Grants : Json → List Text → Text → Type 0
Grants claims paths role =
    (path : Text) × In path paths × (v : Json) × Reaches (split_on 46 path) claims v × Names role v

extract_roles-In :
    (claims : Json) (paths : List Text) (role : Text)
    → In role (extract_roles claims paths) ↔ Grants claims paths role
unfolding extract_roles
extract_roles-In claims paths role = (
  λ h.
      let (path, m, n) =
        In-concat_map
          (λ path. concat_map roles_of_value (extract_path_values (split_on 46 path) claims)) role
          paths h in
      let (v, r, g) =
        In-concat_map roles_of_value role (extract_path_values (split_on 46 path) claims) n in
      (path, m, v, extract-Reaches (split_on 46 path) claims v r, roles_of_value-Names role v g),
  λ g.
      let (path, m, v, r, n) = g in
      concat_map-In
        (λ path. concat_map roles_of_value (extract_path_values (split_on 46 path) claims)) path
        role paths m
        (concat_map-In roles_of_value v role (extract_path_values (split_on 46 path) claims)
          (Reaches-extract r) (Names-roles_of_value role v n)),
)

-- The roles of a token are what the configured claim paths reach: a role is found in the claims
-- exactly when a path, split at its dots, reaches the role itself or a list that holds it, through
-- the keys of mappings and, at "*", through every value of a mapping or a list; it is not empty.
pub extract_roles-Grants :
    (claims : Json) (paths : List Text) (role : Text)
    → (elem_text role (extract_roles claims paths) ≡ true) ↔ Grants claims paths role
extract_roles-Grants claims paths role =
    let (f, g) = elem_text-In role (extract_roles claims paths) in
    let (i, j) = extract_roles-In claims paths role in (λ h. i (f h), λ h. g (j h))
