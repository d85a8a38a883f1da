-- ===== src/Api/Consistency/Guards.antt =====
-- What the guards of app/api/routes/machines/ have found when they let a request go on.
use washing.Prelude.{
  ℕ, ◌≡◌, ◌==◌, ◌⊎◌, ==_iff, inl, inr, refl, sym, ap, ◌∙◌, Bool, true, false, not, ◌&&◌, Option,
  none, some, is_some, List, [], ◌∷◌, All, Text, arith, Bool-cases, Option-cases,
}
use washing.Db.{
  MachineProvisioner, MachineProvider, ScopeName, eq_scope, get, elem_id, none_neq_some,
  find_provider_scope_conflict,
}
use washing.Api.Store.{
  Store, Reply, done, refused, raised, ◌>>=◌, require, get_or_404, rows_of, cons_found,
  scope_conflict, attached_providers,
}
use washing.Api.Providers.{
  ensure_platform_matches, ensure_scope_matches, ensure_no_conflict, scope_taken, other_platform,
}

pub done_inj : {A : Type 0} {a b : A} → ◌≡◌ {A = Reply A} (done a) (done b) → a ≡ b
done_inj h = cc

-- A chain that is done: its first part is.
pub >>=-done :
    {A B : Type 0} (m : Reply A) (f : A → Reply B) (b : B)
    → (m >>= f) ≡ done b
    → (a : A) × (m ≡ done a) × (f a ≡ done b)
>>=-done (done a) f b h = (a, refl, h)
>>=-done (refused status detail) f b h = cc
>>=-done raised f b h = cc

pub require-done :
    (t : Bool) (status : ℕ) (detail : Text) (u : Unit {0})
    → require t status detail ≡ done u
    → t ≡ true
require-done true status detail u h = refl
require-done false status detail u h = cc

pub get_or_404-done :
    {A : Type 0} (key : A → ℕ) (rows : List A) (id : ℕ) (detail : Text) (r : A)
    → get_or_404 key rows id detail ≡ done r
    → get key rows id ≡ some r
unfolding get_or_404
get_or_404-done key rows id detail r h = elim (Option-cases (get key rows id)) [
  | inl e ↦ let bad : ◌≡◌ {A = Reply _} (refused 404 detail) (done r) = rw e at h in cc
  | inr (a, e) ↦ e ∙ ap some (done_inj (rw e at h))
]

cons_found-All :
    {A : Type 0} (P : A → Type 0) (o : Option A) (rest : List A)
    → All P (cons_found o rest)
    → All P rest
cons_found-All P none rest h = h
cons_found-All P (some r) rest h = h.1

pub rows_of-All :
    {A : Type 0} (key : A → ℕ) (P : A → Type 0) (rows : List A) (ids : List ℕ) (i : ℕ) (a : A)
    → All P (rows_of key rows ids)
    → elem_id i ids ≡ true
    → get key rows i ≡ some a
    → P a
unfolding rows_of
rows_of-All key P rows [] i a all h found = absurd (ground arith)
rows_of-All key P rows (j ∷ ids) i a all h found = elim (Bool-cases (j == i)) [
  | inl e ↦
      let found_j : get key rows j ≡ some a = ap (get key rows) ((==_iff j i).0 e) ∙ found in
      (rw found_j at all).0
  | inr e ↦
      rows_of-All key P rows ids i a (cons_found-All P (get key rows j) (rows_of key rows ids) all)
        (rw e at h) found
]

pub ensure_platform_matches-All :
    (platform : ℕ) (qs : List MachineProvisioner)
    → ensure_platform_matches platform qs ≡ done tt
    → All (λ q. q.platform_id ≡ platform) qs
unfolding ensure_platform_matches
ensure_platform_matches-All platform [] h = tt
ensure_platform_matches-All platform (q ∷ qs) h =
    let (u, e, k) =
      >>=-done (require (q.platform_id == platform) 400 other_platform)
        (λ _. ensure_platform_matches platform qs) tt h in
    (
      (==_iff q.platform_id platform).0
          (require-done (q.platform_id == platform) 400 other_platform u e),
      ensure_platform_matches-All platform qs k,
    )

-- No other provider of the scope has the provisioner.
abbrev pub IsFree : List MachineProvider → ScopeName → Option ℕ → ℕ → Type 0
IsFree providers scope id i = scope_conflict providers i scope id ≡ none

pub ensure_no_conflict-IsFree :
    (st : Store) (scope : ScopeName) (id : Option ℕ) (i : ℕ) (u : Unit {0})
    → ensure_no_conflict st scope id i ≡ done u
    → IsFree st.providers scope id i
unfolding ensure_no_conflict
ensure_no_conflict-IsFree st scope id i u h =
    elim (Option-cases (scope_conflict st.providers i scope id)) [
      | inl e ↦ e
      | inr (p, e) ↦
          let no =
            require-done (not (is_some (scope_conflict st.providers i scope id))) 409 scope_taken u
              h in
          absurd (ground (arith, no, rw e at no))
    ]

pub ensure_scope_matches-All :
    (st : Store) (scope : ScopeName) (id : ℕ) (qs : List MachineProvisioner)
    → ensure_scope_matches st scope id qs ≡ done tt
    → All (λ q. IsFree st.providers scope (some id) q.id) qs
unfolding ensure_scope_matches
ensure_scope_matches-All st scope id [] h = tt
ensure_scope_matches-All st scope id (q ∷ qs) h =
    let (u, e, k) =
      >>=-done (ensure_no_conflict st scope (some id) q.id)
        (λ _. ensure_scope_matches st scope id qs) tt h in
    (
      ensure_no_conflict-IsFree st scope (some id) q.id u e,
      ensure_scope_matches-All st scope id qs k,
    )

-- The provider has the provisioner, for the scope.
abbrev pub serves : ℕ → ScopeName → MachineProvider → Bool
serves i scope r = elem_id i r.provisioner_ids && eq_scope r.scope scope

pub free-Others :
    (providers : List MachineProvider) (scope : ScopeName) (id i : ℕ)
    → IsFree providers scope (some id) i
    → All (λ r. ((r.id == id) ≡ true) ⊎ (serves i scope r ≡ false)) providers
unfolding scope_conflict find_provider_scope_conflict attached_providers
free-Others [] scope id i h = tt
free-Others (r ∷ rs) scope id i h = elim (Bool-cases (elem_id i r.provisioner_ids)) [
  | inr e ↦ (inr (rw e), free-Others rs scope id i (rw e at h))
  | inl e ↦ elim (Bool-cases (r.id == id)) [
    | inl d ↦ (inl d, free-Others rs scope id i (rw (e, d) at h))
    | inr d ↦ elim (Bool-cases (eq_scope r.scope scope)) [
      | inl g ↦ absurd (none_neq_some r (sym (rw (e, d, g) at h)))
      | inr g ↦ (inr (rw (e, g)), free-Others rs scope id i (rw (e, d, g) at h))
    ]
  ]
]

pub free-All :
    (providers : List MachineProvider) (scope : ScopeName) (i : ℕ)
    → IsFree providers scope none i
    → All (λ r. serves i scope r ≡ false) providers
unfolding scope_conflict find_provider_scope_conflict attached_providers
free-All [] scope i h = tt
free-All (r ∷ rs) scope i h = elim (Bool-cases (elem_id i r.provisioner_ids)) [
  | inr e ↦ (rw e, free-All rs scope i (rw e at h))
  | inl e ↦ elim (Bool-cases (eq_scope r.scope scope)) [
    | inl g ↦ absurd (none_neq_some r (sym (rw (e, g) at h)))
    | inr g ↦ (rw (e, g), free-All rs scope i (rw (e, g) at h))
  ]
]
