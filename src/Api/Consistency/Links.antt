-- ===== src/Api/Consistency/Links.antt =====
-- The links between providers and provisioners that app/api/routes/ means to keep, for one
-- provisioner.
use mathlib.Core.Path.{subst}
use washing.Prelude.{
  ℕ, ◌<◌, ◌≡◌, ◌==◌, ◌⊎◌, inl, inr, refl, sym, ◌∙◌, Bool, true, false, ◌&&◌, ◌||◌, some, List, [],
  ◌∷◌, ◌++◌, keep_if, All, arith, Bool-cases,
}
use washing.Db.{
  MachineProvisioner, MachineProvider, ScopeName, cpu, ram, disk, eq_scope, get, elem_id,
  HasDistinctKeys,
}
use washing.Api.Store.{Store}
use washing.Api.Providers.{provider_id, provisioner_id, put_provider}
use washing.Api.Consistency.Tables.{
  Pairwise, All-imp, get-All, update-All, update-Pairwise, Pairwise-get, Others,
}
use washing.Api.Consistency.Keys.{keys-update}

-- A list that lost some ids has an id only if it had it.
pub elem-keep_if :
    (i : ℕ) (t : ℕ → Bool) (ids : List ℕ)
    → (elem_id i (keep_if t ids) ≡ false) ⊎ (elem_id i ids ≡ true)
elem-keep_if i t [] = inl refl
elem-keep_if i t (j ∷ ids) = elim (Bool-cases (j == i)) [
  | inl e ↦ inr (rw e)
  | inr e ↦ elim (Bool-cases (t j)) [
    | inl d ↦ rw (d, e) (elem-keep_if i t ids)
    | inr d ↦ rw (d, e) (elem-keep_if i t ids)
  ]
]

pub elem-snoc : (i j : ℕ) (ids : List ℕ) → elem_id i (ids ++ (j ∷ [])) ≡ (elem_id i ids || j == i)
elem-snoc i j [] = ground arith
elem-snoc i j (k ∷ ids) = rw (elem-snoc i j ids) (ground arith)

pub false_or_true : (b : Bool) → (b ≡ false) ⊎ (b ≡ true)
false_or_true true = inr refl
false_or_true false = inl refl

pub eq_scope-sym : (s t : ScopeName) → eq_scope s t ≡ eq_scope t s
eq_scope-sym cpu cpu = refl
eq_scope-sym cpu ram = refl
eq_scope-sym cpu disk = refl
eq_scope-sym ram cpu = refl
eq_scope-sym ram ram = refl
eq_scope-sym ram disk = refl
eq_scope-sym disk cpu = refl
eq_scope-sym disk ram = refl
eq_scope-sym disk disk = refl

module _ (i : ℕ) where
  -- Both have the provisioner, and one scope.
  abbrev pub clash : MachineProvider → MachineProvider → Bool
  clash p r =
      elem_id i p.provisioner_ids && (elem_id i r.provisioner_ids && eq_scope p.scope r.scope)

  abbrev pub Apart : MachineProvider → MachineProvider → Type 0
  Apart p r = clash p r ≡ false

  -- If the provider has the provisioner, that is a row of the provider's platform.
  abbrev pub Placed : List MachineProvisioner → MachineProvider → Type 0
  Placed provisioners p =
      (elem_id i p.provisioner_ids ≡ false)
      ⊎ ((q : MachineProvisioner) × (get provisioner_id provisioners i ≡ some q)
          × (q.platform_id ≡ p.platform_id))

  -- No two providers of one scope have the provisioner, and one that has it is on its platform.
  -- Keys are distinct, and the sequence is past them.
  abbrev pub IsConsistent : Store → Type 0
  IsConsistent st =
      All (Placed st.provisioners) st.providers
      × Pairwise Apart st.providers
      × HasDistinctKeys provider_id st.providers
      × All (λ p. p.id < st.next_provider_id) st.providers

  pub Apart-sym : (p r : MachineProvider) → Apart p r → Apart r p
  Apart-sym p r h = rw (eq_scope-sym r.scope p.scope) (ground (arith, h))

  -- A provider that differs only by fewer provisioners.
  pub data Shrinks (p r : MachineProvider) : Type 0 where
    shrinks :
        r.id ≡ p.id
        → r.platform_id ≡ p.platform_id
        → r.scope ≡ p.scope
        → (elem_id i r.provisioner_ids ≡ false) ⊎ (elem_id i p.provisioner_ids ≡ true)
        → Shrinks p r

  pub Shrinks-refl : (p : MachineProvider) → Shrinks p p
  Shrinks-refl p = shrinks refl refl refl (false_or_true (elem_id i p.provisioner_ids))

  pub Shrinks-Apart :
      (p p' r r' : MachineProvider) → Shrinks p p' → Shrinks r r' → Apart p r → Apart p' r'
  Shrinks-Apart p p' r r' (shrinks _ _ s h) (shrinks _ _ t k) apart =
      rw (s, t) (ground (arith, h, k, apart))

  pub Shrinks-Placed :
      (qs : List MachineProvisioner) (p p' : MachineProvider)
      → Shrinks p p'
      → Placed qs p
      → Placed qs p'
  Shrinks-Placed qs p p' (shrinks _ e _ (inl h)) k = inl h
  Shrinks-Placed qs p p' (shrinks _ e _ (inr h)) (inl k) = absurd (ground arith)
  Shrinks-Placed qs p p' (shrinks _ e _ (inr h)) (inr (q, found, on)) = inr (q, found, on ∙ sym e)

  module _ (st : Store) (id : ℕ) (f : MachineProvider → MachineProvider) (p : MachineProvider) where
    -- One row is changed: it stays placed, and apart from the others.
    pub put-IsConsistent :
        ((r : MachineProvider) → (f r).id ≡ r.id)
        → get provider_id st.providers id ≡ some p
        → Placed st.provisioners (f p)
        → Others provider_id f id p (Apart (f p)) st.providers
        → IsConsistent st
        → IsConsistent (put_provider st f id)
    put-IsConsistent keeps found placed apart (all, pairs, keys, below) = (
      update-All provider_id f id p (Placed st.provisioners) st.providers found keys all placed,
      update-Pairwise provider_id f id p Apart Apart-sym st.providers found keys pairs apart,
      keys-update provider_id f keeps id st.providers keys,
      update-All provider_id f id p (λ p. p.id < st.next_provider_id) st.providers found keys below
          (subst (λ n. n < st.next_provider_id) (sym (keeps p))
            (get-All provider_id (λ p. p.id < st.next_provider_id) st.providers id p below found)),
    )

    pub shrink-IsConsistent :
        ((r : MachineProvider) → (f r).id ≡ r.id)
        → get provider_id st.providers id ≡ some p
        → Shrinks p (f p)
        → IsConsistent st
        → IsConsistent (put_provider st f id)
    shrink-IsConsistent keeps found less (all, pairs, keys, below) =
        put-IsConsistent keeps found
          (Shrinks-Placed st.provisioners p (f p) less
            (get-All provider_id (Placed st.provisioners) st.providers id p all found))
          (All-imp (λ r. ((r.id == id) ≡ true) ⊎ Apart p r)
            (λ r. ((r.id == id) ≡ true) ⊎ Apart (f p) r) st.providers
            (Pairwise-get provider_id f id p Apart Apart-sym st.providers found keys pairs)
            (λ r h. elim h [
              | inl e ↦ inl e
              | inr a ↦ inr (Shrinks-Apart p (f p) r r less (Shrinks-refl r) a)
            ]))
          (all, pairs, keys, below)
