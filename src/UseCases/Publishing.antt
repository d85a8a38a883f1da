-- ===== src/UseCases/Publishing.antt =====
-- The loops of internal/usecases/scheduler.py, applications.py and metrics.py that publish one
-- task for each entry and stop at the first that the broker refuses.
use washing.Prelude.{
  ◌≡◌, refl, ◌∙◌, Bool, true, false, not, Option, none, some, is_some, Option-cases, inl, inr, List,
  [], ◌∷◌, ◌++◌, append_assoc,
}
use washing.Security.{Failure}

-- The broker's answer to a task, given those that it has taken already.
abbrev pub Broker : Type 0 → Type 0
Broker K = List K → K → Option Failure

-- What it took, what was never published, and what it raised.
pub record Published (K : Type 0) : Type 0 where
  pub sent : List K
  pub unsent : List K
  pub raised : Option Failure

module _ {K : Type 0} where
  unfoldable pub publish : Broker K → List K → List K → Published K
  publish enqueue sent [] = record { sent = sent; unsent = []; raised = none }
  publish enqueue sent (k ∷ ks) = elim (enqueue sent k) [
    | none ↦ publish enqueue (sent ++ k ∷ []) ks
    | some e ↦ record { sent = sent; unsent = k ∷ ks; raised = some e }
  ]

  abbrev pub is_empty : List K → Bool
  is_empty [] = true
  is_empty (k ∷ ks) = false

  -- Nothing is lost or reordered, and something is left exactly when the broker raises.
  pub publish-append :
      (enqueue : Broker K) (sent todo : List K)
      → ((publish enqueue sent todo).sent ++ (publish enqueue sent todo).unsent ≡ sent ++ todo)
        × (is_empty (publish enqueue sent todo).unsent
            ≡ not (is_some (publish enqueue sent todo).raised))
  unfolding publish
  publish-append enqueue sent [] = (refl, refl)
  publish-append enqueue sent (k ∷ ks) = elim (Option-cases (enqueue sent k)) [
    | inl e ↦
        rw (e, publish)
          (
            (publish-append enqueue (sent ++ k ∷ []) ks).0 ∙ append_assoc sent (k ∷ []) ks,
            (publish-append enqueue (sent ++ k ∷ []) ks).1,
          )
    | inr (f, e) ↦ rw (e, publish) (refl, refl)
  ]
