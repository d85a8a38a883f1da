-- ===== src/UseCases/Maintenance.antt =====
-- internal/usecases/maintenance.py
-- A purge takes the moment that it compares, so that one definition serves the three tables;
-- machines and applications come with the `updated_at` that SQLAlchemy keeps.
use washing.Prelude.{
  ℕ, suc, ◌+◌, ◌≤◌, ◌<◌, ◌≡◌, refl, ap, ltb, Option, none, some, List, [], ◌∷◌, length, All, In,
  codes, pos, arith, Bool-cases, inl, inr, ◌⊎◌, if◌then◌else◌,
}
use washing.Security.{Json, int, str, dict, end, field}
use washing.Queue.Tracking.{Execution}
use washing.Db.{Machine, Application}
use washing.UseCases.Clock.{earlier, days}

-- A row with its `updated_at`.
pub record Stamped (A : Type 0) : Type 0 where
  pub updated_at : ℕ
  pub row : A

-- `DELETE FROM ... WHERE ... < cutoff`, with the number of rows deleted
unfoldable pub delete_before : {A : Type 0} → (A → ℕ) → ℕ → List A → ℕ × List A
delete_before stamp cutoff [] = (0, [])
delete_before stamp cutoff (r ∷ rs) =
    let (deleted, rest) = delete_before stamp cutoff rs in
    if ltb (stamp r) cutoff then (suc deleted, rest) else (deleted, r ∷ rest)

-- `none` where the cutoff cannot be computed
abbrev pub purge_by : {A : Type 0} → (A → ℕ) → List A → Option ℕ → Option (ℕ × List A)
unfolding delete_before
purge_by stamp rows none = none
purge_by stamp rows (some cutoff) = some (delete_before stamp cutoff rows)

unfoldable pub purge : {A : Type 0} → (A → ℕ) → ℕ → ℕ → List A → Option (ℕ × List A)
unfolding delete_before
purge stamp retention_days now rows = purge_by stamp rows (earlier now (days retention_days))

abbrev completed : Json
completed = str (codes "completed")

abbrev with_result : {A : Type 0} → (ℕ → Json) → Option (ℕ × List A) → Option (Json × List A)
with_result result none = none
with_result result (some (deleted, rows)) = some (result deleted, rows)

abbrev purged : ℕ → Json
purged deleted =
    dict (field (codes "deleted") (int (pos deleted)) (field (codes "status") completed end))

unfoldable pub purge_old_task_executions : ℕ → ℕ → List Execution → Option (Json × List Execution)
unfolding purge
purge_old_task_executions retention_days now rows =
    with_result
      (λ deleted. dict (
        field (codes "deleted") (int (pos deleted)) (
          field (codes "retention_days") (int (pos retention_days))
            (field (codes "status") completed end))))
      (purge (λ e. e.queued_at.stamp) retention_days now rows)

unfoldable pub purge_stale_machines :
    ℕ → ℕ → List (Stamped Machine) → Option (Json × List (Stamped Machine))
unfolding purge
purge_stale_machines retention_days now rows =
    with_result purged (purge (λ r. r.updated_at) retention_days now rows)

unfoldable pub purge_stale_applications :
    ℕ → ℕ → List (Stamped Application) → Option (Json × List (Stamped Application))
unfolding purge
purge_stale_applications retention_days now rows =
    with_result purged (purge (λ r. r.updated_at) retention_days now rows)

module _ {A : Type 0} (stamp : A → ℕ) where
  delete_before-count :
      (cutoff : ℕ) (rows : List A)
      → (delete_before stamp cutoff rows).0 + length (delete_before stamp cutoff rows).1
        ≡ length rows
  unfolding delete_before
  delete_before-count cutoff [] = refl
  delete_before-count cutoff (r ∷ rs) = ground (arith, delete_before-count cutoff rs)

  delete_before-kept :
      (cutoff : ℕ) (rows : List A) → All (λ r. cutoff ≤ stamp r) (delete_before stamp cutoff rows).1
  unfolding delete_before
  delete_before-kept cutoff [] = tt
  delete_before-kept cutoff (r ∷ rs) = elim (Bool-cases (ltb (stamp r) cutoff)) [
    | inl e ↦ rw e (delete_before-kept cutoff rs)
    | inr e ↦ rw e (ground arith, delete_before-kept cutoff rs)
  ]

  delete_before-In :
      (cutoff : ℕ) (r : A) (rows : List A)
      → In r rows
      → cutoff ≤ stamp r
      → In r (delete_before stamp cutoff rows).1
  unfolding delete_before
  delete_before-In cutoff r [] h young = elim h [ ]
  delete_before-In cutoff r (x ∷ xs) (inl h) young = elim (Bool-cases (ltb (stamp x) cutoff)) [
    | inl e ↦ absurd (ground arith)
    | inr e ↦ rw e (inl h)
  ]
  delete_before-In cutoff r (x ∷ xs) (inr h) young = elim (Bool-cases (ltb (stamp x) cutoff)) [
    | inl e ↦ rw e (delete_before-In cutoff r xs h young)
    | inr e ↦ rw e (inr (delete_before-In cutoff r xs h young))
  ]

  kept_or_old :
      (cutoff : ℕ) (r : A) (rows : List A)
      → In r rows
      → In r (delete_before stamp cutoff rows).1 ⊎ (stamp r < cutoff)
  kept_or_old cutoff r rows h = elim (Bool-cases (ltb (stamp r) cutoff)) [
    | inl e ↦ inr (ground arith)
    | inr e ↦ inl (delete_before-In cutoff r rows h (ground arith))
  ]

  -- A purge whose cutoff can be computed keeps the rows that are not older than the cutoff and no
  -- others, and counts each row that it deletes once.
  pub purge-Split :
      (retention_days now cutoff : ℕ) (rows : List A) (r : A)
      → earlier now (days retention_days) ≡ some cutoff
      → In r rows
      → (deleted : ℕ) × (kept : List A) × (purge stamp retention_days now rows
          ≡ some (deleted, kept))
        × (deleted + length kept ≡ length rows)
        × All (λ k. cutoff ≤ stamp k) kept
        × (In r kept ⊎ (stamp r < cutoff))
  unfolding purge
  purge-Split retention_days now cutoff rows r h member = (
    (delete_before stamp cutoff rows).0,
    (delete_before stamp cutoff rows).1,
    ap (purge_by stamp rows) h,
    delete_before-count cutoff rows,
    delete_before-kept cutoff rows,
    kept_or_old cutoff r rows member,
  )
