-- ===== src/Queue/Tracking/Lookup.antt =====
-- The rows of a table by task id: what an insert and an update do to a lookup.
use washing.Prelude.{
  ◌≡◌, refl, sym, ap, ◌∙◌, Option, none, some, or_else, is_some, List, [], ◌∷◌, ◌++◌, Text, eq_text,
  eq_text_iff, arith, if◌then◌else◌, Bool-cases, inl, inr,
}
use washing.Queue.Tracking.Rows.{
  Execution, find_execution, update_execution, insert_execution, mutate_execution,
}

pub find_execution-append :
    (id : Text) (xs ys : List Execution)
    → find_execution id (xs ++ ys) ≡ or_else (find_execution id xs) (find_execution id ys)
unfolding find_execution
find_execution-append id [] ys = refl
find_execution-append id (x ∷ xs) ys = ground (arith, find_execution-append id xs ys)

pub find_execution-one :
    (id : Text) (e : Execution)
    → find_execution id (e ∷ []) ≡ (if eq_text e.task_id id then some e else none)
unfolding find_execution
find_execution-one id e = refl

-- A row found has the id that was asked for.
pub task_id_of_found :
    (id : Text) (xs : List Execution) (e : Execution)
    → find_execution id xs ≡ some e
    → e.task_id ≡ id
unfolding find_execution
task_id_of_found id [] e h = cc
task_id_of_found id (x ∷ xs) e h = elim (Bool-cases (eq_text x.task_id id)) [
  | inl same ↦
      let p : x ≡ e = ground arith in
      ap (λ (r : Execution). r.task_id) (sym p) ∙ (eq_text_iff x.task_id id).0 same
  | inr other ↦ task_id_of_found id xs e (ground arith)
]

-- A change of a row that leaves its key.
abbrev pub KeepsId : (Execution → Execution) → Type 0
KeepsId f = (e : Execution) → (f e).task_id ≡ e.task_id

abbrev pub map_found : (Execution → Execution) → Option Execution → Option Execution
map_found f none = none
map_found f (some e) = some (f e)

module _ (f : Execution → Execution) (keeps : KeepsId f) (id : Text) where
  pub find_execution-update :
      (j : Text) (xs : List Execution)
      → find_execution j (update_execution id f xs)
        ≡ (if eq_text id j then map_found f (find_execution id xs) else find_execution j xs)
  unfolding find_execution update_execution
  find_execution-update j [] = ground arith
  find_execution-update j (x ∷ xs) = ground (
    arith,
    find_execution-update j xs,
    keeps x,
    eq_text_iff id j,
    eq_text_iff x.task_id id,
    eq_text_iff x.task_id j,
    eq_text_iff (f x).task_id j,
  )

-- Insert a changed fresh row, or change the row that is there, in one step.
unfoldable pub upsert : Execution → (Execution → Execution) → List Execution → List Execution
upsert fresh f rows =
    if is_some (find_execution fresh.task_id rows)
    then update_execution fresh.task_id f rows
    else rows ++ f fresh ∷ []

abbrev pub found_or : Execution → Option Execution → Execution
found_or fresh none = fresh
found_or fresh (some e) = e

module _ (fresh : Execution) (f : Execution → Execution) (keeps : KeepsId f) where
  pub find_execution-upsert :
      (j : Text) (rows : List Execution)
      → find_execution j (upsert fresh f rows) ≡ (
          if eq_text fresh.task_id j
          then some (f (found_or fresh (find_execution fresh.task_id rows)))
          else find_execution j rows)
  unfolding upsert
  find_execution-upsert j rows = ground (
    arith,
    find_execution-update f keeps fresh.task_id j rows,
    find_execution-append j rows (f fresh ∷ []),
    find_execution-one j (f fresh),
    keeps fresh,
    eq_text_iff fresh.task_id j,
  )

  -- A worker that loses the race of the insert changes the row that won it, so the handler does
  -- in two attempts what one atomic step does after the inserts of the others.
  pub mutate_execution-eq-upsert :
      (others rows : List Execution)
      → mutate_execution fresh f others rows ≡ upsert fresh f (rows ++ others)
  unfolding mutate_execution insert_execution upsert
  mutate_execution-eq-upsert others rows =
      ground (arith, find_execution-append fresh.task_id rows others, keeps fresh)
