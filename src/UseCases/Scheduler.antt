-- ===== src/UseCases/Scheduler.antt =====
-- internal/usecases/scheduler.py
-- `next_due` stands for croniter: the next moment of a cron line after another, `none` if the line
-- is refused. `locked` are the rows that another scheduler holds, none on SQLite; `keeps_zone` is
-- whether the database gives moments back with their zone.
mod Restore
pub mod Slots
use washing.Prelude.{
  ℕ, leb, Bool, true, false, not, ◌&&◌, Option, none, some, List, [], ◌∷◌, length, map, drop, Text,
  if◌then◌else◌,
}
use washing.Security.{Failure}
use washing.Queue.Tracking.{Moment, align, utcnow}
use washing.Db.{MachineProvisioner, update, update_each}
use washing.UseCases.Publishing.{Broker, Published, publish}

-- `next_due <= now`, both without a zone if one has none
unfoldable pub is_reached : Option Moment → Moment → Option Bool
unfolding align
is_reached none now = none
is_reached (some next) now = let (next', now') = align next now in some (leb next'.stamp now'.stamp)

-- `(provisioner.id, provisioner.last_scheduled_at)`
pub record Reserved : Type 0 where
  pub id : ℕ
  pub previous : Option ℕ

-- The outcome: croniter raised before anything was committed, or the rows and what was published.
pub data Dispatched : Type 0 where
  refused_cron : Dispatched
  dispatched : Published ℕ → List MachineProvisioner → Dispatched

abbrev pub schedule_at : Option ℕ → MachineProvisioner → MachineProvisioner
schedule_at at p = record p { last_scheduled_at = at }

abbrev pub provisioner_id : MachineProvisioner → ℕ
provisioner_id p = p.id

-- The rows whose publish never happened, set back.
unfoldable pub restore : List Reserved → List MachineProvisioner → List MachineProvisioner
unfolding update
restore [] rows = rows
restore (r ∷ rs) rows = restore rs (update provisioner_id r.id (schedule_at r.previous) rows)

abbrev pub reservation : MachineProvisioner → Reserved
reservation p = record { id = p.id; previous = p.last_scheduled_at }

-- The `except` branch, if the loop raised.
abbrev pub settle : Published ℕ → List Reserved → List MachineProvisioner → Dispatched
unfolding restore
settle outcome reserved rows = elim outcome.raised [
  | none ↦ dispatched outcome rows
  | some e ↦ dispatched outcome (restore (drop (length outcome.sent) reserved) rows)
]

abbrev pub with_due :
    Option Bool
    → MachineProvisioner
    → Option (List MachineProvisioner)
    → Option (List MachineProvisioner)
with_due none p rest = none
with_due (some b) p none = none
with_due (some b) p (some ps) = some (if b then p ∷ ps else ps)

module _ (next_due : Text → Moment → Option Moment) where
  unfoldable pub is_due : Text → Option Moment → Moment → Option Bool
  unfolding is_reached
  is_due cron none now = some true
  is_due cron (some last) now = is_reached (next_due cron last) now

  module _ (keeps_zone : Bool) (locked : ℕ → Bool) where
    abbrev pub last_scheduled : MachineProvisioner → Option Moment
    last_scheduled p = elim p.last_scheduled_at [
      | none ↦ none
      | some t ↦ some (record { stamp = t; aware = keeps_zone })
    ]

    -- The enabled rows that are due.
    unfoldable pub due_provisioners : ℕ → List MachineProvisioner → Option (List MachineProvisioner)
    unfolding is_due
    due_provisioners now [] = some []
    due_provisioners now (p ∷ ps) =
        let rest = due_provisioners now ps in
        if p.enabled && not (locked p.id)
        then with_due (is_due p.cron (last_scheduled p) (utcnow now)) p rest
        else rest

    abbrev pub dispatch :
        Broker ℕ → ℕ → Option (List MachineProvisioner) → List MachineProvisioner → Dispatched
    unfolding publish update_each
    dispatch enqueue now none rows = refused_cron
    dispatch enqueue now (some due) rows =
        settle (publish enqueue [] (map provisioner_id due)) (map reservation due)
          (update_each provisioner_id (map provisioner_id due) (schedule_at (some now)) rows)

    unfoldable pub dispatch_due_jobs : Broker ℕ → ℕ → List MachineProvisioner → Dispatched
    unfolding due_provisioners publish restore update_each
    dispatch_due_jobs enqueue now rows = dispatch enqueue now (due_provisioners now rows) rows
