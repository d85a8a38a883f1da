-- ===== src/Tests/UseCases.antt =====
-- Inputs for internal/usecases/: a broker that refuses after its first task, and one of each row.
use washing.Prelude.{
  ℕ, ◌+◌, ◌≤◌, ◌≡◌, refl, Bool, true, false, Option, none, some, List, [], ◌∷◌, Text, codes, ◌<◌,
  length, All, In, inl, inr, ◌⊎◌,
}
use washing.Security.{Failure, null}
use washing.Queue.Tracking.{Moment}
use washing.Db.{MachineProvisioner, get}
use washing.UseCases.Publishing.{Broker}
use washing.UseCases.Maintenance.{purge, purge-Split}
use washing.UseCases.Scheduler.{dispatch_due_jobs, provisioner_id}
use washing.UseCases.Scheduler.Slots.{
  rows_after, outcome_of, slot, Splits, dispatch_due_jobs-slot, dispatch_due_jobs-Splits,
}

-- Two texts in one day, the first at its start.
purge-Split_example :
    (deleted : ℕ) × (kept : List ℕ) × (purge (λ n. n) 1 86400000005 (3 ∷ 9 ∷ [])
      ≡ some (deleted, kept))
    × (deleted + length kept ≡ 2)
    × All (λ k. 5 ≤ k) kept
    × (In 9 kept ⊎ (9 < 5))
purge-Split_example = purge-Split (λ n. n) 1 86400000005 5 (3 ∷ 9 ∷ []) 9 refl (inr (inl refl))

abbrev pub down : Failure
down = record { is_json_decode_error = false; message = codes "broker down" }

abbrev pub once : Broker ℕ
once [] k = none
once (j ∷ js) k = some down

abbrev every_hour : Text → Moment → Option Moment
every_hour cron last = some (record { stamp = last.stamp + 60; aware = last.aware })

abbrev provisioner : ℕ → Option ℕ → MachineProvisioner
provisioner id last = record {
  id = id;
  platform_id = 1;
  name = codes "p";
  connector_type = codes "mock";
  config = null;
  enabled = true;
  cron = codes "0 * * * *";
  last_scheduled_at = last;
  last_run_at = none;
  last_success_at = none;
  last_error = none;
}

abbrev provisioners : List MachineProvisioner
provisioners = provisioner 1 none ∷ provisioner 2 (some 30) ∷ provisioner 3 (some 90) ∷ []

abbrev pub unlocked : ℕ → Bool
unlocked id = false

dispatch_due_jobs-slot_example :
    get provisioner_id
      (rows_after provisioners (dispatch_due_jobs every_hour false unlocked once 100 provisioners))
      2
    ≡ some (
        slot
          (outcome_of (dispatch_due_jobs every_hour false unlocked once 100 provisioners))
          100
          (provisioner 2 (some 30)))
unfolding get
dispatch_due_jobs-slot_example =
    dispatch_due_jobs-slot every_hour false unlocked once 100 provisioners (provisioner 2 (some 30))
      (refl, (refl, (refl, tt))) refl

dispatch_due_jobs-Splits_example :
    Splits
      (1 ∷ 2 ∷ [])
      (outcome_of (dispatch_due_jobs every_hour false unlocked once 100 provisioners))
unfolding dispatch_due_jobs
dispatch_due_jobs-Splits_example =
    dispatch_due_jobs-Splits every_hour false unlocked once 100 provisioners
      (rows_after provisioners (dispatch_due_jobs every_hour false unlocked once 100 provisioners))
      (outcome_of (dispatch_due_jobs every_hour false unlocked once 100 provisioners)) refl
