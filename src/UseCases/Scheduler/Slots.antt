-- ===== src/UseCases/Scheduler/Slots.antt =====
-- Which slots of internal/usecases/scheduler.py stay taken.
use mathlib.Core.Path.{subst}
use washing.Prelude.{
  ◌&&◌, append-nil, Text, ◌||◌, ℕ, ◌≡◌, refl, ap, sym, ◌∙◌, Bool, true, false, not, Option, none,
  some, List, [], ◌∷◌, ◌++◌, All, arith, Bool-cases, inl, inr, if◌then◌else◌, drop, length, map,
  is_some, leb, keep_if, Option-cases, some_inj,
}
use washing.Queue.Tracking.{Moment, align, utcnow}
use washing.Security.{Failure}
use washing.Db.{
  none_neq_some, MachineProvisioner, get, update_each, elem_id, changed, changed_if,
  get-update_each, HasDistinctKeys, get-stored,
}
use washing.UseCases.Publishing.{Broker, Published, publish, publish-append, is_empty}
use washing.UseCases.Scheduler.{
  Reserved, Dispatched, dispatched, is_reached, schedule_at, provisioner_id, reservation, settle,
  dispatch, dispatch_due_jobs, due_provisioners, with_due, is_due, last_scheduled, refused_cron,
}
use washing.UseCases.Scheduler.Restore.{
  get-restore, AllStored, elem_id-append, drop-ids_of, drop-append, drop-AllHold,
  reservation-AllHold,
}

abbrev AllDue : (MachineProvisioner → Type 0) → Option (List MachineProvisioner) → Type 0
AllDue P none = Unit
AllDue P (some ds) = All P ds

with_due-AllDue :
    (P : MachineProvisioner → Type 0) (b : Option Bool) (p : MachineProvisioner)
    (rest : Option (List MachineProvisioner))
    → P p
    → AllDue P rest
    → AllDue P (with_due b p rest)
with_due-AllDue P none p rest h hs = tt
with_due-AllDue P (some b) p none h hs = tt
with_due-AllDue P (some true) p (some ps) h hs = (h, hs)
with_due-AllDue P (some false) p (some ps) h hs = hs

-- The rows after a run, and what it published: nothing if croniter raised.
abbrev pub rows_after : List MachineProvisioner → Dispatched → List MachineProvisioner
rows_after rows refused_cron = rows
rows_after rows (dispatched outcome rows') = rows'

abbrev pub outcome_of : Dispatched → Published ℕ
outcome_of refused_cron = record { sent = []; unsent = []; raised = none }
outcome_of (dispatched outcome rows) = outcome

-- A row after a run: its slot is taken if its task was published, and else is as it was.
abbrev pub slot : Published ℕ → ℕ → MachineProvisioner → MachineProvisioner
slot outcome now p =
    if elem_id p.id outcome.unsent
    then p
    else changed_if (elem_id p.id outcome.sent) (schedule_at (some now)) p

slot_restored :
    (unsent sent : Bool) (now : ℕ) (p : MachineProvisioner)
    → changed
        (changed_if unsent (schedule_at p.last_scheduled_at))
        (some (changed_if (sent || unsent) (schedule_at (some now)) p))
      ≡ some (if unsent then p else changed_if sent (schedule_at (some now)) p)
slot_restored true true now p = refl
slot_restored true false now p = refl
slot_restored false true now p = refl
slot_restored false false now p = refl

module _ (now : ℕ) (rows ds : List MachineProvisioner) (p : MachineProvisioner) where
  abbrev ids : List ℕ
  ids = map provisioner_id ds

  abbrev marked : List MachineProvisioner
  marked = update_each provisioner_id ids (schedule_at (some now)) rows

  get-marked :
      get provisioner_id rows p.id ≡ some p
      → get provisioner_id marked p.id
        ≡ some (changed_if (elem_id p.id ids) (schedule_at (some now)) p)
  get-marked found =
      get-update_each provisioner_id (schedule_at (some now)) ids p.id rows (λ a. refl) (λ a. refl)
      ∙ ap (changed (changed_if (elem_id p.id ids) (schedule_at (some now)))) found

  get-settle :
      (sent unsent : List ℕ) (raised : Option Failure)
      → sent ++ unsent ≡ ids
      → is_empty unsent ≡ not (is_some raised)
      → AllStored rows ds
      → get provisioner_id rows p.id ≡ some p
      → get provisioner_id
          (rows_after rows (
            settle
              (record { sent = sent; unsent = unsent; raised = raised })
              (map reservation ds)
              marked))
          p.id
        ≡ some (
            slot
              (outcome_of (
                settle
                  (record { sent = sent; unsent = unsent; raised = raised })
                  (map reservation ds)
                  marked))
              now
              p)
  unfolding settle
  get-settle sent [] none split ends stored found =
      get-marked found
      ∙ ap (λ l. some (changed_if (elem_id p.id l) (schedule_at (some now)) p))
          (sym split ∙ append-nil sent)
  get-settle sent (u ∷ us) none split ends stored found = absurd (ground arith)
  get-settle sent unsent (some e) split ends stored found =
      get-restore p.id p.last_scheduled_at (drop (length sent) (map reservation ds)) marked (
        drop-AllHold p.id p.last_scheduled_at (length sent) (map reservation ds)
          (reservation-AllHold p.id p rows ds found stored))
      ∙ ap
          (λ l.
            changed (changed_if (elem_id p.id l) (schedule_at p.last_scheduled_at))
              (get provisioner_id marked p.id))
          (drop-ids_of (length sent) ds
            ∙ ap (drop (length sent)) (sym split)
            ∙ drop-append sent unsent)
      ∙ ap (changed (changed_if (elem_id p.id unsent) (schedule_at p.last_scheduled_at))) (
          get-marked found
          ∙ ap (λ b. some (changed_if b (schedule_at (some now)) p))
              (ap (elem_id p.id) (sym split) ∙ elem_id-append p.id sent unsent))
      ∙ slot_restored (elem_id p.id unsent) (elem_id p.id sent) now p

  get-settled :
      (outcome : Published ℕ)
      → outcome.sent ++ outcome.unsent ≡ ids
      → is_empty outcome.unsent ≡ not (is_some outcome.raised)
      → AllStored rows ds
      → get provisioner_id rows p.id ≡ some p
      → get provisioner_id (rows_after rows (settle outcome (map reservation ds) marked)) p.id
        ≡ some (slot (outcome_of (settle outcome (map reservation ds) marked)) now p)
  unfolding settle
  get-settled outcome = get-settle outcome.sent outcome.unsent outcome.raised

-- The published tasks and the unpublished are those asked for, and some are left just if it raises.
abbrev pub Splits : List ℕ → Published ℕ → Type 0
Splits due outcome =
    (outcome.sent ++ outcome.unsent ≡ due)
    × (is_empty outcome.unsent ≡ not (is_some outcome.raised))

settle-raised :
    (due sent unsent : List ℕ) (raised : Option Failure) (reserved : List Reserved)
    (rows : List MachineProvisioner)
    → Splits due (record { sent = sent; unsent = unsent; raised = raised })
    → Splits due (
        outcome_of
          (settle (record { sent = sent; unsent = unsent; raised = raised }) reserved rows))
unfolding settle
settle-raised due sent unsent none reserved rows h = h
settle-raised due sent unsent (some e) reserved rows h = h

settle-Splits :
    (due : List ℕ) (outcome : Published ℕ) (reserved : List Reserved)
    (rows : List MachineProvisioner)
    → Splits due outcome
    → Splits due (outcome_of (settle outcome reserved rows))
unfolding settle
settle-Splits due outcome reserved rows h =
    settle-raised due outcome.sent outcome.unsent outcome.raised reserved rows h

-- What `is_due` says, and no where croniter raises.
abbrev says : Option Bool → Bool
says none = false
says (some b) = b

with_due-keep :
    (p : MachineProvisioner) (b : Option Bool) (rest : Option (List MachineProvisioner))
    (due kept : List MachineProvisioner)
    → with_due b p rest ≡ some due
    → ((ps : List MachineProvisioner) → rest ≡ some ps → ps ≡ kept)
    → due ≡ (if says b then p ∷ kept else kept)
with_due-keep p none rest due kept h k = absurd (none_neq_some due h)
with_due-keep p (some b) none due kept h k = absurd (none_neq_some due h)
with_due-keep p (some true) (some ps) due kept h k =
    sym (some_inj h) ∙ ap (λ qs. p ∷ qs) (k ps refl)
with_due-keep p (some false) (some ps) due kept h k = sym (some_inj h) ∙ k ps refl

module _ (next_due : Text → Moment → Option Moment) (keeps_zone : Bool) (locked : ℕ → Bool) where
  due-AllDue :
      (P : MachineProvisioner → Type 0) (now : ℕ) (rows : List MachineProvisioner)
      → All P rows
      → AllDue P (due_provisioners next_due keeps_zone locked now rows)
  unfolding due_provisioners
  due-AllDue P now [] h = tt
  due-AllDue P now (p ∷ ps) h = elim (Bool-cases (p.enabled && not (locked p.id))) [
    | inl e ↦ rw e (
        with_due-AllDue P
          (is_due next_due p.cron (last_scheduled next_due keeps_zone locked p) (utcnow now)) p
          (due_provisioners next_due keeps_zone locked now ps) h.0 (due-AllDue P now ps h.1))
    | inr e ↦ rw e (due-AllDue P now ps h.1)
  ]

  get-dispatch :
      (enqueue : Broker ℕ) (now : ℕ) (rows : List MachineProvisioner)
      (due : Option (List MachineProvisioner)) (p : MachineProvisioner)
      → AllDue (λ d. get provisioner_id rows d.id ≡ some d) due
      → get provisioner_id rows p.id ≡ some p
      → get provisioner_id
          (rows_after rows (dispatch next_due keeps_zone locked enqueue now due rows))
          p.id
        ≡ some (slot (outcome_of (dispatch next_due keeps_zone locked enqueue now due rows)) now p)
  unfolding dispatch
  get-dispatch enqueue now rows none p stored found = found
  get-dispatch enqueue now rows (some ds) p stored found =
      let outcome = publish enqueue [] (map provisioner_id ds) in
      let (split, ends) = publish-append enqueue [] (map provisioner_id ds) in
      get-settled now rows ds p outcome split ends stored found

  -- After a run, whatever the broker refused and whether croniter raised, the slot of a
  -- provisioner is taken if its task was published, and else is as it was before the run, with
  -- all its other columns. The provisioners' keys are distinct.
  pub dispatch_due_jobs-slot :
      (enqueue : Broker ℕ) (now : ℕ) (rows : List MachineProvisioner) (p : MachineProvisioner)
      → HasDistinctKeys provisioner_id rows
      → get provisioner_id rows p.id ≡ some p
      → get provisioner_id
          (rows_after rows (dispatch_due_jobs next_due keeps_zone locked enqueue now rows))
          p.id
        ≡ some (
            slot (outcome_of (dispatch_due_jobs next_due keeps_zone locked enqueue now rows)) now p)
  unfolding dispatch_due_jobs
  dispatch_due_jobs-slot enqueue now rows p distinct found =
      get-dispatch enqueue now rows (due_provisioners next_due keeps_zone locked now rows) p
        (due-AllDue (λ d. get provisioner_id rows d.id ≡ some d) now rows
          (get-stored provisioner_id rows distinct))
        found

  -- The test of a row of the query, written over what croniter answers.
  abbrev pub is_wanted : ℕ → MachineProvisioner → Bool
  is_wanted now p = (p.enabled && not (locked p.id)) && elim p.last_scheduled_at [
    | none ↦ true
    | some t ↦ elim (next_due p.cron (record { stamp = t; aware = keeps_zone })) [
      | none ↦ false
      | some next ↦ leb (align next (utcnow now)).0.stamp (align next (utcnow now)).1.stamp
    ]
  ]

  reached-says :
      (now : Moment) (o : Option Moment)
      → says (is_reached o now) ≡ elim o [
        | none ↦ false
        | some next ↦ leb (align next now).0.stamp (align next now).1.stamp
      ]
  unfolding is_reached
  reached-says now none = refl
  reached-says now (some next) = refl

  is_due-says :
      (now : ℕ) (cron : Text) (last : Option ℕ)
      → says (
          is_due next_due cron
            (elim last [ none ↦ none | some t ↦ some (record { stamp = t; aware = keeps_zone }) ])
            (utcnow now))
        ≡ elim last [
          | none ↦ true
          | some t ↦ elim (next_due cron (record { stamp = t; aware = keeps_zone })) [
            | none ↦ false
            | some next ↦ leb (align next (utcnow now)).0.stamp (align next (utcnow now)).1.stamp
          ]
        ]
  unfolding is_due
  is_due-says now cron none = refl
  is_due-says now cron (some t) =
      reached-says (utcnow now) (next_due cron (record { stamp = t; aware = keeps_zone }))

  due_provisioners-wanted :
      (now : ℕ) (rows due : List MachineProvisioner)
      → due_provisioners next_due keeps_zone locked now rows ≡ some due
      → due ≡ keep_if (is_wanted now) rows
  unfolding due_provisioners is_due is_reached
  due_provisioners-wanted now [] due h = sym (some_inj h)
  due_provisioners-wanted now (p ∷ ps) due h = elim (Bool-cases (p.enabled && not (locked p.id))) [
    | inr off ↦ rw off (due_provisioners-wanted now ps due (rw off at h))
    | inl on ↦ rw on (
        with_due-keep p
          (is_due next_due p.cron (last_scheduled next_due keeps_zone locked p) (utcnow now))
          (due_provisioners next_due keeps_zone locked now ps) due (keep_if (is_wanted now) ps)
          (rw on at h) (λ qs e. due_provisioners-wanted now ps qs e)
        ∙ ap
            (λ (b : Bool). if b then p ∷ keep_if (is_wanted now) ps else keep_if (is_wanted now) ps)
            (is_due-says now p.cron p.last_scheduled_at))
  ]

  dispatch-Splits :
      (enqueue : Broker ℕ) (now : ℕ) (rows due : List MachineProvisioner)
      → Splits
          (map provisioner_id due)
          (outcome_of (dispatch next_due keeps_zone locked enqueue now (some due) rows))
  unfolding dispatch
  dispatch-Splits enqueue now rows due =
      settle-Splits (map provisioner_id due) (publish enqueue [] (map provisioner_id due))
        (map reservation due)
        (update_each provisioner_id (map provisioner_id due) (schedule_at (some now)) rows)
        (publish-append enqueue [] (map provisioner_id due))

  -- If a run is not ended by croniter, the tasks it publishes, followed by those it leaves, are the
  -- provisioners that are enabled, not locked, and either never scheduled or with a next moment
  -- of their cron line that is not after now, in their order; and tasks are left just if the broker
  -- raises.
  pub dispatch_due_jobs-Splits :
      (enqueue : Broker ℕ) (now : ℕ) (rows rows' : List MachineProvisioner) (outcome : Published ℕ)
      → dispatch_due_jobs next_due keeps_zone locked enqueue now rows ≡ dispatched outcome rows'
      → Splits (map provisioner_id (keep_if (is_wanted now) rows)) outcome
  unfolding dispatch_due_jobs
  dispatch_due_jobs-Splits enqueue now rows rows' outcome h =
      elim (Option-cases (due_provisioners next_due keeps_zone locked now rows)) [
        | inl e ↦ absurd (ended e)
        | inr (due, e) ↦
            subst (λ ds. Splits (map provisioner_id ds) outcome)
              (due_provisioners-wanted now rows due e)
              (subst (Splits (map provisioner_id due))
                (ap outcome_of
                  (ap (λ o. dispatch next_due keeps_zone locked enqueue now o rows) (sym e) ∙ h))
                (dispatch-Splits enqueue now rows due))
      ]
    where
      ended : due_provisioners next_due keeps_zone locked now rows ≡ none → ⊥
      ended e =
          let bad : refused_cron ≡ dispatched outcome rows' =
            ap (λ o. dispatch next_due keeps_zone locked enqueue now o rows) (sym e) ∙ h in
          cc
