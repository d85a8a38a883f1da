-- ===== src/UseCases/Applications/Chosen.antt =====
-- Which applications a run of internal/usecases/applications.py chooses.
use washing.Prelude.{
  ℕ, ◌≡◌, Bool, true, not, none, some, is_some, List, ◌++◌, map, FloatOps, leb, ◌&&◌, take, keep_if,
  sort_with,
}
use washing.Db.{Application}
use washing.UseCases.Publishing.{Broker, Published, is_empty}
use washing.UseCases.Applications.Defs.{
  is_earlier, DispatchedSyncs, window_overflow, dispatched, application_id,
}

-- What a run publishes and leaves: these tasks, and some are left just if the broker raises.
abbrev pub Splits : List ℕ → Published ℕ → Type 0
Splits due outcome =
    (outcome.sent ++ outcome.unsent ≡ due)
    × (is_empty outcome.unsent ≡ not (is_some outcome.raised))

abbrev pub batch_of : DispatchedSyncs → ℕ
batch_of window_overflow = 0
batch_of (dispatched outcome batch_size rows) = batch_size

module _ (fl : FloatOps) (locked : ℕ → Bool) (enqueue : Broker ℕ) (now : ℕ)
    (rows : List Application) (due_before retry_before : ℕ) where
  -- The test of a row of the query.
  abbrev pub is_wanted : Application → Bool
  is_wanted a =
      (elim a.sync_at [ none ↦ true | some t ↦ leb t due_before ]
        && elim a.sync_scheduled_at [ none ↦ true | some t ↦ leb t retry_before ])
      && not (locked a.id)

  abbrev pub wanted : ℕ → List ℕ
  wanted batch_size =
      map application_id (take batch_size (sort_with is_earlier (keep_if is_wanted rows)))
