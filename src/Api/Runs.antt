-- ===== src/Api/Runs.antt =====
-- app/api/routes/machines/providers.py and provisioners.py, the routes that enqueue tasks
-- A handler returns the name of the task and its argument; enqueueing is in Publishing.
use washing.Prelude.{ℕ, Option, none, some, any, Text, codes}
use washing.Queue.Context.{run_provider_task, run_provisioner_task}
use washing.Api.Store.{Store, Reply, done, ◌>>=◌, ◌>>◌, require, get_or_404}
use washing.Api.Providers.{load_provider, provisioner_id}
use washing.Api.Provisioners.{no_provisioner}

pub record Enqueued : Type 0 where
  pub task_name : Text
  pub argument : Option ℕ

abbrev pub dispatch_enabled_provider_syncs_task : Text
dispatch_enabled_provider_syncs_task = codes "providers.dispatch_enabled_syncs"

abbrev pub dispatch_due_machine_provisioner_jobs_task : Text
dispatch_due_machine_provisioner_jobs_task = codes "scheduler.dispatch_due_machine_provisioner_jobs"

-- `enqueue_provider_sync`
unfoldable pub enqueue_provider_sync : Store → Reply Enqueued
enqueue_provider_sync st =
    require (any (λ p. p.enabled) st.providers) 409
      (codes "at least one enabled provider is required before syncing machine metrics")
    >> done (record { task_name = dispatch_enabled_provider_syncs_task; argument = none })

-- `enqueue_provider_run`
unfoldable pub enqueue_provider_run : Store → ℕ → Reply Enqueued
unfolding load_provider
enqueue_provider_run st id = do
  p ← load_provider st id
  require p.enabled 409 (codes "provider must be enabled before it can run")
  done (record { task_name = run_provider_task; argument = some id })

-- `enqueue_provisioner_sync`
abbrev pub enqueue_provisioner_sync : Enqueued
enqueue_provisioner_sync = record {
  task_name = dispatch_due_machine_provisioner_jobs_task;
  argument = none;
}

-- `enqueue_provisioner_run`
unfoldable pub enqueue_provisioner_run : Store → ℕ → Reply Enqueued
unfolding get_or_404
enqueue_provisioner_run st id = do
  q ← get_or_404 provisioner_id st.provisioners id no_provisioner
  require q.enabled 409 (codes "provisioner must be enabled before it can run")
  done (record { task_name = run_provisioner_task; argument = some id })
