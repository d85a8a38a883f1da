-- ===== src/Queue.antt =====
-- internal/infra/queue: the tracking of Celery tasks
pub mod Context
pub mod Tracking
