-- ===== src/Scheduler/Maintenance/Deferral.antt =====
-- When and where a job is deferred (scheduler.domain-service.ts).
use armstrong_bot.Prelude.{ℕ, ◌+◌, ◌*◌, ◌<◌, ◌≡◌, ◌⊎◌, String, true}
use armstrong_bot.Scheduler.Maintenance.{MaintenanceWindowConfig, SchedulerGuildConfig, Resolved}

module _ (prev : String → String → ℕ → ℕ) where
  -- The rounds move the time only later, and say so.
  abbrev Moves : Resolved → Resolved → Type 0
  Moves r t = (t ≡ r) ⊎ ((t.deferred ≡ true) × (r.run_at < t.run_at))

  -- A window of the configuration that defers jobs and that is open at a time: it began at its last
  -- occurrence, and its minutes are not yet over.
  abbrev pub IsOpen : SchedulerGuildConfig → ℕ → MaintenanceWindowConfig → Type 0
  IsOpen config at c =
      (c.defer_non_critical ≡ true)
      × (at < prev c.cron config.timezone at + c.duration_minutes * 60000)
