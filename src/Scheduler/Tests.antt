-- ===== src/Scheduler/Tests.antt =====
-- Runs of the maintenance windows at concrete times.
use armstrong_bot.Prelude.{ℕ, ◌-◌, ◌*◌, ◌/◌, ◌≡◌, refl, String, true, [], ◌∷◌}
use armstrong_bot.Scheduler.Maintenance.{SchedulerGuildConfig, resolve_against_maintenance}

-- An occurrence each hour, found strictly before the time.
abbrev prev : String → String → ℕ → ℕ
prev cron timezone at = (at - 1) / 3600000 * 3600000

abbrev config : SchedulerGuildConfig
config = record {
  timezone = "UTC";
  maintenance_windows =
      record { cron = "0 * * * *"; duration_minutes = 10; defer_non_critical = true } ∷ [];
}

pushed :
    resolve_against_maintenance prev 3600001 true config
    ≡ record { run_at = 4200000; deferred = true }
unfolding resolve_against_maintenance
pushed = refl
