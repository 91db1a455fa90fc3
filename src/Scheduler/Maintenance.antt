-- ===== src/Scheduler/Maintenance.antt =====
-- src/modules/scheduler/domain/maintenance-window.vo.ts and `resolveAgainstMaintenance` of
-- domain/scheduler.domain-service.ts. Times are in milliseconds; `prev` is the occurrence of a cron
-- expression in a time zone that the external parser finds before a time.
pub mod Deferral
use armstrong_bot.Prelude.{
  ℕ, zero, suc, ◌+◌, ◌*◌, String, Bool, true, false, ◌&&◌, List, map, Option, none, some, find, ltb,
  if◌then◌else◌, length,
}

pub record MaintenanceWindowConfig : Type 0 where
  pub cron : String
  pub duration_minutes : ℕ
  pub defer_non_critical : Bool

pub record SchedulerGuildConfig : Type 0 where
  pub timezone : String
  pub maintenance_windows : List MaintenanceWindowConfig

pub record MaintenanceWindow : Type 0 where
  pub cron : String
  pub duration_ms : ℕ
  pub defer_non_critical : Bool
  pub timezone : String

abbrev pub window_from : String → MaintenanceWindowConfig → MaintenanceWindow
window_from timezone c = record {
  cron = c.cron;
  duration_ms = c.duration_minutes * 60000;
  defer_non_critical = c.defer_non_critical;
  timezone = timezone;
}

abbrev pub windows_of : SchedulerGuildConfig → List MaintenanceWindow
windows_of config = map (window_from config.timezone) config.maintenance_windows

pub record Resolved : Type 0 where
  pub run_at : ℕ
  pub deferred : Bool

module _ (prev : String → String → ℕ → ℕ) where
  -- `at - prev < duration`, with nothing subtracted
  abbrev pub start_covering : MaintenanceWindow → ℕ → Option ℕ
  start_covering w at =
      let start = prev w.cron w.timezone at in
      if ltb at (start + w.duration_ms) then some start else none

  abbrev pub contains : MaintenanceWindow → ℕ → Bool
  contains w at = elim (start_covering w at) [ none ↦ false | some _ ↦ true ]

  abbrev pub end_of_window_at : MaintenanceWindow → ℕ → Option ℕ
  end_of_window_at w at = elim (start_covering w at) [
    | none ↦ none
    | some start ↦ some (start + w.duration_ms)
  ]

  abbrev pub find_blocking : List MaintenanceWindow → ℕ → Option MaintenanceWindow
  find_blocking windows at = find (λ w. w.defer_non_critical && contains w at) windows

  -- Where the first blocking window ends, if there is one.
  abbrev pub next_cursor : List MaintenanceWindow → ℕ → Option ℕ
  next_cursor windows at = elim (find_blocking windows at) [
    | none ↦ none
    | some w ↦ end_of_window_at w at
  ]

  -- The loop, by the rounds that are left.
  pub defer_rounds : ℕ → List MaintenanceWindow → Resolved → Resolved
  defer_rounds zero windows r = r
  defer_rounds (suc left) windows r = elim (next_cursor windows r.run_at) [
    | none ↦ r
    | some end ↦ defer_rounds left windows (record { run_at = end; deferred = true })
  ]

  unfoldable pub resolve_against_maintenance : ℕ → Bool → SchedulerGuildConfig → Resolved
  unfolding defer_rounds
  resolve_against_maintenance run_at deferrable config =
      let start : Resolved = record { run_at = run_at; deferred = false } in
      if deferrable
      then defer_rounds (length (windows_of config) * 2 + 1) (windows_of config) start
      else start
