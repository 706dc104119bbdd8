-- ===== src/Metrics/Alerts.antt =====
-- src/metrics.rs: `ConnectionMetrics`, the constructor of the collector, and `AlertManager` with its
-- callbacks. A callback is what it does to the rest of the program.
use xprotocol.Prelude.{
  ℕ, ◌≡◌, refl, ap, String, Bool, List, [], ◌∷◌, ◌++◌, map, str_append, str_eq, Bool-cases, inl,
  inr,
}
use xprotocol.Prelude.Dict.{Dict}
use mathlib.Core.List.{map-append}
use xprotocol.Metrics.{ConnectionTracker, MetricsCollector, new_tracker}
use xprotocol.Metrics.Snapshots.{
  AlertRule, AlertSeverity, warning, critical, Alert, RequestMetrics, should_alert, check_rules,
  check_snapshots, check, snapshot_all,
}

pub record ConnectionMetrics : Type 0 where
  pub total_connections : ℕ
  pub active_connections : ℕ
  pub peak_connections : ℕ
  pub closed_connections : ℕ
  pub connection_errors : ℕ

abbrev pub connection_snapshot : ConnectionTracker → ConnectionMetrics
connection_snapshot t = record {
  total_connections = t.total_connections;
  active_connections = t.active_connections;
  peak_connections = t.peak_connections;
  closed_connections = t.closed_connections;
  connection_errors = t.connection_errors;
}

unfoldable pub new_collector : MetricsCollector
new_collector = record { services = []; connections = new_tracker }

abbrev pub connection_tracker : MetricsCollector → ConnectionTracker
connection_tracker c = c.connections

-- `impl Display`
abbrev pub severity_text : AlertSeverity → String
severity_text warning = "WARNING"
severity_text critical = "CRITICAL"

abbrev pub alert_text : Alert → String
alert_text a = str_append "[" (
    str_append (severity_text a.severity)
      (str_append "] " (str_append a.rule_name (str_append " - " a.message))))

pub record AlertManager (F64 W : Type 0) : Type 0 where
  pub rules : List (AlertRule F64)
  pub callbacks : List (Alert → W → W)

module _ {F64 W : Type 0} where
  abbrev pub new_manager : AlertManager F64 W
  new_manager = record { rules = []; callbacks = [] }

  abbrev pub add_rule : AlertRule F64 → AlertManager F64 W → AlertManager F64 W
  add_rule rule m = record m { rules = m.rules ++ rule ∷ [] }

  abbrev pub add_callback : (Alert → W → W) → AlertManager F64 W → AlertManager F64 W
  add_callback callback m = record m { callbacks = m.callbacks ++ callback ∷ [] }

module _ {W : Type 0} where
  -- one alert, to every callback in the order in which they were added
  unfoldable pub tell : List (Alert → W → W) → Alert → W → W
  tell [] a w = w
  tell (callback ∷ callbacks) a w = tell callbacks a (callback a w)

  unfoldable pub tell_each : List (Alert → W → W) → List Alert → W → W
  unfolding tell
  tell_each callbacks [] w = w
  tell_each callbacks (a ∷ alerts) w = tell_each callbacks alerts (tell callbacks a w)

-- `AlertManager::check`: the alerts, and what the callbacks do
unfoldable pub check_all :
    {F64 W : Type 0}
    → (ℕ → ℕ → F64 → Bool)
    → (ℕ → ℕ → ℕ)
    → ℕ
    → AlertManager F64 W
    → MetricsCollector
    → W
    → W
check_all rate_above rank now m c w = tell_each m.callbacks (check rate_above rank now m.rules c) w

module _ {F64 : Type 0} (rate_above : ℕ → ℕ → F64 → Bool) where
  abbrev named : List Alert → List String
  named alerts = map (λ (a : Alert). a.rule_name) alerts

  check_rules-times :
      (now later : ℕ) (service_name : String) (s : RequestMetrics) (rules : List (AlertRule F64))
      → named (check_rules rate_above now service_name s rules)
        ≡ named (check_rules rate_above later service_name s rules)
  unfolding check_rules
  check_rules-times now later service_name s [] = refl
  check_rules-times now later service_name s (rule ∷ rules) =
      let same = check_rules-times now later service_name s rules in
      elim (Bool-cases (str_eq rule.metric service_name)) [
        | inr other ↦ rw other same
        | inl own ↦ elim (Bool-cases (should_alert rate_above rule.condition s)) [
          | inl fires ↦ rw (own, fires) (ap (λ l. rule.name ∷ l) same)
          | inr quiet ↦ rw (own, quiet) same
        ]
      ]

  check_snapshots-times :
      (now later : ℕ) (rules : List (AlertRule F64)) (ss : Dict RequestMetrics)
      → named (check_snapshots rate_above now rules ss)
        ≡ named (check_snapshots rate_above later rules ss)
  unfolding check_snapshots
  check_snapshots-times now later rules [] = refl
  check_snapshots-times now later rules ((service_name, s) ∷ ss) =
      rw (map-append, map-append)
        (rw (check_rules-times now later service_name s rules) (
          ap (λ l. named (check_rules rate_above later service_name s rules) ++ l)
            (check_snapshots-times now later rules ss)))

  -- The cooldown of a rule has no effect: two checks of the same counters alert by the same rules,
  -- in the same order, however little time lies between them.
  pub check_repeats :
      (rank : ℕ → ℕ → ℕ) (now later : ℕ) (rules : List (AlertRule F64)) (c : MetricsCollector)
      → map (λ (a : Alert). a.rule_name) (check rate_above rank now rules c)
        ≡ map (λ (a : Alert). a.rule_name) (check rate_above rank later rules c)
  unfolding check
  check_repeats rank now later rules c = check_snapshots-times now later rules (snapshot_all rank c)
