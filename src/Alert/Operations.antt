-- ===== src/Alert/Operations.antt =====
-- The entry points of the alert engine, and a sequence of calls of them.
use health_beat.Prelude.{ℕ, List, [], ◌∷◌}
use health_beat.Prelude.Int.{ℤ}
use health_beat.Alert.Types.{Report, DiskUsage, DockerContainerReport}
use health_beat.Alert.World.{World, M}
use health_beat.Alert.HostState.{Engine}
use health_beat.Alert.Flush.{flush_deferred}
use health_beat.Alert.Evaluate.{
  evaluate_report, evaluate_metrics_only, evaluate_docker_only, resolve_offline, raise_offline,
}

pub data Operation : Type 0 where
  report : ℕ → ℕ → Report → Operation
  metrics : ℕ → ℕ → ℤ → ℤ → List DiskUsage → Operation
  docker : ℕ → ℕ → List DockerContainerReport → Operation
  offline : ℕ → ℕ → Operation
  online : ℕ → ℕ → Operation
  flush : Operation

unfoldable pub run : Engine → Operation → M (Unit {0})
run e (report host org r) = evaluate_report e host org r
run e (metrics host org cpu ram disks) = evaluate_metrics_only e host org cpu ram disks
run e (docker host org containers) = evaluate_docker_only e host org containers
run e (offline host org) = raise_offline e host org
run e (online host org) = resolve_offline e host org
run e flush = flush_deferred e.dispatcher

-- The world after the operations, one after the other.
unfoldable pub run_all : Engine → List Operation → World → World
run_all e [] w = w
run_all e (o ∷ os) w = run_all e os (run e o w).1
