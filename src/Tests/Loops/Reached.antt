-- ===== src/Tests/Loops/Reached.antt =====
-- States that the loop reaches.
use wire_probe.Prelude.{some, ◌≡◌, refl, false, List, [], ◌∷◌}
use wire_probe.Std.Net.{SocketAddr}
use wire_probe.Std.Io.{ok}
use wire_probe.Std.Time
use wire_probe.Std.Time.{from_secs}
use wire_probe.Exporter
use wire_probe.Exporter.Telegraf
use wire_probe.Probe.{little, measure_rtt}
use wire_probe.Agent.{Loop, cycle, send_probe, rotate_target, finish_cycle}
use wire_probe.Agent.Reach.{Reach, here, next, IsInformed, start-IsInformed}
use wire_probe.Agent.Sized.{capacity_of, start-capacity_of}
use wire_probe.Tests.Loops.{label, export, refused}
use wire_probe.Tests.Loops.Starts.{opened, first, started}
use wire_probe.Tests.Data.{numerics, numerics-IsNumerics, addr_a, addr_b}

abbrev answer : List SocketAddr
answer = addr_b ∷ addr_a ∷ []

-- One failure counts down.
abbrev counted : Loop
counted = record first {
  exp = (send_probe numerics little first refused).exp;
  failures_until_reresolve = 4;
}

counted-cycle :
    cycle numerics little export (from_secs 1) first refused
    ≡ (some counted, (cycle numerics little export (from_secs 1) first refused).1)
unfolding cycle measure_rtt Exporter.send_failure Telegraf.send_failure rotate_target finish_cycle
    Time.checked_sub
counted-cycle = refl

counted-Reach : Reach numerics little export (from_secs 1) first answer counted answer
unfolding cycle measure_rtt Exporter.send_failure Telegraf.send_failure
counted-Reach = next refused counted _ here counted-cycle

start-IsInformed_example : IsInformed counted answer
start-IsInformed_example =
    start-IsInformed numerics little export label label label (from_secs 1) answer opened false
      first counted answer started counted-Reach

start-capacity_of_example : capacity_of counted.exp ≡ capacity_of first.exp
start-capacity_of_example =
    start-capacity_of numerics little numerics-IsNumerics export label label label (from_secs 1)
      (ok answer) opened false first counted answer answer started counted-Reach
