-- ===== src/Tests/Loops/Sockets.antt =====
-- Cycles that meet a collector that is restarted.
use wire_probe.Prelude.{refl, List, [], ◌∷◌, All}
use wire_probe.Std.Io.{os}
use wire_probe.Exporter.Collectd.{failed_after}
use wire_probe.Exporter.Collectd.Framing.{Reconnects}
use wire_probe.Agent.{Cycle}
use wire_probe.Agent.Socket.{IsServed}
use wire_probe.Tests.Loops.{refused, connected}

-- The collector is restarted in the second cycle, inside a line.
abbrev pub restarted : List Cycle
restarted =
    connected
    ∷ record refused {
      answers = record refused.answers {
        stream = record refused.answers.stream { write = failed_after 3 (os 32) };
      };
    }
    ∷ refused
    ∷ connected
    ∷ []

served : Reconnects refused.answers.stream
served = record { connects = refl; bounded = refl }

pub restarted-IsServed : All IsServed restarted
restarted-IsServed = (served, (record { connects = refl; bounded = refl }, (served, (served, tt))))
