-- ===== src/Lib.antt =====
-- wire-probe: TCP latency telemetry in one binary. As a server it accepts connections and closes
-- them. As a probe it measures, once per interval, how long a TCP handshake with a target takes,
-- and exports the value to Telegraf over UDP or to collectd over stdout or a Unix socket.
--
-- The parts, the files that model them and the code that they translate:
--
-- * Cli (src/cli.rs). `Types` has `ExportDst` and `Mode` with the errors as values. `Sanitize`,
--   `Duration` and `Export` have the parsers of values, `Duration.Grammar` the texts that are read.
--   `Command` is a small monad of what `parse` does: it consumes arguments, prints, fails by `?`
--   and may exit. `Parse` is `parse` in it, over the interface `Arguments` of `pico_args`; its
--   child modules are about what it accepts, how it exits and what it makes of a printed mode.
-- * Resolution (src/main.rs: `adopt`, `apply_resolution`). The list and the address in use, which
--   the code changes through `&mut`, are the record `Targets`. `Resolution.Rounds` runs several
--   re-resolutions one after the other, `Cycle` has the order of their targets, and `Churn` lets
--   the answers change in between. `Successor` and `Sets` describe a re-resolution on sets of
--   addresses, without the order of a list.
-- * Probe (src/probe.rs). `measure_rtt`, the reading of `tcp_info` and its acceptance rules, for
--   both byte orders.
-- * Exporter (src/exporter/mod.rs) chooses between Exporter.Telegraf (src/exporter/telegraf.rs) and
--   Exporter.Collectd (src/exporter/collectd.rs). The readers beside them are written from the
--   documented line formats, not from the code. `Framing` and `Torn` follow the bytes of a Unix
--   stream over several sends, and `Stale` does so while reconnections are refused.
-- * Host (src/main.rs: `hostname`).
-- * Target (src/main.rs: `resolve`, `rotate_target`) asks the resolver again, and has the lines
--   that the probe logs.
-- * Agent (src/main.rs: `run_probe`). `Loop` holds the variables of the loop, `Cycle` what one turn
--   reads from outside, `Report` what it does. `cycle` is one turn, `run_loop` a list of them, and
--   `Start` what stands in front of the loop. `Whole`, `Stdout` and `Socket` follow a run from its
--   start to what a consumer reads, `Exit` to its end. `Pacing` adds up its time, and `Outage` has
--   the addresses that it probes while they fail, which `Down` begins at the start. `Reach` is a
--   step relation over the loop, which `Steps` compares with `run_loop`; `Sized` follows its
--   buffer, `Stale` the socket while reconnections are refused, and `Logs` prints a new list
--   (`join_addrs`).
-- * Server (src/server.rs). `run` as far as the choice of its loop, `run_io_uring` over the
--   interface `Ring` of `io_uring`, and `run_blocking`. `Fallback` puts the two loops side by side,
--   `Closes` counts the descriptors of a whole run, `Backoff` has its pauses and `Banner` what
--   `run` prints.
-- * Main (src/main.rs: `main`). The dispatch between the two modes, and the exit code of a process
--   after some cycles of its probe or turns of its ring. `Sockets` follows one that exports to the
--   socket of collectd, and `Down` one whose target is down.
-- * Std models what the code uses of the standard library: order and sorting, integers as text,
--   UTF-8, durations, socket addresses, I/O results and buffers with their capacity. External is
--   the interface of `f64`, `ryu` and `itoa`. Prelude passes on names and helpers.
-- * Tests runs the model at concrete inputs. `Tests.Suite` has the crate's own unit tests, run on
--   the model.
--
-- The parts meet as in the program: `Cli.Parse.parse` gives the interval, the labels and the
-- destination; `Agent.Start.start` adopts the first resolution and opens the exporter; each cycle
-- measures by `Probe.measure_rtt`, exports by `Exporter.send` or `send_failure`, and at the fifth
-- failure in a row calls `Resolution.apply_resolution`.
--
-- What is outside enters as what it answers: the resolver, the connection, the clocks,
-- `getsockopt`, the sockets and stdout, the kernel's ring. A write may fail after any number of its
-- bytes. `IsNumerics` states what the two number formatters document, `Converts` and `Takes` what
-- the argument parser does, and `IsRing` what io_uring does.
--
-- Bounds. Durations have whole seconds and nanoseconds. `as_nanos() as u64` wraps at 2^64. The port
-- has 16 bits, parsed numbers 64, and `interval_secs` is cut to 32. The rounding to whole seconds
-- is that of the exact value, which agrees with `f64` for whole milliseconds up to a day. An
-- address is its number, 32 bits for IPv4 and 128 for IPv6, with the order that the standard
-- library derives. `sort_unstable` is insertion sort, whose result is that of every sort because
-- equal addresses are the same. The endless loops of the probe and of the server run over a list of
-- cycles or answers, or for a number of turns, any of which the theorems take. `decimal` has as
-- much fuel as its number and one more, of which each digit uses one.
--
-- Not modelled: the text of the help, of errors and of log lines but one, beyond which one it is
-- and what it carries; how long calls take; the unit tests that need a resolver or a kernel's
-- connection; the Python plugin, scripts and packaging.
pub mod Prelude
pub mod Std
pub mod Resolution
pub mod Cli
pub mod External
pub mod Exporter
pub mod Probe
pub mod Host
pub mod Agent
pub mod Server
pub mod Main
pub mod Target
pub mod Tests
