-- ===== src/Tests/Names.antt =====
-- The host name and the log line of a new list.
use wire_probe.Prelude.{
  ℕ, Bytes, arith, ◌<◌, ◌⊎◌, inr, ◌≤◌, ◌*◌, ◌≢◌, All, ◌++◌, ◌≡◌, refl, true, List, [], ◌∷◌, Text,
  codes, length, map, some,
}
use wire_probe.Std.Net.{SocketAddr, v4, v6}
use wire_probe.Std.Io.{ok}
use wire_probe.Std.Sort.{dedup, sort_unstable, vec_eq}
use wire_probe.Exporter.Scan.{Lacks}
use wire_probe.Host.{hostname, length-hostname}
use wire_probe.Resolution.{apply_resolution}
use wire_probe.Resolution.Laws.{canonical}
use wire_probe.Agent.{Log, now_resolves_to, rotate_target}
use wire_probe.Agent.Logs.{resolves_line, read_addrs, IsPlain, rotate_target-read_addrs}
use wire_probe.Tests.Loops.{at_b}
use wire_probe.Tests.Data.{addr_a}

abbrev name : Bytes
name = 200 ∷ b'a' ∷ []

name_nonzero : All (λ b. b ≢ 0) name
name_nonzero = ((λ e. cc), ((λ e. cc), tt))

-- Bytes that are no UTF-8, in front of the zero.
length-hostname_example :
    (length (hostname (name ++ (0 ∷ 7 ∷ 0 ∷ []))) ≤ length name)
    × (length name ≤ 4 * length (hostname (name ++ (0 ∷ 7 ∷ 0 ∷ []))))
    × (length (hostname name) ≤ length name)
    × (length name ≤ 4 * length (hostname name))
length-hostname_example = length-hostname name (7 ∷ 0 ∷ []) name_nonzero

abbrev printed : SocketAddr → Text
printed (v4 ip port) = codes "4"
printed (v6 ip port flow scope) = codes "6"

printed-Lacks : (c : ℕ) (a : SocketAddr) → 54 < c ⊎ c < 52 → Lacks c (printed a)
printed-Lacks c (v4 ip port) h = ((λ e. ground arith), tt)
printed-Lacks c (v6 ip port flow scope) h = ((λ e. ground arith), tt)

printed-IsPlain : IsPlain printed (codes "db")
printed-IsPlain = record {
  no_comma = λ a. printed-Lacks b',' a (inr (omega arith));
  no_space = λ a. printed-Lacks b' ' a (inr (omega arith));
}

changed : (apply_resolution at_b (addr_a ∷ [])).1.list_changed ≡ true
unfolding apply_resolution dedup vec_eq sort_unstable
changed = refl

rotate_target-read_addrs_example :
    (l : List SocketAddr) × (logs : List Log) × ((rotate_target at_b (ok (addr_a ∷ []))).1
      ≡ now_resolves_to l ∷ logs)
    × (read_addrs printed (codes "db") (resolves_line printed (codes "db") l)
        ≡ some (map printed (canonical (addr_a ∷ []))))
rotate_target-read_addrs_example =
    rotate_target-read_addrs printed (codes "db") printed-IsPlain at_b addr_a [] changed
