-- ===== src/Agent/Reach.antt =====
-- The states that the loop of `run_probe` in src/main.rs can reach, with a resolver, a network and
-- an exporter that choose their answers: a step relation, and what holds of each reachable state.
use wire_probe.Prelude.{
  ◌≡◌, refl, sym, ap, ◌∙◌, Bool, true, false, List, [], ◌∷◌, Text, some, arith, if◌then◌else◌,
}
use wire_probe.Std.Net.{SocketAddr, addr_ord}
use wire_probe.Std.Sort.{contains}
use wire_probe.Std.Io.{IoResult, ok, err}
use wire_probe.Std.Time
use wire_probe.External.{Numerics}
use wire_probe.Cli.Types.{ExportDst}
use wire_probe.Probe.{Endian}
use wire_probe.Resolution.{Targets, adopt, apply_resolution, apply_adopted}
use wire_probe.Resolution.Laws.{canonical, canonical-SameElements}
use wire_probe.Exporter
use wire_probe.Agent.Start.{running, start, start_with}
use wire_probe.Agent.{
  Cycle, Loop, Report, resolve, rotate_resolved, rotate_target, send_probe, conclude, cycle,
}
use wire_probe.Agent.Laws.{IsLoop, cycle-IsLoop, moved_targets, send_probe_lem}
use wire_probe.Agent.Whole.{start_with-IsLoop}

-- The last answer with addresses, after one more answer.
abbrev pub last_answer : IoResult (List SocketAddr) → List SocketAddr → List SocketAddr
last_answer (ok []) known = known
last_answer (ok (a ∷ rest)) known = a ∷ rest
last_answer (err e) known = known

module _ (n : Numerics) (endian : Endian) (export : ExportDst) (interval : Time.Duration) where
  -- From a state that knows an answer, the states that are reached by cycles, each with the last
  -- answer that was asked for and had addresses.
  pub data Reach (s0 : Loop) (first : List SocketAddr) : Loop → List SocketAddr → Type 0 where
    here : Reach s0 first s0 first
    next :
        {s : Loop} {known : List SocketAddr} (c : Cycle) (s' : Loop) (r : Report)
        → Reach s0 first s known
        → cycle n endian export interval s c ≡ (some s', r)
        → Reach s0 first s' (if r.asked then last_answer c.resolver known else known)

-- What holds of a reachable state that knows an answer: the invariant of the loop, the list is the
-- canonical one of the answer, and the address in use is one of the answer.
pub record IsInformed (s : Loop) (known : List SocketAddr) : Type 0 where
  pub is_loop : IsLoop s
  pub taken_over : s.targets.addrs ≡ canonical known
  pub answered : contains s.targets.current known ≡ true

rotate_target-canonical :
    (t : Targets) (answer : IoResult (List SocketAddr)) (known : List SocketAddr)
    → t.addrs ≡ canonical known
    → (rotate_target t answer).0.addrs ≡ canonical (last_answer answer known)
unfolding rotate_target rotate_resolved resolve apply_resolution apply_adopted adopt
rotate_target-canonical t (ok []) known h = h
rotate_target-canonical t (ok (a ∷ rest)) known h = refl
rotate_target-canonical t (err e) known h = h

informed :
    (s : Loop) (known : List SocketAddr)
    → IsLoop s
    → s.targets.addrs ≡ canonical known
    → IsInformed s known
informed s known v e = record {
  is_loop = v;
  taken_over = e;
  answered =
      sym (canonical-SameElements known s.targets.current)
      ∙ (ap (contains s.targets.current) (sym e) ∙ v.targets.listed);
}

module _ (n : Numerics) (endian : Endian) where
  moved_targets-canonical :
      (asked : Bool) (t : Targets) (c : Cycle) (known : List SocketAddr)
      → t.addrs ≡ canonical known
      → (moved_targets n endian asked t c).addrs
        ≡ canonical (if asked then last_answer c.resolver known else known)
  moved_targets-canonical true t c known h = rotate_target-canonical t c.resolver known h
  moved_targets-canonical false t c known h = h

  cycle-canonical :
      (export : ExportDst) (interval : Time.Duration) (s s' : Loop) (c : Cycle) (r : Report)
      (known : List SocketAddr)
      → s.targets.addrs ≡ canonical known
      → cycle n endian export interval s c ≡ (some s', r)
      → s'.targets.addrs ≡ canonical (if r.asked then last_answer c.resolver known else known)
  unfolding cycle conclude
  cycle-canonical export interval s s' c r known e h =
      let sent = send_probe n endian s c in
      let same : s'.targets ≡ sent.targets = ground arith in
      let asked : sent.asked ≡ r.asked = ground arith in
      rw (same, (send_probe_lem n endian s c).2, asked)
        (moved_targets-canonical r.asked s.targets c known e)

  Reach-IsInformed :
      (export : ExportDst) (interval : Time.Duration) (s0 : Loop) (first : List SocketAddr)
      → IsInformed s0 first
      → {s : Loop} {known : List SocketAddr} → Reach n endian export interval s0 first s known
      → IsInformed s known
  Reach-IsInformed export interval s0 first v here = v
  Reach-IsInformed export interval s0 first v (next {s} {known} c s' r before h) =
      let w = Reach-IsInformed export interval s0 first v before in
      informed s' _ (cycle-IsLoop n endian export interval s s' c r w.is_loop h)
        (cycle-canonical export interval s s' c r known w.taken_over h)

  start-canonical :
      (export : ExportDst) (target az host : Text) (interval : Time.Duration)
      (fresh : List SocketAddr) (o : Exporter.Opening) (warned : Bool) (s : Loop)
      → start n export target az host interval (ok fresh) o ≡ running warned s
      → IsInformed s fresh
  unfolding start start_with resolve adopt
  start-canonical export target az host interval [] o warned s h = cc
  start-canonical export target az host interval (a ∷ rest) o warned s h =
      informed s (a ∷ rest)
        (start_with-IsLoop n endian export target az host interval (a ∷ rest) o warned s h)
        (ground arith)

  -- From the start of a probe with an answer of the resolver, whatever its cycles meet, in every
  -- state that its loop reaches the address in use is one of the last answer with addresses that
  -- the resolver gave when it was asked, the list is the canonical one of that answer, and the
  -- countdown is between one and five.
  pub start-IsInformed :
      (export : ExportDst) (target az host : Text) (interval : Time.Duration)
      (fresh : List SocketAddr) (o : Exporter.Opening) (warned : Bool) (s0 s : Loop)
      (known : List SocketAddr)
      → start n export target az host interval (ok fresh) o ≡ running warned s0
      → Reach n endian export interval s0 fresh s known
      → IsInformed s known
  start-IsInformed export target az host interval fresh o warned s0 s known h reach =
      Reach-IsInformed export interval s0 fresh
        (start-canonical export target az host interval fresh o warned s0 h) reach
