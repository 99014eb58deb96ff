-- ===== src/Agent/Outage.antt =====
-- An outage: failures in a row in the loop of `run_probe` of src/main.rs, and the addresses that it
-- probes meanwhile.
use mathlib.Core.Path.{ap₂}
use mathlib.Core.List.{append_assoc}
use wire_probe.Prelude.{
  ℕ, ◌+◌, ◌%◌, ◌<◌, ◌≡◌, refl, sym, ap, ◌∙◌, ◌⊎◌, inl, inr, Option-cases, true, ◌&&◌, List, [], ◌∷◌,
  ◌++◌, map, none, some, if◌then◌else◌, ◌==◌, arith, All, length, length-append, length-map,
}
use wire_probe.Std.Net.{SocketAddr}
use wire_probe.Std.Io.{ok}
use wire_probe.Std.Time
use wire_probe.External.{Numerics}
use wire_probe.Cli.Types.{ExportDst, collectd_exec}
use wire_probe.Probe.{Endian}
use wire_probe.Resolution.{Targets, apply_resolution}
use wire_probe.Resolution.Laws.{IsTargets}
use wire_probe.Resolution.Rounds.{visited, Shuffles}
use wire_probe.Resolution.Cycle.{visited_rotated}
use wire_probe.Agent.{
  Cycle, Loop, Report, cycle, conclude, run_loop, rotate_resolved, rotate_target,
}
use wire_probe.Agent.Laws.{failed}
use wire_probe.Agent.Runs.{run_loop-exec, Counts, streak_after, run_loop_cons, cycle_counts}

-- Five cycles that fail, and what the resolver answers in the last.
pub record Round : Type 0 where
  pub first : Cycle
  pub second : Cycle
  pub third : Cycle
  pub fourth : Cycle
  pub fifth : Cycle
  pub fresh : List SocketAddr

pub record IsDown (r : Round) : Type 0 where
  pub first_fails : failed r.first ≡ true
  pub second_fails : failed r.second ≡ true
  pub third_fails : failed r.third ≡ true
  pub fourth_fails : failed r.fourth ≡ true
  pub fifth_fails : failed r.fifth ≡ true
  pub answered : r.fifth.resolver ≡ ok r.fresh

abbrev pub cycles_of : List Round → List Cycle
cycles_of [] = []
cycles_of (r ∷ rounds) = r.first ∷ r.second ∷ r.third ∷ r.fourth ∷ r.fifth ∷ cycles_of rounds

abbrev pub five_each {ℓ} : {A : Type ℓ} → List A → List A
five_each [] = []
five_each (x ∷ xs) = x ∷ x ∷ x ∷ x ∷ x ∷ five_each xs

-- The addresses in use before each of a sequence of answers.
abbrev aimed : Targets → List (List SocketAddr) → List SocketAddr
aimed t [] = []
aimed t (fresh ∷ later) = t.current ∷ aimed (apply_resolution t fresh).0 later

rotate_target-answer :
    (t : Targets) (fresh : List SocketAddr)
    → (rotate_target t (ok fresh)).0 ≡ (apply_resolution t fresh).0
unfolding rotate_target rotate_resolved apply_resolution
rotate_target-answer t [] = refl
rotate_target-answer t (a ∷ rest) = refl

aimed-visited :
    (t : Targets) (fs : List (List SocketAddr))
    → (last : SocketAddr) × (aimed t fs ++ (last ∷ []) ≡ t.current ∷ visited t fs)
unfolding visited
aimed-visited t [] = (t.current, refl)
aimed-visited t (fresh ∷ later) =
    let (last, e) = aimed-visited (apply_resolution t fresh).0 later in
    (last, ap (λ l. t.current ∷ l) e)

snoc_inj {ℓ} : {A : Type ℓ} → (xs ys : List A) (a b : A) → xs ++ (a ∷ []) ≡ ys ++ (b ∷ []) → xs ≡ ys
snoc_inj [] [] a b h = refl
snoc_inj [] (y ∷ ys) a b h = absurd (omega (arith, ap length h, length-append ys (b ∷ [])))
snoc_inj (x ∷ xs) [] a b h = absurd (omega (arith, ap length h, length-append xs (a ∷ [])))
snoc_inj (x ∷ xs) (y ∷ ys) a b h =
    let head : x ≡ y = cc in
    let tail : xs ++ (a ∷ []) ≡ ys ++ (b ∷ []) = cc in
    ap₂ (λ z zs. z ∷ zs) head (snoc_inj xs ys a b tail)

-- The targets after a cycle that comes behind `k` failures in a row.
abbrev targets_after : ℕ → Targets → Cycle → Targets
targets_after k t c =
    if failed c && (streak_after k c % 5 == 0) then (rotate_target t c.resolver).0 else t

-- The addresses that cycles probe.
abbrev probes_from : ℕ → Targets → List Cycle → List SocketAddr
probes_from k t [] = []
probes_from k t (c ∷ cs) = t.current ∷ probes_from (streak_after k c) (targets_after k t c) cs

quiet_lem :
    (k : ℕ) (t : Targets) (c : Cycle) (cs : List Cycle)
    → failed c ≡ true
    → k % 5 < 4
    → probes_from k t (c ∷ cs) ≡ t.current ∷ probes_from (k + 1) t cs
quiet_lem k t c cs fails early = ground arith

asking_lem :
    (k : ℕ) (t : Targets) (c : Cycle) (cs : List Cycle)
    → failed c ≡ true
    → k % 5 ≡ 4
    → probes_from k t (c ∷ cs) ≡ t.current ∷ probes_from (k + 1) (rotate_target t c.resolver).0 cs
asking_lem k t c cs fails late = ground arith

rounds_lem :
    (k : ℕ) (t : Targets) (rounds : List Round)
    → k % 5 ≡ 0
    → All IsDown rounds
    → probes_from k t (cycles_of rounds) ≡ five_each (aimed t (map (λ r. r.fresh) rounds))
rounds_lem k t [] whole all = refl
rounds_lem k t (r ∷ rounds) whole all =
    let later = cycles_of rounds in
    let a = t.current in
    quiet_lem k t r.first (r.second ∷ r.third ∷ r.fourth ∷ r.fifth ∷ later) all.0.first_fails
      (omega arith)
    ∙ ap (λ l. a ∷ l)
        (quiet_lem (k + 1) t r.second (r.third ∷ r.fourth ∷ r.fifth ∷ later) all.0.second_fails
          (omega arith))
    ∙ ap (λ l. a ∷ a ∷ l)
        (quiet_lem (k + 1 + 1) t r.third (r.fourth ∷ r.fifth ∷ later) all.0.third_fails
          (omega arith))
    ∙ ap (λ l. a ∷ a ∷ a ∷ l)
        (quiet_lem (k + 1 + 1 + 1) t r.fourth (r.fifth ∷ later) all.0.fourth_fails (omega arith))
    ∙ ap (λ l. a ∷ a ∷ a ∷ a ∷ l)
        (asking_lem (k + 1 + 1 + 1 + 1) t r.fifth later all.0.fifth_fails (omega arith))
    ∙ ap (λ t'. a ∷ a ∷ a ∷ a ∷ a ∷ probes_from (k + 1 + 1 + 1 + 1 + 1) t' later)
        (ap (λ o. (rotate_target t o).0) all.0.answered ∙ rotate_target-answer t r.fresh)
    ∙ ap (λ l. a ∷ a ∷ a ∷ a ∷ a ∷ l)
        (rounds_lem (k + 1 + 1 + 1 + 1 + 1) (apply_resolution t r.fresh).0 rounds (omega arith)
          all.1)

aimed_rotated :
    (t : Targets) (fs : List (List SocketAddr)) (front back : List SocketAddr)
    → IsTargets t
    → Shuffles t.addrs fs
    → length fs ≡ length t.addrs
    → t.addrs ≡ front ++ (t.current ∷ back)
    → aimed t fs ≡ t.current ∷ (back ++ front)
aimed_rotated t fs front back v all full e =
    let (last, to_visited) = aimed-visited t fs in
    let cycle = visited_rotated t fs front back v all full e in
    snoc_inj (aimed t fs) (t.current ∷ (back ++ front)) last t.current (
      to_visited
      ∙ ap (λ l. t.current ∷ l) cycle
      ∙ ap (λ l. t.current ∷ l) (sym (append_assoc back front (t.current ∷ []))))

module _ (n : Numerics) (endian : Endian) (export : ExportDst) (interval : Time.Duration) where
  cycle_probed :
      (s s1 : Loop) (c : Cycle) (r : Report)
      → cycle n endian export interval s c ≡ (some s1, r)
      → r.probed ≡ s.targets.current
  unfolding cycle conclude
  cycle_probed s s1 c r h = ground arith

  run_loop_probes :
      (cs : List Cycle) (s s' : Loop) (k : ℕ) (rs : List Report)
      → Counts k s
      → run_loop n endian export interval s cs ≡ (some s', rs)
      → map (λ r. r.probed) rs ≡ probes_from k s.targets cs
  unfolding run_loop
  run_loop_probes [] s s' k rs v h = ground arith
  run_loop_probes (c ∷ cs) s s' k rs v h =
      let (s1, r, rest, first, later, whole) =
        run_loop_cons n endian export interval s s' c cs rs h in
      let counts = cycle_counts n endian export interval s s1 c r k v first in
      let ih = run_loop_probes cs s1 s' (streak_after k c) rest counts.0 later in
      let moved : s1.targets ≡ targets_after k s.targets c = ground (arith, counts.1, counts.2) in
      ap (map (λ r'. r'.probed)) whole
      ∙ ap₂ (λ p l. p ∷ l) (cycle_probed s s1 c r first)
          (ih ∙ ap (λ t. probes_from (streak_after k c) t cs) moved)

  -- In an outage, from a full countdown and a canonical list that holds the address in use, with as
  -- many rounds of five failed cycles as there are addresses, each answered by the same addresses
  -- in any order: the loop ends, with stdout as its destination, or it goes on, and then the probe
  -- is aimed five times in a row at the address in use, then five times at each of the addresses
  -- behind it in the list, and then at each of those in front of it.
  pub run_loop_outage :
      (rounds : List Round) (s : Loop) (front back : List SocketAddr)
      → s.failures_until_reresolve ≡ 5
      → IsTargets s.targets
      → All IsDown rounds
      → Shuffles s.targets.addrs (map (λ r. r.fresh) rounds)
      → length rounds ≡ length s.targets.addrs
      → s.targets.addrs ≡ front ++ (s.targets.current ∷ back)
      → let (last, rs) = run_loop n endian export interval s (cycles_of rounds) in
        ((export ≡ collectd_exec) × (last ≡ none))
        ⊎ ((s' : Loop) × (last ≡ some s')
            × (map (λ r. r.probed) rs ≡ five_each (s.targets.current ∷ (back ++ front))))
  run_loop_outage rounds s front back counter v down all full e =
      let run = run_loop n endian export interval s (cycles_of rounds) in
      elim (Option-cases run.0) [
        | inl ended ↦ inl (run_loop-exec n endian export interval (cycles_of rounds) s ended, ended)
        | inr (s', goes_on) ↦ inr (
          s',
          goes_on,
          run_loop_probes (cycles_of rounds) s s' 0 run.1 (omega (arith, counter))
                (ap (λ o. (o, run.1)) goes_on)
              ∙ rounds_lem 0 s.targets rounds refl down
              ∙ ap five_each (
                  aimed_rotated s.targets (map (λ r. r.fresh) rounds) front back v all
                    (length-map rounds (λ r. r.fresh) ∙ full) e),
        )
      ]
