-- ===== src/Agent/Logs.antt =====
-- The line that `rotate_target` of src/main.rs prints of a new list, with its `join_addrs`. How an
-- address is printed is outside.
use mathlib.Core.Option
use wire_probe.Prelude.{
  List-cases, inl, inr, ℕ, ◌≡◌, refl, ap, true, List, [], ◌∷◌, ◌++◌, Text, codes, Option, map, some,
  arith, if◌then◌else◌, ◌==◌,
}
use wire_probe.Std.Net.{SocketAddr, addr_ord}
use wire_probe.Std.Io.{ok}
use wire_probe.Std.Strings.{strip_prefix}
use wire_probe.Std.Strings.Laws.{strip_prefix-append}
use wire_probe.Exporter.Scan.{Lacks}
use wire_probe.Resolution.{Targets, adopt, apply_adopted, apply_resolution}
use wire_probe.Resolution.Laws.{canonical, adopted-IsTargets}
use wire_probe.Agent.{
  Log, now_resolves_to, trying_next, log_if, resolve, rotate_resolved, rotate_target,
}

-- `join` of a slice of strings
unfoldable join : (sep : Text) → List Text → Text
join sep [] = []
join sep (s ∷ []) = s
join sep (s ∷ t ∷ rest) = s ++ (sep ++ join sep (t ∷ rest))

-- A reader of a list: spaces do not count, and commas separate.
abbrev without : ℕ → Text → Text
without c [] = []
without c (d ∷ s) = if d == c then without c s else d ∷ without c s

abbrev onto_first : ℕ → List Text → List Text
onto_first c [] = (c ∷ []) ∷ []
onto_first c (s ∷ rest) = (c ∷ s) ∷ rest

abbrev split : ℕ → Text → List Text
split sep [] = [] ∷ []
split sep (c ∷ s) = if c == sep then [] ∷ split sep s else onto_first c (split sep s)

without-Lacks : (c : ℕ) (s rest : Text) → Lacks c s → without c (s ++ rest) ≡ s ++ without c rest
without-Lacks c [] rest h = refl
without-Lacks c (d ∷ s) rest h = ground (arith, without-Lacks c s rest h.1, h.0)

without-fixed : (c : ℕ) (s : Text) → Lacks c s → without c s ≡ s
without-fixed c [] h = refl
without-fixed c (d ∷ s) h = ground (arith, without-fixed c s h.1, h.0)

split-Lacks :
    (sep : ℕ) (s rest : Text) → Lacks sep s → split sep (s ++ (sep ∷ rest)) ≡ s ∷ split sep rest
split-Lacks sep [] rest h = ground arith
split-Lacks sep (c ∷ s) rest h = ground (arith, split-Lacks sep s rest h.1, h.0)

split-last : (sep : ℕ) (s : Text) → Lacks sep s → split sep s ≡ s ∷ []
split-last sep [] h = refl
split-last sep (c ∷ s) h = ground (arith, split-last sep s h.1, h.0)

module _ (to_string : SocketAddr → Text) (target : Text) where
  -- The addresses, separated by `, `.
  unfoldable pub join_addrs : List SocketAddr → Text
  unfolding join
  join_addrs addrs = join (codes ", ") (map to_string addrs)

  -- `info: '<target>' now resolves to <addresses>`
  abbrev opening : Text
  opening = codes "info: '" ++ (target ++ codes "' now resolves to ")

  unfoldable pub resolves_line : List SocketAddr → Text
  resolves_line addrs = opening ++ join_addrs addrs

  abbrev pub read_addrs : Text → Option (List Text)
  read_addrs line = Option.map (λ s. split b',' (without b' ' s)) (strip_prefix opening line)

  -- A printed address has no comma and no space.
  pub record IsPlain : Type 0 where
    pub no_comma : (a : SocketAddr) → Lacks b',' (to_string a)
    pub no_space : (a : SocketAddr) → Lacks b' ' (to_string a)

  read_joined :
      IsPlain
      → (a : SocketAddr) (addrs : List SocketAddr)
      → split b',' (without b' ' (join_addrs (a ∷ addrs))) ≡ map to_string (a ∷ addrs)
  unfolding join_addrs
  read_joined p a [] =
      rw (without-fixed b' ' (to_string a) (p.no_space a))
        (split-last b',' (to_string a) (p.no_comma a))
  read_joined p a (b ∷ addrs) =
      rw
        (
          without-Lacks b' ' (to_string a) _ (p.no_space a),
          split-Lacks b',' (to_string a) (without b' ' (join_addrs (b ∷ addrs))) (p.no_comma a),
        )
        (ap (λ l. to_string a ∷ l) (read_joined p b addrs))

  read_addrs-resolves_line :
      IsPlain
      → (a : SocketAddr) (addrs : List SocketAddr)
      → read_addrs (resolves_line (a ∷ addrs)) ≡ some (map to_string (a ∷ addrs))
  unfolding resolves_line
  read_addrs-resolves_line p a addrs =
      rw (strip_prefix-append opening (join_addrs (a ∷ addrs))) (ap some (read_joined p a addrs))

  -- Where a re-resolution with an answer that is not empty changes the list, the first line that it
  -- logs names the new list, and a reader of that line finds the printed addresses of the canonical
  -- answer, in order, if a printed address has no comma and no space.
  pub rotate_target-read_addrs :
      IsPlain
      → (t : Targets) (a : SocketAddr) (rest : List SocketAddr)
      → (apply_resolution t (a ∷ rest)).1.list_changed ≡ true
      → (l : List SocketAddr) × (logs : List Log) × ((rotate_target t (ok (a ∷ rest))).1
          ≡ now_resolves_to l ∷ logs)
        × (read_addrs (resolves_line l) ≡ some (map to_string (canonical (a ∷ rest))))
  unfolding rotate_target rotate_resolved resolve apply_resolution apply_adopted adopt
  rotate_target-read_addrs p t a rest changed =
      let new = apply_resolution t (a ∷ rest) in
      elim (List-cases (canonical (a ∷ rest))) [
        | inl e ↦ absurd (cc (rw e at (adopted-IsTargets a rest).listed))
        | inr (b, more, e) ↦ (
          canonical (a ∷ rest),
          log_if new.1.moved (trying_next new.0.current),
          ap
              (λ c.
                log_if c (now_resolves_to new.0.addrs)
                ++ log_if new.1.moved (trying_next new.0.current))
              changed,
          rw e (read_addrs-resolves_line p b more),
        )
      ]
