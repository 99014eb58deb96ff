-- ===== src/Server/Banner.antt =====
-- What `run` of src/server.rs prints before its loop.
use wire_probe.Prelude.{
  ℕ, ◌≡◌, ◌≢◌, ◌⊎◌, inl, inr, refl, Bool, true, false, ◌||◌, Bool-cases, List, [], ◌∷◌, Text, codes,
  if◌then◌else◌, arith,
}
use wire_probe.Std.Io.{
  IoError, IoResult, ok, err, os, broken_pipe, interrupted, not_found, would_block,
}
use wire_probe.Std.Strings.{text_eq}
use wire_probe.Std.Strings.Laws.{text_eq_iff}
use wire_probe.Server.{
  Errnos, Started, bind_failed, ring_failed, blocking, ringed, is_unavailable, run,
}

-- The lines on stderr. The banner has the process, the address and the loop: whether it is that of
-- io_uring.
pub data Notice : Type 0 where
  ring_unavailable : IoError → Notice
  banner : (pid : ℕ) (bind_addr : Text) (port : ℕ) (with_ring : Bool) → Notice
  all_interfaces : Notice

-- The test in front of the warning that the server listens everywhere.
abbrev pub is_everywhere : Text → Bool
is_everywhere bind_addr = text_eq bind_addr (codes "0.0.0.0") || text_eq bind_addr (codes "::")

abbrev pub announce : (pid : ℕ) (bind_addr : Text) (port : ℕ) (with_ring : Bool) → List Notice
announce pid bind_addr port with_ring =
    banner pid bind_addr port with_ring
    ∷ (if is_everywhere bind_addr then all_interfaces ∷ [] else [])

-- The warning that the server listens on all interfaces, once for the two addresses that do and not
-- for any other.
abbrev pub IsWarning : Text → List Notice → Type 0
IsWarning bind_addr l =
    ((l ≡ all_interfaces ∷ []) × ((bind_addr ≡ codes "0.0.0.0") ⊎ (bind_addr ≡ codes "::")))
    ⊎ ((l ≡ []) × (bind_addr ≢ codes "0.0.0.0") × (bind_addr ≢ codes "::"))

is_everywhere-IsWarning :
    (bind_addr : Text)
    → IsWarning bind_addr (if is_everywhere bind_addr then all_interfaces ∷ [] else [])
is_everywhere-IsWarning bind_addr =
    let one = text_eq_iff bind_addr (codes "0.0.0.0") in
    let two = text_eq_iff bind_addr (codes "::") in
    elim (Bool-cases (text_eq bind_addr (codes "0.0.0.0"))) [
      | inl e ↦ rw e (inl (refl, inl (one.0 e)))
      | inr e ↦ elim (Bool-cases (text_eq bind_addr (codes "::"))) [
        | inl f ↦ rw (e, f) (inl (refl, inr (two.0 f)))
        | inr f ↦ rw (e, f) (inr (refl, (λ h. cc (one.1 h, e)), (λ h. cc (two.1 h, f))))
      ]
    ]

module _ (k : Errnos) where
  unfoldable pub notices :
      (bound ring : IoResult (Unit {0})) (pid : ℕ) (bind_addr : Text) (port : ℕ) → List Notice
  notices (err e) ring pid bind_addr port = []
  notices (ok _) (ok _) pid bind_addr port = announce pid bind_addr port true
  notices (ok _) (err e) pid bind_addr port =
      if is_unavailable k e then ring_unavailable e ∷ announce pid bind_addr port false else []

  -- The errors that say that the kernel has no io_uring for the process.
  abbrev pub IsWithoutRing : IoError → Type 0
  IsWithoutRing e =
      (errno : ℕ) × (e ≡ os errno)
      × ((errno ≡ k.enosys) ⊎ ((errno ≡ k.eperm) ⊎ ((errno ≡ k.eacces) ⊎ (errno ≡ k.eopnotsupp))))

  -- What must be printed of the loop that is chosen, with the answers that it rests on.
  abbrev pub Announces :
      (bound ring : IoResult (Unit {0})) (pid : ℕ) (bind_addr : Text) (port : ℕ)
      → Started
      → List Notice
      → Type 0
  Announces bound ring pid bind_addr port (bind_failed e) l = (bound ≡ err e) × (l ≡ [])
  Announces bound ring pid bind_addr port (ring_failed e) l =
      (bound ≡ ok tt) × (ring ≡ err e) × (¬ IsWithoutRing e) × (l ≡ [])
  Announces bound ring pid bind_addr port blocking l =
      (e : IoError) × (rest : List Notice) × (bound ≡ ok tt)
      × (ring ≡ err e)
      × IsWithoutRing e
      × (l ≡ ring_unavailable e ∷ banner pid bind_addr port false ∷ rest)
      × IsWarning bind_addr rest
  Announces bound ring pid bind_addr port ringed l =
      (rest : List Notice) × (bound ≡ ok tt)
      × (ring ≡ ok tt)
      × (l ≡ banner pid bind_addr port true ∷ rest)
      × IsWarning bind_addr rest

  is_unavailable-IsWithoutRing : (e : IoError) → is_unavailable k e ≡ true → IsWithoutRing e
  is_unavailable-IsWithoutRing (os errno) h = (errno, refl, ground (arith, h))
  is_unavailable-IsWithoutRing broken_pipe h = cc
  is_unavailable-IsWithoutRing interrupted h = cc
  is_unavailable-IsWithoutRing not_found h = cc
  is_unavailable-IsWithoutRing would_block h = cc

  is_unavailable-false : (e : IoError) → is_unavailable k e ≡ false → ¬ IsWithoutRing e
  is_unavailable-false e h (errno, is_os, why) = ground (arith, h, is_os, why)

  -- What the server prints before its loop fits the loop that it chooses and the answers that it
  -- rests on. Nothing is printed where `bind` fails, or where `IoUring::new` fails with an error
  -- other than `ENOSYS`, `EPERM`, `EACCES` and `EOPNOTSUPP`. The banner of the io_uring loop is
  -- printed where both succeed. With one of those four errors, that error is printed and then the
  -- banner of the blocking loop. Behind a banner stands the warning that the server listens on all
  -- interfaces, once, for the addresses `0.0.0.0` and `::`, and nothing for any other.
  pub run-notices :
      (bound ring : IoResult (Unit {0})) (pid : ℕ) (bind_addr : Text) (port : ℕ)
      → Announces bound ring pid bind_addr port
          (run k bound ring)
          (notices bound ring pid bind_addr port)
  unfolding run notices
  run-notices (err e) ring pid bind_addr port = (refl, refl)
  run-notices (ok _) (ok _) pid bind_addr port =
      (_, refl, refl, refl, is_everywhere-IsWarning bind_addr)
  run-notices (ok _) (err e) pid bind_addr port = elim (Bool-cases (is_unavailable k e)) [
    | inl h ↦ rw h (
      e,
      _,
      refl,
      refl,
      is_unavailable-IsWithoutRing e h,
      refl,
      is_everywhere-IsWarning bind_addr,
    )
    | inr h ↦ rw h (refl, refl, is_unavailable-false e h, refl)
  ]
