-- ===== src/Tests/Suite/Rotation.antt =====
-- The tests of src/main.rs. Those that ask a real resolver are left out.
use mathlib.Core.Option
use wire_probe.Prelude.{ℕ, ◌+◌, Bool, true, ◌&&◌, not, ◌≡◌, refl, List, [], ◌∷◌, if◌then◌else◌, leb}
use wire_probe.Std.Net.{SocketAddr, v4, v6, addr_ord}
use wire_probe.Std.Order.{eqb}
use wire_probe.Std.Sort.{contains, vec_eq, sort_unstable, dedup, position}
use wire_probe.Resolution.{apply_resolution}
use wire_probe.Resolution.Rounds.{visited}

-- 10.0.0.k:9999
abbrev ten : ℕ → SocketAddr
ten k = v4 (0x0A000000 + k) 9999

-- [::1]:9999
abbrev loopback : SocketAddr
loopback = v6 1 9999 0 0

abbrev a_single_address_has_nowhere_to_rotate : Bool
a_single_address_has_nowhere_to_rotate =
    let (t, r) = apply_resolution (record { addrs = ten 1 ∷ []; current = ten 1 }) (ten 1 ∷ []) in
    not r.moved && (not r.list_changed && eqb t.current (ten 1))

abbrev an_unreachable_first_answer_is_skipped_on_the_next_round : Bool
an_unreachable_first_answer_is_skipped_on_the_next_round =
    let same : List SocketAddr = loopback ∷ ten 1 ∷ [] in
    let (t, r) = apply_resolution (record { addrs = same; current = loopback }) same in
    let (t', r') = apply_resolution t same in
    r.moved && (eqb t.current (ten 1) && (r'.moved && eqb t'.current loopback))

abbrev a_reordered_answer_is_not_treated_as_a_new_list : Bool
a_reordered_answer_is_not_treated_as_a_new_list =
    let (t, r) =
      apply_resolution (record { addrs = ten 1 ∷ ten 2 ∷ []; current = ten 1 })
        (ten 2 ∷ ten 1 ∷ []) in
    not r.list_changed && (r.moved && eqb t.current (ten 2))

abbrev count_of : SocketAddr → List SocketAddr → ℕ
count_of a [] = 0
count_of a (b ∷ l) = (if eqb b a then 1 else 0) + count_of a l

abbrev even_round : List SocketAddr
even_round = ten 1 ∷ ten 3 ∷ ten 2 ∷ []

abbrev odd_round : List SocketAddr
odd_round = ten 1 ∷ ten 2 ∷ ten 3 ∷ []

abbrev a_shuffling_tail_still_makes_progress : Bool
a_shuffling_tail_still_makes_progress =
    let seen =
      visited (record { addrs = ten 1 ∷ ten 2 ∷ ten 3 ∷ []; current = ten 1 })
        (even_round ∷ odd_round ∷ even_round ∷ odd_round ∷ even_round ∷ odd_round ∷ []) in
    leb (count_of (ten 1) seen) 2 && (contains (ten 2) seen && contains (ten 3) seen)

abbrev changed_answers_keep_progressing_from_the_current_address : Bool
changed_answers_keep_progressing_from_the_current_address =
    let (t, r) =
      apply_resolution (record { addrs = ten 1 ∷ ten 2 ∷ []; current = ten 2 }) (ten 9 ∷ []) in
    r.list_changed && (vec_eq t.addrs (ten 9 ∷ []) && eqb t.current (ten 9))

rotation_passes :
    (a_single_address_has_nowhere_to_rotate ≡ true)
    × (an_unreachable_first_answer_is_skipped_on_the_next_round ≡ true)
    × (a_reordered_answer_is_not_treated_as_a_new_list ≡ true)
    × (a_shuffling_tail_still_makes_progress ≡ true)
    × (changed_answers_keep_progressing_from_the_current_address ≡ true)
unfolding apply_resolution visited dedup Option.bind vec_eq sort_unstable position
rotation_passes = (refl, refl, refl, refl, refl)
