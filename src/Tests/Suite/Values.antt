-- ===== src/Tests/Suite/Values.antt =====
-- The tests of src/cli.rs.
use wire_probe.Prelude.{Bool, true, false, ◌&&◌, ◌≡◌, refl, [], ◌∷◌, Text, codes, ◌==◌}
use wire_probe.Std.Strings.{text_eq, strip_suffix, strip_prefix}
use wire_probe.Std.Numbers.{parse_uint}
use wire_probe.Std.Time
use wire_probe.Std.Time.{from_millis, from_secs}
use wire_probe.Cli.Types.{ExportDst, telegraf_udp, collectd_uds, collectd_exec, Result, ok, err}
use wire_probe.Cli.Sanitize.{sanitize}
use wire_probe.Cli.Duration.{parse_duration}
use wire_probe.Cli.Export.{parse_export}
use wire_probe.Cli.Parse.{reject_unknown}

abbrev is_ok {ℓ} : {A : Type ℓ} → Result A → Bool
is_ok (ok a) = true
is_ok (err e) = false

abbrev is_err {ℓ} : {A : Type ℓ} → Result A → Bool
is_err (ok a) = false
is_err (err e) = true

-- `assert_eq!` on an unwrapped duration.
abbrev unwraps_to : Result Time.Duration → Time.Duration → Bool
unwraps_to (ok d) d' = (d.secs == d'.secs) && (d.nanos == d'.nanos)
unwraps_to (err e) d' = false

abbrev is_exec : Result ExportDst → Bool
is_exec (ok collectd_exec) = true
is_exec (ok (telegraf_udp addr)) = false
is_exec (ok (collectd_uds path)) = false
is_exec (err e) = false

abbrev is_udp_to : Text → Result ExportDst → Bool
is_udp_to a (ok (telegraf_udp addr)) = text_eq addr a
is_udp_to a (ok collectd_exec) = false
is_udp_to a (ok (collectd_uds path)) = false
is_udp_to a (err e) = false

abbrev is_uds_at : Text → Result ExportDst → Bool
is_uds_at p (ok (collectd_uds path)) = text_eq path p
is_uds_at p (ok collectd_exec) = false
is_uds_at p (ok (telegraf_udp addr)) = false
is_uds_at p (err e) = false

abbrev sanitize_keeps_safe_chars_and_replaces_the_rest : Bool
sanitize_keeps_safe_chars_and_replaces_the_rest =
    text_eq (sanitize (codes "db-node-01.eu")) (codes "db-node-01.eu")
    && (text_eq (sanitize (codes "a b/c,d=e:f")) (codes "a_b_c_d_e_f")
        && (text_eq (sanitize (codes "café")) (codes "caf_") && text_eq (sanitize []) []))

abbrev parse_duration_ms_suffix_wins_over_s : Bool
parse_duration_ms_suffix_wins_over_s =
    unwraps_to (parse_duration (codes "500ms")) (from_millis 500)
    && (unwraps_to (parse_duration (codes "10s")) (from_secs 10)
        && unwraps_to (parse_duration (codes "250")) (from_millis 250))

abbrev parse_duration_rejects_garbage : Bool
parse_duration_rejects_garbage =
    is_err (parse_duration (codes "abc"))
    && (is_err (parse_duration (codes "10x"))
        && (is_err (parse_duration (codes "-5s")) && is_err (parse_duration [])))

abbrev parse_export_recognises_every_scheme : Bool
parse_export_recognises_every_scheme =
    is_exec (parse_export (codes "collectd-exec"))
    && (is_udp_to (codes "127.0.0.1:8094") (parse_export (codes "telegraf-udp://127.0.0.1:8094"))
        && is_uds_at (codes "/var/run/collectd-unixsock")
            (parse_export (codes "collectd-uds:///var/run/collectd-unixsock")))

abbrev parse_export_rejects_unknown_scheme : Bool
parse_export_rejects_unknown_scheme =
    is_err (parse_export (codes "kafka://localhost:9092"))
    && (is_err (parse_export [])
        && (is_err (parse_export (codes "collectd-exe"))
            && is_err (parse_export (codes "telegraf-udp:/127.0.0.1:8094"))))

abbrev reject_unknown_flags_a_leftover_argument : Bool
reject_unknown_flags_a_leftover_argument =
    is_ok (reject_unknown []) && is_err (reject_unknown (codes "--typoed" ∷ []))

values_pass :
    (sanitize_keeps_safe_chars_and_replaces_the_rest ≡ true)
    × (parse_duration_ms_suffix_wins_over_s ≡ true)
    × (parse_duration_rejects_garbage ≡ true)
    × (parse_export_recognises_every_scheme ≡ true)
    × (parse_export_rejects_unknown_scheme ≡ true)
    × (reject_unknown_flags_a_leftover_argument ≡ true)
unfolding sanitize text_eq parse_duration strip_suffix strip_prefix parse_uint parse_export
    reject_unknown
values_pass = (refl, refl, refl, refl, refl, refl)
