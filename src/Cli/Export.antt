-- ===== src/Cli/Export.antt =====
-- `parse_export` of src/cli.rs.
use wire_probe.Prelude.{◌≡◌, refl, ◌↔◌, none, some, ◌++◌, arith, Text, codes, if◌then◌else◌}
use wire_probe.Std.Strings.{strip_prefix, text_eq}
use wire_probe.Std.Strings.Laws.{strip_prefix-append, strip_prefix-eq-some, text_eq_iff}
use wire_probe.Cli.Types.{
  ExportDst, telegraf_udp, collectd_uds, collectd_exec, unknown_scheme, Result, ok, err,
}

abbrev pub telegraf_scheme : Text
telegraf_scheme = codes "telegraf-udp://"

abbrev pub uds_scheme : Text
uds_scheme = codes "collectd-uds://"

abbrev pub exec_name : Text
exec_name = codes "collectd-exec"

unfoldable pub parse_export : Text → Result ExportDst
parse_export s = elim (strip_prefix telegraf_scheme s) [
  | some addr ↦ ok (telegraf_udp addr)
  | none ↦ elim (strip_prefix uds_scheme s) [
    | some path ↦ ok (collectd_uds path)
    | none ↦ if text_eq s exec_name then ok collectd_exec else err (unknown_scheme s)
  ]
]

-- The text of a destination, as the flag takes it.
unfoldable pub export_text : ExportDst → Text
export_text (telegraf_udp addr) = telegraf_scheme ++ addr
export_text (collectd_uds path) = uds_scheme ++ path
export_text collectd_exec = exec_name

uds-not-telegraf : (path : Text) → strip_prefix telegraf_scheme (uds_scheme ++ path) ≡ none
unfolding strip_prefix
uds-not-telegraf path = refl

exec-not-scheme :
    (strip_prefix telegraf_scheme exec_name ≡ none) × (strip_prefix uds_scheme exec_name ≡ none)
unfolding strip_prefix
exec-not-scheme = (refl, refl)

export_text_read : (d : ExportDst) → parse_export (export_text d) ≡ ok d
unfolding parse_export export_text
export_text_read (telegraf_udp addr) = ground (arith, strip_prefix-append telegraf_scheme addr)
export_text_read (collectd_uds path) =
    ground (arith, uds-not-telegraf path, strip_prefix-append uds_scheme path)
export_text_read collectd_exec =
    ground (arith, exec-not-scheme, (text_eq_iff exec_name exec_name).1 refl)

text_of_read : (s : Text) (d : ExportDst) → parse_export s ≡ ok d → s ≡ export_text d
unfolding parse_export export_text
text_of_read s (telegraf_udp addr) h = ground (arith, strip_prefix-eq-some telegraf_scheme s addr)
text_of_read s (collectd_uds path) h = ground (arith, strip_prefix-eq-some uds_scheme s path)
text_of_read s collectd_exec h = ground (arith, text_eq_iff s exec_name)

-- A text is read as a destination exactly when it is the text of that destination.
pub parse_export-export_text :
    (s : Text) (d : ExportDst) → (parse_export s ≡ ok d) ↔ (s ≡ export_text d)
parse_export-export_text s d = (text_of_read s d, λ e. rw e (export_text_read d))
