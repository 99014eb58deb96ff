-- ===== src/Exporter/Collectd/Torn.antt =====
-- The reconnection that fails: `flush_line` of src/exporter/collectd.rs keeps the stale stream.
use mathlib.Core.List.{append_assoc, append-nil}
use wire_probe.Prelude.{
  ℕ, zero, suc, ◌≤◌, ◌<◌, ◌≡◌, ◌≢◌, refl, sym, ap, ◌∙◌, List, [], ◌∷◌, ◌++◌, Text, Bytes, length,
  length-append, take, All, All-append, arith,
}
use wire_probe.Std.Io.{IoError, err}
use wire_probe.Exporter.Scan.{Lacks}
use wire_probe.Exporter.Collectd.{wrote, failed_after, Answers}
use wire_probe.Exporter.Collectd.Framing.{
  IsLine, flatten, read_lines, read_lines-line, Session, IsFramed, deliver, flush_wrote,
  flush_refused,
}

pub read_lines-append :
    (ls : List Bytes) (t : Bytes)
    → All IsLine ls
    → read_lines (flatten ls ++ t) ≡ (ls ++ (read_lines t).0, (read_lines t).1)
read_lines-append [] t h = refl
read_lines-append (l ∷ ls) t h =
    rw (append_assoc l (flatten ls) t, read_lines-line l _ h.0, read_lines-append ls t h.1)

pub take-Lacks :
    (sep k : ℕ) (body rest : Bytes)
    → k ≤ length body
    → Lacks sep body
    → Lacks sep (take k (body ++ rest))
take-Lacks sep zero body rest h l = tt
take-Lacks sep (suc k) [] rest h l = absurd (omega arith)
take-Lacks sep (suc k) (c ∷ body) rest h l = (l.0, take-Lacks sep k body rest (omega arith) l.1)

pub torn_Lacks : (k : ℕ) (l : Bytes) → IsLine l → k < length l → Lacks b'\n' (take k l)
torn_Lacks k l h less =
    let size = ap length h.ended ∙ length-append h.body (b'\n' ∷ []) in
    rw h.ended (take-Lacks b'\n' k h.body (b'\n' ∷ []) (omega arith) h.single)

-- An unfinished line in front of a line makes one line of the two.
glued-IsLine :
    (k : ℕ) (l1 l2 : Bytes) → IsLine l1 → IsLine l2 → k < length l1 → IsLine (take k l1 ++ l2)
glued-IsLine k l1 l2 h1 h2 less = record {
  body = take k l1 ++ h2.body;
  ended = ap (λ t. take k l1 ++ t) h2.ended ∙ sym (append_assoc (take k l1) h2.body _);
  single = All-append (λ c. c ≢ b'\n') (take k l1) h2.body (torn_Lacks k l1 h1 less) h2.single;
}

-- From a stream of whole lines, a write that fails inside a line, while the reconnection is
-- refused, leaves the beginning of the line in the stream that stays in use. The next line whose
-- write succeeds is read joined to it, although its own send returns `Ok`.
pub refused-glues :
    (path : Text) (s : Session) (l1 l2 : Bytes) (a1 a2 : Answers) (k : ℕ) (e refused : IoError)
    → IsFramed s
    → IsLine l1
    → IsLine l2
    → k < length l1
    → a1.write ≡ failed_after k e
    → a1.connect ≡ err refused
    → a2.write ≡ wrote
    → let s' = deliver path (deliver path s (l1, a1)) (l2, a2) in
      (read_lines s'.stream ≡ (s.acked ++ ((take k l1 ++ l2) ∷ []), []))
      × (s'.acked ≡ s.acked ++ (l2 ∷ []))
unfolding read_lines
refused-glues path s l1 l2 a1 a2 k e refused v h1 h2 less w1 c1 w2 =
    let glued = take k l1 ++ l2 in
    let line = glued-IsLine k l1 l2 h1 h2 less in
    let one : read_lines glued ≡ (glued ∷ [], []) =
      ap read_lines (sym (append-nil glued)) ∙ read_lines-line glued [] line in
    let first = flush_refused path s l1 a1 k e refused w1 c1 in
    rw (first, flush_wrote path _ l2 a2 w2)
      (
        rw
            (
              v.framed,
              append_assoc (flatten s.acked) (take k l1) l2,
              read_lines-append s.acked glued v.lines,
              one,
            )
            refl,
        refl,
      )
