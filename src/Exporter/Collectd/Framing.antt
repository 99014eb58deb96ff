-- ===== src/Exporter/Collectd/Framing.antt =====
-- What reaches a reader of the Unix socket over several sends: `flush_line` and its reconnection in
-- src/exporter/collectd.rs.
use mathlib.Core.List.{append_assoc, append-nil}
use wire_probe.Prelude.{
  ℕ, ◌≡◌, ◌⊎◌, inl, inr, refl, sym, ap, List, [], ◌∷◌, ◌++◌, Text, Bytes, take, All, All-append,
  none, some, arith, if◌then◌else◌, ◌==◌,
}
use wire_probe.Std.Io.{IoError, ok, err}
use wire_probe.Exporter.Scan.{Lacks}
use wire_probe.Exporter.Collectd.{
  Dest, exec, uds, Write, wrote, failed_after, Answers, Flushed, flush_line,
}

pub Write-cases : (w : Write) → (w ≡ wrote) ⊎ ((k : ℕ) × (e : IoError) × (w ≡ failed_after k e))
Write-cases wrote = inl refl
Write-cases (failed_after k e) = inr (k, e, refl)

-- A line: bytes with no newline, and one.
pub record IsLine (s : Bytes) : Type 0 where
  pub body : Bytes
  pub ended : s ≡ body ++ (b'\n' ∷ [])
  pub single : Lacks b'\n' body

abbrev pub flatten : List Bytes → Bytes
flatten [] = []
flatten (l ∷ ls) = l ++ flatten ls

abbrev start_line : ℕ → List Bytes × Bytes → List Bytes × Bytes
start_line c ([], rest) = ([], c ∷ rest)
start_line c (l ∷ ls, rest) = ((c ∷ l) ∷ ls, rest)

-- The complete lines of a stream, each with its newline, and the unfinished rest.
unfoldable pub read_lines : Bytes → List Bytes × Bytes
read_lines [] = ([], [])
read_lines (c ∷ s) =
    let r = read_lines s in if c == b'\n' then ((c ∷ []) ∷ r.0, r.1) else start_line c r

read_lines-body :
    (body s : Bytes)
    → Lacks b'\n' body
    → read_lines (body ++ (b'\n' ∷ s))
      ≡ ((body ++ (b'\n' ∷ [])) ∷ (read_lines s).0, (read_lines s).1)
unfolding read_lines
read_lines-body [] s h = refl
read_lines-body (c ∷ body) s h = ground (arith, read_lines-body body s h.1, h.0)

pub read_lines-line :
    (l s : Bytes) → IsLine l → read_lines (l ++ s) ≡ (l ∷ (read_lines s).0, (read_lines s).1)
read_lines-line l s h =
    rw (h.ended, append_assoc h.body (b'\n' ∷ []) s) (read_lines-body h.body s h.single)

pub read_lines-flatten : (ls : List Bytes) → All IsLine ls → read_lines (flatten ls) ≡ (ls, [])
unfolding read_lines
read_lines-flatten [] h = refl
read_lines-flatten (l ∷ ls) h = rw (read_lines-line l (flatten ls) h.0, read_lines-flatten ls h.1)

pub flatten-snoc : (ls : List Bytes) (l : Bytes) → flatten (ls ++ (l ∷ [])) ≡ flatten ls ++ l
flatten-snoc [] l = append-nil l
flatten-snoc (k ∷ ls) l = rw (flatten-snoc ls l) (sym (append_assoc k (flatten ls) l))

-- A stream, and the lines whose send returned `Ok` since it was opened.
pub record Session : Type 0 where
  pub stream : Bytes
  pub acked : List Bytes

abbrev pub stream_of : Dest → Bytes
stream_of exec = []
stream_of (uds path stream) = stream

abbrev acked_after : List Bytes → Bytes → Flushed → List Bytes
acked_after acked line f = elim f.dropped [
  | some old ↦ []
  | none ↦ elim f.result [ ok u ↦ acked ++ (line ∷ []) | err e ↦ acked ]
]

-- One send of a line to the socket.
unfoldable pub deliver : (path : Text) → Session → Bytes × Answers → Session
deliver path s (line, a) =
    let f = flush_line (uds path s.stream) line a.write a in
    record { stream = stream_of f.dest; acked = acked_after s.acked line f }

unfoldable pub deliver_all : (path : Text) → List (Bytes × Answers) → Session → Session
unfolding deliver
deliver_all path [] s = s
deliver_all path (item ∷ items) s = deliver_all path items (deliver path s item)

abbrev pub opened : Session
opened = record { stream = []; acked = [] }

-- A reconnection, if one is tried, succeeds.
pub record Reconnects (a : Answers) : Type 0 where
  pub connects : a.connect ≡ ok tt
  pub bounded : a.set_write_timeout ≡ ok tt

-- A line that is sent while reconnections succeed.
abbrev pub IsSend : Bytes × Answers → Type 0
IsSend (line, a) = IsLine line × Reconnects a

pub record IsFramed (s : Session) : Type 0 where
  pub framed : s.stream ≡ flatten s.acked
  pub lines : All IsLine s.acked

pub flush_wrote :
    (path : Text) (s : Session) (line : Bytes) (a : Answers)
    → a.write ≡ wrote
    → deliver path s (line, a)
      ≡ record { stream = s.stream ++ line; acked = s.acked ++ (line ∷ []) }
unfolding deliver flush_line
flush_wrote path s line a e = rw e

flush_failed :
    (path : Text) (s : Session) (line : Bytes) (a : Answers) (k : ℕ) (e : IoError)
    → a.write ≡ failed_after k e
    → Reconnects a
    → deliver path s (line, a) ≡ opened
unfolding deliver flush_line
flush_failed path s line a k e w r = ground (arith, r.connects, r.bounded)

pub flush_refused :
    (path : Text) (s : Session) (line : Bytes) (a : Answers) (k : ℕ) (e e' : IoError)
    → a.write ≡ failed_after k e
    → a.connect ≡ err e'
    → deliver path s (line, a) ≡ record { stream = s.stream ++ take k line; acked = s.acked }
unfolding deliver flush_line
flush_refused path s line a k e e' w r = ground arith

deliver-IsFramed :
    (path : Text) (s : Session) (item : Bytes × Answers)
    → IsFramed s
    → IsSend item
    → IsFramed (deliver path s item)
deliver-IsFramed path s (line, a) v h = elim (Write-cases a.write) [
  | inl w ↦ rw (flush_wrote path s line a w) (record {
    framed = rw (flatten-snoc s.acked line) (ap (λ t. t ++ line) v.framed);
    lines = All-append IsLine s.acked (line ∷ []) v.lines (h.0, tt);
  })
  | inr (k, e, w) ↦ rw (flush_failed path s line a k e w h.1) (record { framed = refl; lines = tt })
]

deliver_all-IsFramed :
    (path : Text) (items : List (Bytes × Answers)) (s : Session)
    → IsFramed s
    → All IsSend items
    → IsFramed (deliver_all path items s)
unfolding deliver_all
deliver_all-IsFramed path [] s v h = v
deliver_all-IsFramed path (item ∷ items) s v h =
    deliver_all-IsFramed path items (deliver path s item) (deliver-IsFramed path s item v h.0) h.1

-- However the writes fail, and however much of a line a failed write leaves: as long as the
-- reconnections succeed, what a reader finds in the open stream is exactly the lines whose send
-- returned `Ok` since it was opened, whole and in order, and no part of another.
pub deliver_all-read_lines :
    (path : Text) (items : List (Bytes × Answers))
    → All IsSend items
    → read_lines (deliver_all path items opened).stream
      ≡ ((deliver_all path items opened).acked, [])
deliver_all-read_lines path items h =
    let v = deliver_all-IsFramed path items opened (record { framed = refl; lines = tt }) h in
    rw v.framed (read_lines-flatten _ v.lines)
