-- ===== src/Exporter/Collectd/Stale.antt =====
-- The bytes of a Unix stream over any sends, the reconnections that are refused among them:
-- `flush_line` of src/exporter/collectd.rs, against a description that keeps lines and torn pieces.
use mathlib.Core.List.{append_assoc, append-nil, map-append}
use wire_probe.Prelude.{
  ℕ, ◌<◌, ◌≡◌, ◌≢◌, refl, sym, ap, ◌∙◌, List, [], ◌∷◌, ◌++◌, Text, Bytes, length, take, map, All,
  All-append, arith,
}
use wire_probe.Std.Io.{IoError, IoResult, ok, err}
use wire_probe.Exporter.Scan.{Lacks}
use wire_probe.Exporter.Collectd.{
  Write, wrote, failed_after, Answers, flush_line, connect_uds, reconnect,
}
use wire_probe.Exporter.Collectd.Framing.{
  IsLine, flatten, flatten-snoc, read_lines, Session, deliver, deliver_all, opened,
}
use wire_probe.Exporter.Collectd.Torn.{read_lines-append, torn_Lacks}

-- A line that was written whole, with the torn pieces that stood in front of it.
pub record Frame : Type 0 where
  pub torn : Bytes
  pub line : Bytes

-- What a stream holds: the frames that are closed by a newline, and the torn pieces at its end.
pub record Frames : Type 0 where
  pub closed : List Frame
  pub torn : Bytes

abbrev pub glued : Frame → Bytes
glued f = f.torn ++ f.line

abbrev pub no_frames : Frames
no_frames = record { closed = []; torn = [] }

-- A failed write after a reconnection or without one.
abbrev failed_write : Frames → Bytes → IoResult (Unit {0}) → IoResult (Unit {0}) → Frames
failed_write f piece (ok u) (ok u') = no_frames
failed_write f piece (ok u) (err e) = record f { torn = f.torn ++ piece }
failed_write f piece (err e) timeout = record f { torn = f.torn ++ piece }

abbrev pub frame_send : Frames → Bytes × Answers → Frames
frame_send f (line, a) = elim a.write [
  | wrote ↦ record { closed = f.closed ++ (record { torn = f.torn; line = line } ∷ []); torn = [] }
  | failed_after k e ↦ failed_write f (take k line) a.connect a.set_write_timeout
]

abbrev pub frames_of : List (Bytes × Answers) → Frames → Frames
frames_of [] f = f
frames_of (item ∷ items) f = frames_of items (frame_send f item)

-- `write_all` fails only in front of a byte that it has not written.
pub record IsSent (item : Bytes × Answers) : Type 0 where
  pub whole : IsLine item.0
  pub torn : (k : ℕ) (e : IoError) → item.1.write ≡ failed_after k e → k < length item.0

record Implements (s : Session) (f : Frames) : Type 0 where
  stream : s.stream ≡ flatten (map glued f.closed) ++ f.torn
  acked : s.acked ≡ map (λ x. x.line) f.closed
  lines : All IsLine (map glued f.closed)
  open_end : Lacks b'\n' f.torn

glued-IsLine : (torn line : Bytes) → Lacks b'\n' torn → IsLine line → IsLine (torn ++ line)
glued-IsLine torn line t h = record {
  body = torn ++ h.body;
  ended = ap (λ s. torn ++ s) h.ended ∙ sym (append_assoc torn h.body _);
  single = All-append (λ c. c ≢ b'\n') torn h.body t h.single;
}

read_lines-Lacks : (s : Bytes) → Lacks b'\n' s → read_lines s ≡ ([], s)
unfolding read_lines
read_lines-Lacks [] h = refl
read_lines-Lacks (c ∷ s) h = ground (arith, read_lines-Lacks s h.1, h.0)

-- The three ways of a send.
wrote-Implements :
    (s : Session) (f : Frames) (line : Bytes)
    → Implements s f
    → IsLine line
    → Implements
        (record { stream = s.stream ++ line; acked = s.acked ++ (line ∷ []) })
        (record { closed = f.closed ++ (record { torn = f.torn; line = line } ∷ []); torn = [] })
wrote-Implements s f line v h =
    let last : Frame = record { torn = f.torn; line = line } in
    let maps = map-append glued f.closed (last ∷ []) in
    record {
      stream =
          rw
            (
              append-nil (flatten (map glued (f.closed ++ (last ∷ [])))),
              maps,
              flatten-snoc (map glued f.closed) (glued last),
              v.stream,
            )
            (append_assoc (flatten (map glued f.closed)) f.torn line);
      acked = rw (map-append (λ x. x.line) f.closed (last ∷ []), v.acked) refl;
      lines = rw maps (All-append IsLine _ _ v.lines (glued-IsLine f.torn line v.open_end h, tt));
      open_end = tt;
    }

torn-Implements :
    (s : Session) (f : Frames) (piece : Bytes)
    → Implements s f
    → Lacks b'\n' piece
    → Implements
        (record { stream = s.stream ++ piece; acked = s.acked })
        (record f { torn = f.torn ++ piece })
torn-Implements s f piece v h = record {
  stream = ap (λ t. t ++ piece) v.stream ∙ append_assoc _ f.torn piece;
  acked = v.acked;
  lines = v.lines;
  open_end = All-append (λ c. c ≢ b'\n') f.torn piece v.open_end h;
}

opened-Implements : Implements opened no_frames
opened-Implements = record { stream = refl; acked = refl; lines = tt; open_end = tt }

-- A send, by the answers to its write and to its reconnection.
answered-Implements :
    (path : Text) (s : Session) (f : Frames) (line : Bytes) (write : Write)
    (flush connect timeout : IoResult (Unit {0}))
    → let a : Answers = record {
      write = write;
      flush = flush;
      connect = connect;
      set_write_timeout = timeout;
    } in
      Implements s f
      → IsSent (line, a)
      → Implements (deliver path s (line, a)) (frame_send f (line, a))
unfolding deliver flush_line reconnect connect_uds
answered-Implements path s f line wrote flush connect timeout v h =
    wrote-Implements s f line v h.whole
answered-Implements path s f line (failed_after k e) flush (ok u) (ok u') v h = opened-Implements
answered-Implements path s f line (failed_after k e) flush (ok u) (err e') v h =
    torn-Implements s f (take k line) v (torn_Lacks k line h.whole (h.torn k e refl))
answered-Implements path s f line (failed_after k e) flush (err e') timeout v h =
    torn-Implements s f (take k line) v (torn_Lacks k line h.whole (h.torn k e refl))

sends-Implement :
    (path : Text) (items : List (Bytes × Answers)) (s : Session) (f : Frames)
    → Implements s f
    → All IsSent items
    → Implements (deliver_all path items s) (frames_of items f)
unfolding deliver_all
sends-Implement path [] s f v h = v
sends-Implement path (item ∷ items) s f v h =
    sends-Implement path items (deliver path s item) (frame_send f item)
      (answered-Implements path s f item.0 item.1.write item.1.flush item.1.connect
        item.1.set_write_timeout v h.0)
      h.1

-- Over any sends of lines, with reconnections refused or not, where a failed write stops inside its
-- line: a reader finds in the open stream exactly the frames that the sends leave, in order, and at
-- the end the torn pieces that no line closed. A frame is a line whose write succeeded, behind the
-- pieces that failed writes left in front of it, and a failed write with a reconnection leaves no
-- frame. The lines of the frames are those whose send returned `Ok`.
pub deliver_all-frames :
    (path : Text) (items : List (Bytes × Answers))
    → All IsSent items
    → let s = deliver_all path items opened in
      let f = frames_of items no_frames in
      (read_lines s.stream ≡ (map glued f.closed, f.torn)) × (s.acked ≡ map (λ x. x.line) f.closed)
unfolding read_lines
deliver_all-frames path items h =
    let f = frames_of items no_frames in
    let v = sends-Implement path items opened no_frames opened-Implements h in
    (
      rw
          (
            v.stream,
            read_lines-append (map glued f.closed) f.torn v.lines,
            read_lines-Lacks f.torn v.open_end,
          )
          (ap (λ l. (l, f.torn)) (append-nil _)),
      v.acked,
    )
