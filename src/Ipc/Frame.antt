-- ===== src/Ipc/Frame.antt =====
-- src/ipc.rs: `read_frame` and `write_frame`, over a connection.
pub mod Laws
pub mod Ends
use sc_helper.Prelude.{
  ℕ, ◌-◌, ◌%◌, ◌^◌, ◌++◌, length, take, drop, ltb, leb, Bytes, Text, codes, if◌then◌else◌,
}
use sc_helper.Prelude.Program.{Program, Outcome, done, failed, pure, fail, ◌>>=◌, ◌>>◌}
use sc_helper.Std.Text.{decimal}
use sc_helper.Std.Word.{to_be_bytes, from_be_bytes}
use sc_helper.Ipc.{max_frame_bytes}

-- One end of a connection: the bytes that the peer sends before it closes, less those read; the
-- bytes written; how many more the peer takes before it is gone; what a failed read or write
-- reports.
pub record Stream : Type 0 where
  pub input : Bytes
  pub output : Bytes
  pub room : ℕ
  pub fault : Text

-- `read_exact` into a buffer of `n` bytes, `write_all` and `flush`, by their documentation.
abbrev pub read_exact : ℕ → Program Stream Bytes
read_exact n s =
    if leb n (length s.input)
    then (done (take n s.input), record s { input = drop n s.input })
    else (failed s.fault, record s { input = drop (length s.input) s.input })

abbrev pub write_all : Bytes → Program Stream (Unit {0})
write_all bytes s =
    if leb (length bytes) s.room
    then (done tt, record s { output = s.output ++ bytes; room = s.room - length bytes })
    else (failed s.fault, record s { output = s.output ++ take s.room bytes; room = 0 })

abbrev pub flush : Program Stream (Unit {0})
flush s = (done tt, s)

abbrev pub too_large : ℕ → Text
too_large n =
    codes "frame too large: "
    ++ decimal n
    ++ codes " bytes (cap "
    ++ decimal max_frame_bytes
    ++ codes ")"

unfoldable pub read_frame : Program Stream Bytes
read_frame = do
  len_buf ← read_exact 4
  let len = from_be_bytes len_buf
  if ltb max_frame_bytes len then fail (too_large len) else read_exact len

unfoldable pub write_frame : Bytes → Program Stream (Unit {0})
write_frame body =
    if ltb max_frame_bytes (length body)
    then fail (too_large (length body))
    else do write_all (to_be_bytes 4 (length body % 2 ^ 32)); write_all body; flush
