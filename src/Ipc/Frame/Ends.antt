-- ===== src/Ipc/Frame/Ends.antt =====
-- Reading and writing a frame come to an end, without a panic.
use sc_helper.Prelude.{arith, Bytes}
use sc_helper.Prelude.Program.{IsSettled}
use sc_helper.Ipc.Frame.{Stream, read_frame, write_frame}

pub read_frame-IsSettled : (s : Stream) → IsSettled (read_frame s).0
unfolding read_frame
read_frame-IsSettled s = ground arith

pub write_frame-IsSettled : (body : Bytes) (s : Stream) → IsSettled (write_frame body s).0
unfolding write_frame
write_frame-IsSettled body s = ground arith
