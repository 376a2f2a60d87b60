-- ===== src/Tests/Protocol.antt =====
-- The theorems on the protocol, on concrete requests and frames.
use sc_helper.Prelude.{
  ℕ, ◌+◌, ◌≤◌, ◌≡◌, ◌↔◌, refl, true, some, [], ◌∷◌, ◌++◌, length, Bytes, codes, arith,
}
use sc_helper.Prelude.Program.{done, failed}
use sc_helper.Ipc.{ping, max_frame_bytes, replay_window_nanos}
use sc_helper.Ipc.Hmac.{signed_message, verify_hmac}
use sc_helper.Ipc.Hmac.Laws.{verify_hmac_iff, verify_hmac-binds, verify_hmac-compute_hmac}
use sc_helper.Ipc.Fresh.{fresh_at, fresh_at_iff}
use sc_helper.Ipc.Frame.{Stream, read_frame, write_frame}
use sc_helper.Ipc.Frame.Laws.{frame, read_frame-write_frame, read_frame_lem, read_frame_sound}
use sc_helper.Std.Word.{to_be_bytes, from_be_bytes}
use sc_helper.Service.Server.Request.{ipc_secret}
use sc_helper.Tests.Plain.{plain, plain-IsLawful}
use sc_helper.Tests.Setup.{signed}

signed-verified : verify_hmac plain ipc_secret (signed ping) ≡ true
signed-verified = verify_hmac-compute_hmac plain plain-IsLawful ipc_secret (signed ping) refl

verify_hmac_iff_example : (verify_hmac plain ipc_secret (signed ping) ≡ true) ↔ (
    plain.hex_decode (signed ping).hmac
    ≡ some (plain.hmac_sha256 ipc_secret (signed_message plain 1_000_000_000 ping)))
verify_hmac_iff_example = verify_hmac_iff plain plain-IsLawful ipc_secret (signed ping)

verify_hmac-binds_example :
    ((signed ping).timestamp_nanos ≡ (signed ping).timestamp_nanos) × (ping ≡ ping)
verify_hmac-binds_example =
    verify_hmac-binds plain plain-IsLawful ipc_secret (signed ping) (signed ping) (λ e. refl)
      (omega arith) (omega arith) refl signed-verified signed-verified

abbrev seven : ℕ
seven = 7

fresh_at_iff_example : (fresh_at 40_000_000_000 10_000_000_000 ≡ true) ↔ (
    (40_000_000_000 ≤ 10_000_000_000 + replay_window_nanos)
    × (10_000_000_000 ≤ 40_000_000_000 + replay_window_nanos))
fresh_at_iff_example = fresh_at_iff 40_000_000_000 10_000_000_000

abbrev small_body : Bytes
small_body = codes "{\"kind\":\"pong\"}"

-- A peer that sends these bytes and takes a hundred.
abbrev sending : Bytes → Stream
sending input = record { input = input; output = []; room = 100; fault = codes "early eof" }

abbrev short_input : Bytes
short_input = codes "abc"

read_frame_lem_example :
    read_frame (sending (to_be_bytes 4 5 ++ short_input)) ≡ (failed (codes "early eof"), sending [])
read_frame_lem_example =
    read_frame_lem 5 short_input (sending (to_be_bytes 4 5 ++ short_input)) (omega arith) refl

read_frame-write_frame_example :
    read_frame (sending ((write_frame small_body (sending [])).1.output ++ short_input))
    ≡ (done small_body, sending short_input)
read_frame-write_frame_example =
    read_frame-write_frame small_body short_input (sending [])
      (sending ((write_frame small_body (sending [])).1.output ++ short_input)) (omega arith)
      (omega arith) refl refl

abbrev two_bytes : Bytes
two_bytes = 0 ∷ 0 ∷ 0 ∷ 2 ∷ 65 ∷ 66 ∷ 67 ∷ []

read_frame_sound_example :
    (length (codes "AB") ≤ max_frame_bytes)
    × (two_bytes ≡ frame (codes "AB") ++ codes "C")
    × ((sending (codes "C")).output ≡ (sending two_bytes).output)
unfolding read_frame from_be_bytes
read_frame_sound_example =
    read_frame_sound (sending two_bytes) (sending (codes "C")) (codes "AB")
      (
        omega arith,
        (
          omega arith,
          (omega arith, (omega arith, (omega arith, (omega arith, (omega arith, tt))))),
        ),
      )
      refl
