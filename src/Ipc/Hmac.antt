-- ===== src/Ipc/Hmac.antt =====
-- src/ipc.rs: `canonical_command_bytes`, `compute_hmac`, `verify_hmac`.
pub mod Laws
use Prim.Native.Nat.{bit_or, bit_xor}
use sc_helper.Prelude.{
  ℕ, Bool, false, not, none, some, [], ◌∷◌, ◌++◌, length, Bytes, Text, ◌==◌, if◌then◌else◌,
}
use sc_helper.Std.Word.{to_be_bytes}
use sc_helper.Ipc.{Command, Request}
use sc_helper.Ipc.Wire.{command_value}
use sc_helper.Ipc.Libraries.{Libraries}

-- The loop over the bytes: `diff |= claimed[i] ^ expected_bytes[i]`. It runs on lists of one
-- length.
unfoldable pub byte_diff : ℕ → Bytes → Bytes → ℕ
byte_diff diff (x ∷ xs) (y ∷ ys) = byte_diff (bit_or diff (bit_xor x y)) xs ys
byte_diff diff _ _ = diff

module _ (lib : Libraries) where
  unfoldable pub canonical_command_bytes : Command → Bytes
  canonical_command_bytes command = lib.to_vec (command_value command)

  -- What the two `update` calls feed to the MAC.
  unfoldable pub signed_message : ℕ → Command → Bytes
  signed_message timestamp_nanos command =
      to_be_bytes 8 timestamp_nanos ++ canonical_command_bytes command

  unfoldable pub compute_hmac : Bytes → ℕ → Command → Text
  compute_hmac secret timestamp_nanos command =
      lib.hex_encode (lib.hmac_sha256 secret (signed_message timestamp_nanos command))

  unfoldable pub verify_hmac : Bytes → Request → Bool
  unfolding byte_diff
  verify_hmac secret request =
      let expected = compute_hmac secret request.timestamp_nanos request.command in
      elim (lib.hex_decode request.hmac) [
        | none ↦ false
        | some claimed ↦ elim (lib.hex_decode expected) [
          | none ↦ false
          | some expected_bytes ↦
              if not (length claimed == length expected_bytes)
              then false
              else byte_diff 0 claimed expected_bytes == 0
        ]
      ]
