-- ===== src/Ipc/Hmac/Laws.antt =====
-- What a request that passes `verify_hmac` proves, and what passes it.
use sc_helper.Prelude.{
  ℕ, ◌^◌, ◌<◌, ◌≡◌, ◌↔◌, refl, sym, ap, ◌∙◌, true, some, [], ◌∷◌, ◌++◌, length, Bytes, Option-cases,
  inl, inr, arith,
}
use mathlib.Core.Option.{some-injective}
use sc_helper.Prelude.Bits.{bit_or-eq-zero, bit_xor-eq-zero}
use sc_helper.Std.Word.{to_be_bytes, length-to_be_bytes, to_be_bytes-injective_eight}
use sc_helper.Ipc.{Command, Request}
use sc_helper.Ipc.Wire.{command_value-injective}
use sc_helper.Ipc.Libraries.{Libraries, IsLawful}
use sc_helper.Ipc.Hmac.{
  byte_diff, canonical_command_bytes, signed_message, compute_hmac, verify_hmac,
}

byte_diff-zero_eq :
    (xs ys : Bytes) (d : ℕ) → length xs ≡ length ys → byte_diff d xs ys ≡ 0 → (d ≡ 0) × (xs ≡ ys)
unfolding byte_diff
byte_diff-zero_eq [] [] d h e = (e, refl)
byte_diff-zero_eq [] (y ∷ ys) d h e = absurd (omega arith)
byte_diff-zero_eq (x ∷ xs) [] d h e = absurd (omega arith)
byte_diff-zero_eq (x ∷ xs) (y ∷ ys) d h e =
    let (none_here, same) = byte_diff-zero_eq xs ys _ (omega arith) e in
    let (before, byte) = (bit_or-eq-zero d _).0 none_here in
    (before, cc ((bit_xor-eq-zero x y).0 byte, same))

byte_diff_self : (xs : Bytes) → byte_diff 0 xs xs ≡ 0
unfolding byte_diff
byte_diff_self [] = refl
byte_diff_self (x ∷ xs) =
    rw ((bit_xor-eq-zero x x).1 refl) (rw ((bit_or-eq-zero 0 0).1 (refl, refl)) (byte_diff_self xs))

append-injective_of_length :
    (xs ys : Bytes) {us vs : Bytes}
    → length xs ≡ length ys
    → xs ++ us ≡ ys ++ vs
    → (xs ≡ ys) × (us ≡ vs)
append-injective_of_length [] [] h e = (refl, e)
append-injective_of_length [] (y ∷ ys) h e = absurd (omega arith)
append-injective_of_length (x ∷ xs) [] h e = absurd (omega arith)
append-injective_of_length (x ∷ xs) (y ∷ ys) {us} {vs} h e =
    let parts : (xs ≡ ys) × (us ≡ vs) = append-injective_of_length xs ys (omega arith) (cc) in
    let head : x ≡ y = cc in (cc (head, parts.0), parts.1)

module _ (lib : Libraries) (L : IsLawful lib) where
  -- With lawful libraries, `verify_hmac` accepts a request exactly when its `hmac` text decodes to
  -- the HMAC-SHA256, under the secret, of the timestamp's eight big-endian bytes followed by the
  -- command's canonical bytes.
  pub verify_hmac_iff :
      (secret : Bytes) (r : Request)
      → (verify_hmac lib secret r ≡ true) ↔ (
          lib.hex_decode r.hmac
          ≡ some (lib.hmac_sha256 secret (signed_message lib r.timestamp_nanos r.command)))
  unfolding verify_hmac compute_hmac
  verify_hmac_iff secret r =
      let digest = lib.hmac_sha256 secret (signed_message lib r.timestamp_nanos r.command) in
      elim (Option-cases (lib.hex_decode r.hmac)) [
        | inl e ↦ ground (arith, e, L.hex_decode-hex_encode digest)
        | inr (claimed, e) ↦ ground (
          arith,
          e,
          L.hex_decode-hex_encode digest,
          byte_diff-zero_eq claimed digest 0,
          byte_diff_self digest,
        )
      ]

  -- With lawful libraries no two messages of 64-bit timestamps are signed alike: the timestamp
  -- takes eight bytes, so the signed bytes determine the timestamp and the command.
  pub signed_message-injective :
      (ts ts' : ℕ) (c c' : Command)
      → ts < 2 ^ 64
      → ts' < 2 ^ 64
      → signed_message lib ts c ≡ signed_message lib ts' c'
      → (ts ≡ ts') × (c ≡ c')
  unfolding signed_message canonical_command_bytes
  signed_message-injective ts ts' c c' h h' e =
      let (front, back) =
        append-injective_of_length (to_be_bytes 8 ts) (to_be_bytes 8 ts')
          (length-to_be_bytes 8 ts ∙ sym (length-to_be_bytes 8 ts')) e in
      (
        to_be_bytes-injective_eight ts ts' h h' front,
        command_value-injective c c' (L.to_vec_injective _ _ back),
      )

  -- With lawful libraries and 64-bit timestamps, a MAC text that passes for two requests, whose
  -- signed bytes are no collision of the MAC, passes for one timestamp and command only: it cannot
  -- be moved to another command or another time.
  pub verify_hmac-binds :
      (secret : Bytes) (r s : Request)
      → (lib.hmac_sha256 secret (signed_message lib r.timestamp_nanos r.command)
            ≡ lib.hmac_sha256 secret (signed_message lib s.timestamp_nanos s.command)
          → signed_message lib r.timestamp_nanos r.command
            ≡ signed_message lib s.timestamp_nanos s.command)
      → r.timestamp_nanos < 2 ^ 64
      → s.timestamp_nanos < 2 ^ 64
      → r.hmac ≡ s.hmac
      → verify_hmac lib secret r ≡ true
      → verify_hmac lib secret s ≡ true
      → (r.timestamp_nanos ≡ s.timestamp_nanos) × (r.command ≡ s.command)
  verify_hmac-binds secret r s separates hr hs same vr vs = signed_message-injective _ _ _ _ hr hs (
      separates (
        some-injective _ _ (
          sym ((verify_hmac_iff secret r).0 vr)
          ∙ ap lib.hex_decode same
          ∙ (verify_hmac_iff secret s).0 vs)))

  -- With lawful libraries, what `compute_hmac` signs, `verify_hmac` accepts under the same secret.
  pub verify_hmac-compute_hmac :
      (secret : Bytes) (r : Request)
      → r.hmac ≡ compute_hmac lib secret r.timestamp_nanos r.command
      → verify_hmac lib secret r ≡ true
  unfolding compute_hmac
  verify_hmac-compute_hmac secret r e =
      (verify_hmac_iff secret r).1 (ap lib.hex_decode e ∙ L.hex_decode-hex_encode _)
