-- ===== src/Ipc/Libraries.antt =====
-- What the helper takes from the crates hmac, sha2, hex and serde_json, and the `Debug` form of a
-- text, as parameters with the documented behaviour that the program relies on.
use sc_helper.Prelude.{◌^◌, ◌<◌, ◌≡◌, Option, some, Bytes, Text}
use sc_helper.Ipc.{Request, Response, started}
use sc_helper.Ipc.Wire.{Value, request_value, response_value}

pub record Libraries : Type 0 where
  -- `HmacSha256::new_from_slice(key)`, `update`, `finalize().into_bytes()`: key, message
  pub hmac_sha256 : Bytes → Bytes → Bytes
  -- `hex::encode` and `hex::decode`
  pub hex_encode : Bytes → Text
  pub hex_decode : Text → Option Bytes
  -- `serde_json::to_vec` and `serde_json::from_slice`
  pub to_vec : Value → Bytes
  pub request_from_slice : Bytes → Option Request
  pub response_from_slice : Bytes → Option Response
  -- `{:?}` of a text
  pub debug : Text → Text

-- A pid is a `u32`.
abbrev pub IsInRange : Response → Type 0
IsInRange (started pid) = pid < 2 ^ 32
IsInRange _ = Unit {0}

-- The documented behaviour: decoding undoes encoding, and parsing undoes printing.
pub record IsLawful (lib : Libraries) : Type 0 where
  pub hex_decode-hex_encode : (b : Bytes) → lib.hex_decode (lib.hex_encode b) ≡ some b
  pub to_vec_injective : (v w : Value) → lib.to_vec v ≡ lib.to_vec w → v ≡ w
  pub request-to_vec :
      (r : Request)
      → r.timestamp_nanos < 2 ^ 64
      → lib.request_from_slice (lib.to_vec (request_value r)) ≡ some r
  pub response-to_vec :
      (r : Response)
      → IsInRange r
      → lib.response_from_slice (lib.to_vec (response_value r)) ≡ some r
