-- ===== src/Tests/Plain.antt =====
-- Libraries that have the behaviour the program relies on, on small codes.
use sc_helper.Prelude.{
  ℕ, ◌≡◌, refl, sym, ap, ◌∙◌, Option, none, some, ◌++◌, if◌then◌else◌, Text, codes,
}
use mathlib.Core.Option.{some-injective}
use sc_helper.Std.Text.{text_eq}
use sc_helper.Ipc.{
  Command, ping, start_mihomo, stop_mihomo, set_dns, clear_dns, get_version, shutdown, Request,
  ErrorCode, bad_hmac, replayed, bad_request, already_running, not_running, spawn_failed, internal,
  Response, pong, started, stopped, dns_set, dns_cleared, version, shutting_down, error,
}
use sc_helper.Ipc.Wire.{
  Value, str, num, strs, obj, end, field, command_value, request_value, response_value,
}
use sc_helper.Ipc.Libraries.{Libraries, IsLawful}
use sc_helper.Tests.Codec.{to_vec, from_slice, from_slice-to_vec}

command_of : Value → Option Command
command_of (obj (field _ (str kind) (field _ (strs servers) end))) = some (set_dns servers)
command_of (obj (field _ (str kind) (field _ (str d) (field _ (str f) (field _ (str l) end))))) =
    some (start_mihomo d f l)
command_of (obj (field _ (str kind) end)) =
    if text_eq kind (codes "ping")
    then some ping
    else if text_eq kind (codes "stop_mihomo")
    then some stop_mihomo
    else if text_eq kind (codes "clear_dns")
    then some clear_dns
    else if text_eq kind (codes "get_version")
    then some get_version
    else if text_eq kind (codes "shutdown")
    then some shutdown
    else none
command_of _ = none

command_of-command_value : (c : Command) → command_of (command_value c) ≡ some c
unfolding command_of command_value
command_of-command_value ping = refl
command_of-command_value (start_mihomo d f l) = refl
command_of-command_value stop_mihomo = refl
command_of-command_value (set_dns servers) = refl
command_of-command_value clear_dns = refl
command_of-command_value get_version = refl
command_of-command_value shutdown = refl

with_command : ℕ → Text → Option Command → Option Request
with_command n h none = none
with_command n h (some c) = some (record { timestamp_nanos = n; hmac = h; command = c })

request_of : Option Value → Option Request
request_of (some (obj (field _ (num n) (field _ (str h) (field _ c end))))) =
    with_command n h (command_of c)
request_of _ = none

request_of-request_value : (r : Request) → request_of (some (request_value r)) ≡ some r
unfolding request_of request_value with_command
request_of-request_value r =
    ap (with_command r.timestamp_nanos r.hmac) (command_of-command_value r.command)

error_code_of : Text → ErrorCode
error_code_of name =
    if text_eq name (codes "bad_hmac")
    then bad_hmac
    else if text_eq name (codes "replayed")
    then replayed
    else if text_eq name (codes "bad_request")
    then bad_request
    else if text_eq name (codes "already_running")
    then already_running
    else if text_eq name (codes "not_running")
    then not_running
    else if text_eq name (codes "spawn_failed")
    then spawn_failed
    else internal

response_of : Option Value → Option Response
response_of (some (obj (field _ kind (field _ (num pid) end)))) = some (started pid)
response_of (some (obj (field _ (str kind) (field _ (str a) (field _ (str b) end))))) =
    some (if text_eq kind (codes "version") then version a b else error (error_code_of a) b)
response_of (some (obj (field _ (str kind) end))) =
    if text_eq kind (codes "pong")
    then some pong
    else if text_eq kind (codes "stopped")
    then some stopped
    else if text_eq kind (codes "dns_set")
    then some dns_set
    else if text_eq kind (codes "dns_cleared")
    then some dns_cleared
    else if text_eq kind (codes "shutting_down")
    then some shutting_down
    else none
response_of _ = none

response_of-response_value : (r : Response) → response_of (some (response_value r)) ≡ some r
unfolding response_of response_value error_code_of
response_of-response_value pong = refl
response_of-response_value (started pid) = refl
response_of-response_value stopped = refl
response_of-response_value dns_set = refl
response_of-response_value dns_cleared = refl
response_of-response_value (version v sha) = refl
response_of-response_value shutting_down = refl
response_of-response_value (error bad_hmac message) = refl
response_of-response_value (error replayed message) = refl
response_of-response_value (error bad_request message) = refl
response_of-response_value (error already_running message) = refl
response_of-response_value (error not_running message) = refl
response_of-response_value (error spawn_failed message) = refl
response_of-response_value (error internal message) = refl

-- The MAC is the key followed by the message, which separates messages; a text of hex digits is the
-- bytes themselves.
unfoldable pub plain : Libraries
unfolding to_vec from_slice request_of response_of with_command command_of error_code_of
plain = record {
  hmac_sha256 = λ key message. key ++ message;
  hex_encode = λ b. b;
  hex_decode = λ t. some t;
  to_vec = to_vec;
  request_from_slice = λ b. request_of (from_slice b);
  response_from_slice = λ b. response_of (from_slice b);
  debug = λ t. codes "\"" ++ t ++ codes "\"";
}

pub plain-IsLawful : IsLawful plain
unfolding plain
plain-IsLawful = record {
  hex_decode-hex_encode = λ b. refl;
  to_vec_injective = λ v w e.
      some-injective v w (sym (from_slice-to_vec v) ∙ ap from_slice e ∙ from_slice-to_vec w);
  request-to_vec =
      λ r h. ap request_of (from_slice-to_vec (request_value r)) ∙ request_of-request_value r;
  response-to_vec =
      λ r h. ap response_of (from_slice-to_vec (response_value r)) ∙ response_of-response_value r;
}
