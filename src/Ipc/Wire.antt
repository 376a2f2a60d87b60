-- ===== src/Ipc/Wire.antt =====
-- src/ipc.rs: what the derived `Serialize` of the protocol types hands to serde_json. The
-- attributes `tag = "kind"` and `rename_all = "snake_case"` make an enum an object whose first
-- field is its kind; the other fields follow in declaration order.
use sc_helper.Prelude.{ℕ, List, Text, codes, ◌≡◌, arith}
use sc_helper.Ipc.{
  Command, ping, start_mihomo, stop_mihomo, set_dns, clear_dns, get_version, shutdown, Request,
  ErrorCode, bad_hmac, replayed, bad_request, already_running, not_running, spawn_failed, internal,
  Response, pong, started, stopped, dns_set, dns_cleared, version, shutting_down, error,
}

-- JSON, as far as the protocol uses it.
mutual
  pub data Value : Type 0 where
    str : Text → Value
    num : ℕ → Value
    strs : List Text → Value
    obj : Fields → Value

  pub data Fields : Type 0 where
    end : Fields
    field : Text → Value → Fields → Fields

abbrev tagged : Text → Fields → Value
tagged kind fields = obj (field (codes "kind") (str kind) fields)

unfoldable pub command_value : Command → Value
command_value ping = tagged (codes "ping") end
command_value (start_mihomo config_dir config_file log_file) = tagged (codes "start_mihomo") (
    field (codes "config_dir") (str config_dir)
      (field (codes "config_file") (str config_file) (field (codes "log_file") (str log_file) end)))
command_value stop_mihomo = tagged (codes "stop_mihomo") end
command_value (set_dns servers) =
    tagged (codes "set_dns") (field (codes "servers") (strs servers) end)
command_value clear_dns = tagged (codes "clear_dns") end
command_value get_version = tagged (codes "get_version") end
command_value shutdown = tagged (codes "shutdown") end

unfoldable pub request_value : Request → Value
unfolding command_value
request_value r = obj (
    field (codes "timestamp_nanos") (num r.timestamp_nanos)
      (field (codes "hmac") (str r.hmac) (field (codes "command") (command_value r.command) end)))

error_code_name : ErrorCode → Text
error_code_name bad_hmac = codes "bad_hmac"
error_code_name replayed = codes "replayed"
error_code_name bad_request = codes "bad_request"
error_code_name already_running = codes "already_running"
error_code_name not_running = codes "not_running"
error_code_name spawn_failed = codes "spawn_failed"
error_code_name internal = codes "internal"

unfoldable pub response_value : Response → Value
unfolding error_code_name
response_value pong = tagged (codes "pong") end
response_value (started pid) = tagged (codes "started") (field (codes "pid") (num pid) end)
response_value stopped = tagged (codes "stopped") end
response_value dns_set = tagged (codes "dns_set") end
response_value dns_cleared = tagged (codes "dns_cleared") end
response_value (version v sha) =
    tagged (codes "version")
      (field (codes "version") (str v) (field (codes "build_sha") (str sha) end))
response_value shutting_down = tagged (codes "shutting_down") end
response_value (error code message) =
    tagged (codes "error") (
      field (codes "code") (str (error_code_name code)) (field (codes "message") (str message) end))

-- Different commands have different canonical forms.
pub command_value-injective : (c d : Command) → command_value c ≡ command_value d → c ≡ d
unfolding command_value
command_value-injective c d e = ground arith

-- Different responses have different forms on the wire.
pub response_value-injective : (r s : Response) → response_value r ≡ response_value s → r ≡ s
unfolding response_value
response_value-injective r s e = ground arith
