-- ===== src/Admission/Client/Construct.antt =====
-- admission/client.go: the client, its options, NewWithConfig and the address that it dials.
use mitrity_go.Base.{
  ℕ, ◌*◌, Bool, true, List, [], ◌∷◌, Option, none, some, Bytes, codes, Result, ok, err,
}
use mitrity_go.Std.Ip.{join_host_port}
use mitrity_go.Std.Duration.{Duration}
use mitrity_go.Admission.Errors.{GoError}
use mitrity_go.Admission.Config.{Config, normalized, Platform, from_env}
use mitrity_go.Admission.Config.Addr.{
  Network, unix, tcp, split_addr, validate_addr, parse_loopback_addr,
}

abbrev pub max_request_bytes : ℕ
max_request_bytes = 64 * 1024

abbrev pub max_response_bytes : ℕ
max_response_bytes = 256 * 1024

abbrev pub host_name : Bytes
host_name = codes "mitrity-admission"

pub record Client : Type 0 where
  pub cfg : Config
  pub cfg_err : Option GoError
  pub network : Network
  pub address : Bytes
  pub host : Bytes
  pub port : ℕ
  pub has_logger : Bool

-- The options that the package offers; `with_logger false` is WithLogger(nil).
pub data ClientOption : Type 0 where
  with_addr with_token_file : Bytes → ClientOption
  with_timeout with_hold_timeout : Duration → ClientOption
  with_logger : Bool → ClientOption

unfoldable pub apply_option : ClientOption → Client → Client
apply_option (with_addr addr) c = record c { cfg = record c.cfg { addr = addr } }
apply_option (with_token_file path) c = record c { cfg = record c.cfg { token_file = path } }
apply_option (with_timeout d) c = record c { cfg = record c.cfg { timeout = d } }
apply_option (with_hold_timeout d) c = record c { cfg = record c.cfg { hold_timeout = d } }
apply_option (with_logger logger) c = record c { has_logger = logger }

unfoldable pub apply_options : List ClientOption → Client → Client
unfolding apply_option
apply_options [] c = c
apply_options (o ∷ os) c = apply_options os (apply_option o c)

abbrev pub with_target : Client → Result GoError (Bytes × ℕ) → Client
with_target c (err e) = record c { host = []; port = 0 }
with_target c (ok (host, port)) = record c { host = host; port = port }

abbrev pub checked : Client → Option GoError → Client
checked c (some e) = record c { cfg_err = some e }
checked c none = elim c.network [ tcp ↦ with_target c (parse_loopback_addr c.address) | unix ↦ c ]

-- What NewWithConfig does behind the options.
abbrev pub finish_at : Client → Network × Bytes → Client
finish_at c (network, address) =
    checked (record c { network = network; address = address }) (validate_addr c.cfg.addr)

unfoldable pub finish_client : Client → Client
finish_client c =
    let cfg = normalized c.cfg in finish_at (record c { cfg = cfg }) (split_addr cfg.addr)

abbrev pub new_start : Config → Client
new_start cfg = record {
  cfg = cfg;
  cfg_err = none;
  network = tcp;
  address = [];
  host = [];
  port = 0;
  has_logger = true;
}

-- NewWithConfig
unfoldable pub new_with_config : Config → List ClientOption → Client
new_with_config cfg opts = finish_client (apply_options opts (new_start cfg))

-- New
unfoldable pub new_client : Platform → List ClientOption → Client
new_client p opts = new_with_config (from_env p) opts

-- The address that `dial` connects to.
unfoldable pub dial_address : Client → Bytes
unfolding join_host_port
dial_address c = elim c.network [ unix ↦ c.address | tcp ↦ join_host_port c.host c.port ]
