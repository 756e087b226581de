-- ===== src/Govern/State.antt =====
-- govern/governor.go: the governor's state, its options and New.
use mitrity_go.Base.{
  ℕ, ◌*◌, Bool, true, false, not, ◌&&◌, ◌||◌, List, [], ◌∷◌, ◌++◌, Option, none, some,
  if◌then◌else◌, Bytes, codes, same, is_empty,
}
use mitrity_go.Std.Strings.{hex_encode}
use mitrity_go.Std.Duration.{second}
use mitrity_go.Admission.Requests.{surface_custom, framework_for_surface}
use mitrity_go.Admission.Client.Construct.{Client}

-- mitrity.Version (mitrity.go)
abbrev pub version : Bytes
version = codes "0.1.0"

-- attestRetryInterval, in nanoseconds
abbrev pub attest_retry_interval : ℕ
attest_retry_interval = 30 * second

-- The counters. They are int64 in the source; a count of 2^63 calls is out of reach.
pub record Stats : Type 0 where
  pub admitted : ℕ
  pub allowed : ℕ
  pub denied : ℕ
  pub held : ℕ
  pub unreachable : ℕ
  pub routed : ℕ

-- `attested` and `attest_attempted` are maps: the first entry of a key counts.
pub record Governor : Type 0 where
  pub client : Client
  pub surface : Bytes
  pub framework : Bytes
  pub framework_version : Bytes
  pub session_id : Bytes
  pub process_session : Bytes
  pub cwd : Bytes
  pub has_logger : Bool
  pub other_mcp_servers : List Bytes
  pub hooked : List Bytes
  pub ungoverned : List Bytes
  pub attested : List (Bytes × Bytes)
  pub attest_attempted : List (Bytes × ℕ)
  pub stats : Stats

-- slices.Contains
unfoldable pub contains : List Bytes → Bytes → Bool
contains [] name = false
contains (x ∷ xs) name = same x name || contains xs name

-- dedupe
unfoldable pub dedupe : List Bytes → List Bytes → List Bytes
unfolding contains
dedupe existing [] = existing
dedupe existing (name ∷ names) =
    dedupe
      (if not (is_empty name) && not (contains existing name)
        then existing ++ name ∷ []
        else existing)
      names

unfoldable pub lookup {ℓ} : {A : Type ℓ} → Bytes → List (Bytes × A) → Option A
lookup k [] = none
lookup k ((j, a) ∷ m) = if same j k then some a else lookup k m

-- The options of the package. `with_client` gives a client; `with_logger false` is WithLogger(nil).
pub data GovernorOption : Type 0 where
  with_client : Client → GovernorOption
  with_session_id with_cwd : Bytes → GovernorOption
  with_logger : Bool → GovernorOption
  with_framework : (name version : Bytes) → GovernorOption
  with_other_mcp_servers with_ungoverned : List Bytes → GovernorOption

-- What an option works on: the client is nil until an option sets it.
pub record Draft : Type 0 where
  pub given : Option Client
  pub surface : Bytes
  pub framework : Bytes
  pub framework_version : Bytes
  pub session_id : Bytes
  pub cwd : Bytes
  pub has_logger : Bool
  pub other_mcp_servers : List Bytes
  pub ungoverned : List Bytes

-- The loop of WithFramework: the surface whose framework has this name.
unfoldable pub surface_for : Bytes → Bytes → List (Bytes × Bytes) → Bytes
surface_for name found [] = found
surface_for name found ((surface, framework) ∷ l) =
    surface_for name (if same framework name then surface else found) l

unfoldable pub apply_option : GovernorOption → Draft → Draft
unfolding surface_for
apply_option (with_client c) g = record g { given = some c }
apply_option (with_session_id id) g = record g { session_id = id }
apply_option (with_cwd dir) g = record g { cwd = dir }
apply_option (with_logger logger) g = record g { has_logger = logger }
apply_option (with_framework name v) g = record g {
  framework = name;
  framework_version = v;
  surface = surface_for name surface_custom framework_for_surface;
}
apply_option (with_other_mcp_servers names) g = record g {
  other_mcp_servers = g.other_mcp_servers ++ names;
}
apply_option (with_ungoverned names) g = record g { ungoverned = g.ungoverned ++ names }

unfoldable pub apply_options : List GovernorOption → Draft → Draft
unfolding apply_option
apply_options [] g = g
apply_options (o ∷ os) g = apply_options os (apply_option o g)

abbrev pub new_draft : Draft
new_draft = record {
  given = none;
  surface = surface_custom;
  framework = codes "custom";
  framework_version = [];
  session_id = [];
  cwd = [];
  has_logger = true;
  other_mcp_servers = [];
  ungoverned = [];
}

abbrev pub no_stats : Stats
no_stats = record { admitted = 0; allowed = 0; denied = 0; held = 0; unreachable = 0; routed = 0 }

abbrev client_or : Client → Option Client → Client
client_or default none = default
client_or default (some c) = c

abbrev pub finish : Draft → Client → Bytes → Governor
finish g default random = record {
  client = client_or default g.given;
  surface = g.surface;
  framework = g.framework;
  framework_version = g.framework_version;
  session_id = g.session_id;
  process_session = codes "go-" ++ hex_encode random;
  cwd = g.cwd;
  has_logger = g.has_logger;
  other_mcp_servers = dedupe [] g.other_mcp_servers;
  hooked = [];
  ungoverned = dedupe [] g.ungoverned;
  attested = [];
  attest_attempted = [];
  stats = no_stats;
}

-- New, given the client of admission.New() and sixteen random bytes.
unfoldable pub new_governor : List GovernorOption → Client → (random : Bytes) → Governor
unfolding apply_options dedupe hex_encode
new_governor opts default random = finish (apply_options opts new_draft) default random
