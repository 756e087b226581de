-- ===== src/Govern/Governor.antt =====
-- govern/governor.go: the tool inventory, the attestation and its throttle.
use mitrity_go.Base.{
  ℕ, ◌-◌, Bool, true, false, not, ◌&&◌, List, [], ◌∷◌, ◌++◌, none, some, ltb, if◌then◌else◌, Bytes,
  codes, same, is_empty, is_some, Result, ok, err,
}
use mitrity_go.Std.Sort.{sort, less_bytes}
use mitrity_go.Std.Value.{Value, nil, str, strings, object, end, field}
use mitrity_go.Admission.Types.{Attestation}
use mitrity_go.Admission.Requests.{adapter_name}
use mitrity_go.Admission.Canonical.{CanonicalError, config_hash}
use mitrity_go.Admission.Client.Construct.{Client}
use mitrity_go.Govern.State.{
  Governor, Stats, attest_retry_interval, contains, dedupe, lookup, version,
}

-- Client
unfoldable pub governor_client : Governor → Client
governor_client g = g.client

-- Governor.Stats: a snapshot.
unfoldable pub governor_stats : Governor → Stats
governor_stats g = g.stats

-- HookedTools
unfoldable pub hooked_tools : Governor → List Bytes
hooked_tools g = sort less_bytes g.hooked

-- Declare
unfoldable pub declare : List Bytes → Governor → Governor
declare names g = record g { hooked = dedupe g.hooked names }

-- register: whether the name was new.
unfoldable pub register : Bytes → Governor → Bool × Governor
register name g =
    if contains g.hooked name
    then (false, g)
    else (true, record g { hooked = g.hooked ++ name ∷ [] })

-- nullableString
unfoldable pub nullable_string : Bytes → Value
nullable_string s = if is_empty s then nil else str s

-- The document that Attestation hashes.
unfoldable pub hashed_document : Governor → Value
hashed_document g = object (
    field (codes "adapter") (str adapter_name) (
      field (codes "adapter_version") (str version) (
        field (codes "framework") (str g.framework) (
          field (codes "framework_version") (nullable_string g.framework_version) (
            field (codes "hooked_tools") (strings (hooked_tools g)) (
              field (codes "unhooked_exec_tools") (strings (sort less_bytes g.ungoverned)) (
                field (codes "disallowed_tools") (strings []) (
                  field (codes "other_mcp_servers") (strings (sort less_bytes g.other_mcp_servers))
                    end))))))))

-- `hash, _ := …`: no hash where there is none.
abbrev pub hash_or_empty : Result CanonicalError Bytes → Bytes
hash_or_empty (err e) = []
hash_or_empty (ok h) = h

-- Attestation
unfoldable pub attestation : Governor → Attestation
attestation g = record {
  framework = g.framework;
  framework_version = g.framework_version;
  adapter = adapter_name;
  adapter_version = version;
  hooked_tools = hooked_tools g;
  unhooked_exec_tools = sort less_bytes g.ungoverned;
  disallowed_tools = [];
  other_mcp_servers = sort less_bytes g.other_mcp_servers;
  permission_mode = [];
  sandbox = none;
  config_hash = hash_or_empty (config_hash (hashed_document g));
}

-- m[k] of a map of strings: the empty one for a missing key.
unfoldable pub entry : Bytes → List (Bytes × Bytes) → Bytes
unfolding lookup
entry k m = elim (lookup k m) [ none ↦ [] | some v ↦ v ]

-- A failed attempt that is too recent to be made again.
unfoldable pub throttled : Governor → Bytes → ℕ → Bool
unfolding lookup
throttled g session now = elim (lookup session g.attest_attempted) [
  | none ↦ false
  | some last ↦ not (is_some (lookup session g.attested)) && ltb (now - last) attest_retry_interval
]

-- shouldAttest
unfoldable pub should_attest : (session hash : Bytes) → (now : ℕ) → Governor → Bool × Governor
should_attest session hash now g =
    if same (entry session g.attested) hash
    then (false, g)
    else if throttled g session now
    then (false, g)
    else (true, record g { attest_attempted = (session, now) ∷ g.attest_attempted })

-- What ensureAttested stores of an attestation that was received.
unfoldable pub mark_attested : (session hash : Bytes) → Governor → Governor
mark_attested session hash g = record g { attested = (session, hash) ∷ g.attested }
