-- ===== src/Govern/Admit.antt =====
-- govern/governor.go: Admit, ensureAttested, mergeInput and the values of the context; govern/errors.go.
use mitrity_go.Base.{
  ℕ, ◌+◌, Bool, true, false, not, List, [], ◌∷◌, ◌++◌, Option, none, some, if◌then◌else◌, Bytes,
  codes, is_empty, Result, ok, err,
}
use mitrity_go.Std.Strings.{hex_encode}
use mitrity_go.Std.Value.{Fields, end, copy}
use mitrity_go.Admission.Errors.{GoError, error_text}
use mitrity_go.Admission.Types.{Verdict, Attestation, is_unreachable}
use mitrity_go.Admission.Requests.{Request, object_or_empty}
use mitrity_go.Admission.World.{Env, World}
use mitrity_go.Admission.Client.Decide.{attest, decide}
use mitrity_go.Govern.Denied.{DeniedError}
use mitrity_go.Govern.Governor.{register, attestation, should_attest, mark_attested}
use mitrity_go.Govern.State.{Governor, Stats}

-- A context, by the values that this package stores in it, the innermost first.
pub data ContextKey : Type 0 where
  session_key tool_use_key : ContextKey

abbrev pub Context : Type 0
Context = List (ContextKey × Bytes)

abbrev same_key : ContextKey → ContextKey → Bool
same_key session_key session_key = true
same_key tool_use_key tool_use_key = true
same_key _ _ = false

-- ctx.Value(key).(string), empty where there is none.
unfoldable pub context_value : ContextKey → Context → Bytes
context_value k [] = []
context_value k ((j, v) ∷ ctx) = if same_key j k then v else context_value k ctx

-- ContextWithSessionID, ContextWithToolUseID and SessionIDFrom
abbrev pub context_with_session_id : Context → Bytes → Context
context_with_session_id ctx id = (session_key, id) ∷ ctx

abbrev pub context_with_tool_use_id : Context → Bytes → Context
context_with_tool_use_id ctx id = (tool_use_key, id) ∷ ctx

unfoldable pub session_id_from : Context → Bytes
session_id_from ctx = context_value session_key ctx

-- A line of the governor's logger.
pub data GovernorLine : Type 0 where
  attest_failed : Bytes → GovernorLine
  routed_call : (tool routed_to : Bytes) → GovernorLine

-- What the governor asks of its surroundings besides the client's: os.Getwd (none for an error) and
-- crypto/rand.
pub record GovernorEnv (W : Type 0) : Type 0 where
  pub env : Env W
  pub getwd : W → Option Bytes
  pub random : ℕ → W → Bytes × W

pub record State (W : Type 0) : Type 0 where
  pub governor : Governor
  pub world : World W
  pub lines : List GovernorLine

-- mergeInput; a nil map is read as an empty one.
unfoldable pub merge_input : Option Fields → Option Fields → Fields
unfolding copy
merge_input input updated = copy (copy end (object_or_empty input)) (object_or_empty updated)

-- sessionFor
unfoldable pub session_for : Governor → Context → Bytes
session_for g ctx =
    if not (is_empty g.session_id)
    then g.session_id
    else if not (is_empty (session_id_from ctx))
    then session_id_from ctx
    else g.process_session

-- The counters behind a verdict, in the order of the switch of Admit.
unfoldable pub count_verdict : Verdict → Stats → Stats
count_verdict v s =
    if v.allowed
    then record s { allowed = s.allowed + 1 }
    else if is_unreachable v
    then record s { unreachable = s.unreachable + 1; held = if v.held then s.held + 1 else s.held }
    else if v.held
    then record s { held = s.held + 1 }
    else record s { denied = s.denied + 1 }

abbrev pub with_stats : Governor → Stats → Governor
with_stats g s = record g { stats = s }

-- `if g.logger != nil { … }`
abbrev pub log_line : Governor → GovernorLine → List GovernorLine → List GovernorLine
log_line g line lines = if g.has_logger then line ∷ lines else lines

module _ {W : Type 0} (ge : GovernorEnv W) where
  -- cwdFor
  unfoldable pub cwd_for : Governor → W → Bytes
  cwd_for g w =
      if not (is_empty g.cwd) then g.cwd else elim (ge.getwd w) [ none ↦ [] | some dir ↦ dir ]

  -- toolUseIDFor
  unfoldable pub tool_use_id_for : Context → World W → Bytes × World W
  tool_use_id_for ctx w =
      if not (is_empty (context_value tool_use_key ctx))
      then (context_value tool_use_key ctx, w)
      else let (raw, o) = ge.random 8 w.outside in
        (codes "tu_" ++ hex_encode raw, record w { outside = o })

  -- ensureAttested behind the answer of Attest.
  abbrev pub after_attest : (session hash : Bytes) → State W → Option GoError × World W → State W
  after_attest session hash s (some e, w) = record s {
    world = w;
    lines = log_line s.governor (attest_failed (error_text e)) s.lines;
  }
  after_attest session hash s (none, w) = record s {
    governor = mark_attested session hash s.governor;
    world = w;
  }

  abbrev pub attest_if : (session : Bytes) → Attestation → State W → Bool × Governor → State W
  attest_if session att s (false, g) = record s { governor = g }
  attest_if session att s (true, g) =
      after_attest session att.config_hash (record s { governor = g })
        (attest ge.env g.client att s.world)

  -- ensureAttested
  unfoldable pub ensure_attested : (session : Bytes) → State W → State W
  ensure_attested session s =
      let att = attestation s.governor in
      attest_if session att s
        (should_attest session att.config_hash (ge.env.now s.world.outside) s.governor)

  -- The request of Admit.
  abbrev pub request_for :
      Governor → (session cwd : Bytes) → (tool : Bytes) → Option Fields → (id : Bytes) → Request
  request_for g session cwd tool input id = record {
    tool_name = tool;
    tool_input = input;
    surface = g.surface;
    framework_version = g.framework_version;
    session_id = session;
    cwd = cwd;
    tool_use_id = id;
    hold_timeout_seconds = none;
  }

  abbrev count_admitted : Stats → Stats
  count_admitted s = record s { admitted = s.admitted + 1 }

  -- What Admit does with the verdict.
  abbrev pub conclude :
      (tool : Bytes)
      → Option Fields
      → State W
      → Verdict × World W
      → Result DeniedError Fields × State W
  conclude tool input s (v, w) =
      let g = with_stats s.governor (count_verdict v s.governor.stats) in
      let counted = record s { governor = g; world = w } in
      if not v.allowed
      then (err (record { tool = tool; verdict = v }), counted)
      else if is_empty v.routed_to
      then (ok (merge_input input v.updated_input), counted)
      else (
        ok (merge_input input v.updated_input),
        record counted {
          governor = with_stats g (record g.stats { routed = g.stats.routed + 1 });
          lines = log_line g (routed_call tool v.routed_to) s.lines;
        },
      )

  -- Admit behind the attestation.
  abbrev pub judge :
      (session tool : Bytes)
      → Option Fields
      → Context
      → State W
      → Result DeniedError Fields × State W
  judge session tool input ctx s =
      let (id, w) = tool_use_id_for ctx s.world in
      let g = with_stats s.governor (count_admitted s.governor.stats) in
      let req = request_for g session (cwd_for g s.world.outside) tool input id in
      conclude tool input (record s { governor = g; world = w }) (decide ge.env g.client req w)

  -- Admit
  unfoldable pub admit :
      Context → (tool : Bytes) → Option Fields → State W → Result DeniedError Fields × State W
  admit ctx tool input s =
      let session = session_for s.governor ctx in
      let registered = record s { governor = (register tool s.governor).1 } in
      judge session tool input ctx (ensure_attested session registered)
