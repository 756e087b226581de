-- ===== src/Govern/Gate.antt =====
-- The gate before a tool (govern/governor.go: Admit; govern/tool.go, govern/caller.go): what an
-- admitted call is, and that no other call reaches the tool.
use mitrity_go.Base.{
  ◌+◌, inr, is_empty, inl, ◌∙◌, subst, List, Bool-cases, true, false, Bytes, Option, ◌≡◌, refl,
  Result, ok, err,
}
use mitrity_go.Std.Value.{Fields}
use mitrity_go.Admission.Types.{Verdict}
use mitrity_go.Admission.Requests.{Request}
use mitrity_go.Admission.Client.Construct.{Client}
use mitrity_go.Admission.Client.Decide.{whole_seconds}
use mitrity_go.Admission.Client.FailClosed.{EdgeAllowed, decide-EdgeAllowed}
use mitrity_go.Admission.World.{World, Exchange}
use mitrity_go.Govern.Admit.{
  cwd_for, request_for, tool_use_id_for, GovernorEnv, State, Context, conclude, judge, admit,
  merge_input, session_for,
}
use mitrity_go.Govern.Denied.{DeniedError}
use mitrity_go.Govern.Keeps.{ensure_attested-Kept, register-Kept_client}

-- An admitted call: the edge allowed this tool with this input, and what runs is that input with the
-- edge's changes.
pub record Permitted (c : Client) (tool : Bytes) (input : Option Fields) (out : Fields)
    (after : List Exchange) : Type 0 where
  pub request : Request
  pub same_tool : request.tool_name ≡ tool
  pub same_input : request.tool_input ≡ input
  pub verdict : Verdict
  pub allowed : EdgeAllowed c request (whole_seconds c.cfg.hold_timeout) verdict after
  pub merged : out ≡ merge_input input verdict.updated_input

-- A refused call: the denial names the tool and carries a verdict that does not allow.
pub record Refused (tool : Bytes) (e : DeniedError) : Type 0 where
  pub named : e.tool ≡ tool
  pub not_allowed : e.verdict.allowed ≡ false

-- What the result of Admit is.
abbrev pub Judged :
    Client → Bytes → Option Fields → Result DeniedError Fields → List Exchange → Type 0
Judged c tool input (ok out) after = Permitted c tool input out after
Judged c tool input (err e) after = Refused tool e

module _ {W : Type 0} (ge : GovernorEnv W) where
  conclude-Judged :
      (c : Client) (tool : Bytes) (input : Option Fields) (req : Request) (s : State W)
      (r : Verdict × World W)
      → req.tool_name ≡ tool
      → req.tool_input ≡ input
      → (r.0.allowed ≡ true → EdgeAllowed c req (whole_seconds c.cfg.hold_timeout) r.0 r.1.sent)
      → Judged c tool input (conclude ge tool input s r).0 (conclude ge tool input s r).1.world.sent
  conclude-Judged c tool input req s (v, w) t i h = elim (Bool-cases v.allowed) [
    | inl e ↦ elim (Bool-cases (is_empty v.routed_to)) [
      | inl r ↦ rw (e, r) (permitted (h e))
      | inr r ↦ rw (e, r) (permitted (h e))
    ]
    | inr e ↦ rw (e) (record { named = refl; not_allowed = refl })
  ]
    where
      permitted :
          EdgeAllowed c req (whole_seconds c.cfg.hold_timeout) v w.sent
          → Permitted c tool input (merge_input input v.updated_input) w.sent
      permitted a = record {
        request = req;
        same_tool = t;
        same_input = i;
        verdict = v;
        allowed = a;
        merged = refl;
      }

  judge-Judged :
      (session tool : Bytes) (input : Option Fields) (ctx : Context) (s : State W)
      → Judged s.governor.client tool input
          (judge ge session tool input ctx s).0
          (judge ge session tool input ctx s).1.world.sent
  judge-Judged session tool input ctx s =
      let (id, w) = tool_use_id_for ge ctx s.world in
      let g = record s.governor {
        stats = record s.governor.stats { admitted = s.governor.stats.admitted + 1 };
      } in
      conclude-Judged s.governor.client tool input _ (record s { governor = g; world = w }) _ refl
        refl
        (decide-EdgeAllowed ge.env s.governor.client
          (request_for ge g session (cwd_for ge g s.world.outside) tool input id) w)

  -- Admit returns an input only when the newest exchange of the governor's client is an allow of
  -- the edge for a request with this tool name and this input, and then returns that input merged
  -- with the verdict's changes; otherwise its denial names the tool and carries a verdict that
  -- does not allow.
  pub admit-Judged :
      (ctx : Context) (tool : Bytes) (input : Option Fields) (s : State W)
      → Judged s.governor.client tool input
          (admit ge ctx tool input s).0
          (admit ge ctx tool input s).1.world.sent
  unfolding admit
  admit-Judged ctx tool input s =
      subst
        (λ c.
          Judged c tool input (admit ge ctx tool input s).0
            (admit ge ctx tool input s).1.world.sent)
        ((ensure_attested-Kept ge _ _).client ∙ (register-Kept_client tool s.governor).0)
        (judge-Judged (session_for s.governor ctx) tool input ctx _)
