-- ===== src/Govern/Concurrent/Later.antt =====
-- How the shared state changes under a call (govern/governor.go: Admit on many goroutines).
use mitrity_go.Base.{
  ◌≡◌, refl, sym, subst, Bool, true, false, not, Bytes, Option, none, some, arith, is_empty,
  Bool-cases, inl, inr,
}
use mitrity_go.Admission.Errors.{GoError}
use mitrity_go.Admission.Types.{Attestation}
use mitrity_go.Admission.World.{World}
use mitrity_go.Admission.Client.Sent.{Extends, Extends-refl, attest-Extends, decide-Extends}
use mitrity_go.Govern.Governor.{should_attest, mark_attested}
use mitrity_go.Govern.State.{Governor}
use mitrity_go.Govern.Admit.{
  Context, context_value, tool_use_key, tool_use_id_for, GovernorEnv, State,
}
use mitrity_go.Govern.Keeps.{register-Kept_client, should_attest-Kept}
use mitrity_go.Govern.Reached.{register-keeps}
use mitrity_go.Govern.Concurrent.Call.{
  Call, Point, entered, registered, attesting, due, received, attested, prepared, asking, answered,
  missed, counted, routed, returned, advance, attest_next, attest_sent,
}
use mitrity_go.Govern.Concurrent.Backed.{Later, Later-refl, Later-of_eq}

module _ {W : Type 0} (ge : GovernorEnv W) (call : Call) where
  attest_next_lem :
      (session : Bytes) (att : Attestation) (s : State W) (r : Bool × Governor)
      → (attest_next session att s r).1 ≡ record s { governor = r.1 }
  attest_next_lem session att s (false, g) = refl
  attest_next_lem session att s (true, g) = refl

  attest_sent-Later :
      (session hash : Bytes) (s : State W) (r : Option GoError × World W)
      → Extends s.world.sent r.1.sent
      → Later s (attest_sent session hash s r).1
  attest_sent-Later session hash s (some e, w) h = record {
    client = refl;
    tools = λ name k. k;
    sent = h;
  }
  attest_sent-Later session hash s (none, w) h = record {
    client = refl;
    tools = λ name k. k;
    sent = h;
  }

  tool_use_id_for-sent : (ctx : Context) (w : World W) → (tool_use_id_for ge ctx w).1.sent ≡ w.sent
  unfolding tool_use_id_for
  tool_use_id_for-sent ctx w = elim (Bool-cases (not (is_empty (context_value tool_use_key ctx)))) [
    | inl e ↦ simp (e) refl
    | inr e ↦ simp (e) refl
  ]

  pub advance-Later : (p : Point) (s : State W) → Later s (advance ge call p s).1
  unfolding advance mark_attested
  advance-Later entered s = record {
    client = (register-Kept_client call.tool s.governor).0;
    tools = register-keeps call.tool s.governor;
    sent = Extends-refl s.world.sent;
  }
  advance-Later (registered session) s = Later-refl s
  advance-Later (attesting session att) s =
      let kept =
        should_attest-Kept session att.config_hash (ge.env.now s.world.outside) s.governor in
      let r = should_attest session att.config_hash (ge.env.now s.world.outside) s.governor in
      subst (Later s) (sym (attest_next_lem session att s r))
        (Later-of_eq s (record s { governor = r.1 }) kept.client kept.hooked refl)
  advance-Later (due session att) s =
      attest_sent-Later session att.config_hash s _
        (attest-Extends ge.env s.governor.client att s.world)
  advance-Later (received session hash) s = Later-of_eq _ _ refl refl refl
  advance-Later (attested session) s =
      Later-of_eq _ _ refl refl (tool_use_id_for-sent call.ctx s.world)
  advance-Later (prepared req) s = Later-of_eq _ _ refl refl refl
  advance-Later (asking req) s = record {
    client = refl;
    tools = λ name k. k;
    sent = decide-Extends ge.env s.governor.client req s.world;
  }
  advance-Later (answered v) s = Later-of_eq _ _ (ground arith) (ground arith) (ground arith)
  advance-Later (missed v) s = Later-of_eq _ _ (ground arith) (ground arith) (ground arith)
  advance-Later (counted v) s = Later-of_eq _ _ (ground arith) (ground arith) (ground arith)
  advance-Later (routed v) s = Later-of_eq _ _ refl refl refl
  advance-Later (returned r) s = Later-refl s
