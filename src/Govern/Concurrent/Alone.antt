-- ===== src/Govern/Concurrent/Alone.antt =====
-- A call that no other goroutine interrupts (govern/governor.go: Admit).
use mitrity_go.Govern.Concurrent.System.{System, Goroutine, Reaches, next, moving}
use mitrity_go.Base.{
  List, ◌++◌, ◌∷◌, subst, ℕ, zero, suc, ◌≡◌, refl, ap, ◌∙◌, Bool, true, false, Option, none, some,
  Bytes, Result, arith,
}
use mitrity_go.Std.Value.{Fields}
use mitrity_go.Admission.Errors.{GoError}
use mitrity_go.Admission.Types.{Verdict, Attestation}
use mitrity_go.Admission.World.{World}
use mitrity_go.Admission.Client.Decide.{attest, decide}
use mitrity_go.Govern.Governor.{attestation, register}
use mitrity_go.Govern.State.{Governor}
use mitrity_go.Govern.Admit.{
  cwd_for, GovernorEnv, State, conclude, judge, admit, attest_if, ensure_attested, after_attest,
  session_for, count_verdict,
}
use mitrity_go.Govern.Denied.{DeniedError}
use mitrity_go.Govern.Concurrent.Call.{
  Call, Point, advance, advance_times, returned, answered, attested, attest_next, attest_sent,
  entered,
}

module _ {W : Type 0} (ge : GovernorEnv W) (call : Call) where
  abbrev Answer : Type 0
  Answer = Result DeniedError Fields × State W

  abbrev ended : Answer → Point × State W
  ended (r, s) = (returned r, s)

  advance_times_returned : (n : ℕ) (a : Answer) → advance_times ge call n (ended a) ≡ ended a
  unfolding advance_times advance
  advance_times_returned zero a = refl
  advance_times_returned (suc n) a = advance_times_returned n a

  -- Steps beyond the last one change nothing.
  advance_times_enough :
      (m : ℕ) (p : Point × State W) (a : Answer) → p ≡ ended a → advance_times ge call m p ≡ ended a
  advance_times_enough m p a h = ap (advance_times ge call m) h ∙ advance_times_returned m a

  conclude_alone :
      (v : Verdict) (s : State W)
      → advance_times ge call 4 (answered v, s)
        ≡ ended (conclude ge call.tool call.input s (v, s.world))
  unfolding advance_times advance count_verdict
  conclude_alone v s = ground arith

  judge_alone :
      (session : Bytes) (s : State W)
      → advance_times ge call 7 (attested session, s)
        ≡ ended (judge ge session call.tool call.input call.ctx s)
  unfolding advance_times advance cwd_for decide
  judge_alone session s = conclude_alone _ _

  after_attest_alone :
      (session : Bytes) (att : Attestation) (s : State W) (r : Option GoError × World W)
      → advance_times ge call 8 (attest_sent session att.config_hash s r)
        ≡ ended (
            judge ge session call.tool call.input call.ctx
              (after_attest ge session att.config_hash s r))
  unfolding advance_times advance
  after_attest_alone session att s (some e, w) = advance_times_enough 1 _ _ (judge_alone session _)
  after_attest_alone session att s (none, w) = judge_alone session _

  attest_if_alone :
      (session : Bytes) (att : Attestation) (s : State W) (r : Bool × Governor)
      → advance_times ge call 9 (attest_next session att s r)
        ≡ ended (judge ge session call.tool call.input call.ctx (attest_if ge session att s r))
  unfolding advance_times advance
  attest_if_alone session att s (false, g) = advance_times_enough 2 _ _ (judge_alone session _)
  attest_if_alone session att s (true, g) =
      after_attest_alone session att (record s { governor = g })
        (attest ge.env g.client att s.world)

  -- Twelve steps of a call that no other goroutine interrupts end with the result and the state
  -- of Admit as one function.
  advance_times-admit :
      (s : State W)
      → advance_times ge call 12 (entered, s) ≡ (
        returned (admit ge call.ctx call.tool call.input s).0,
        (admit ge call.ctx call.tool call.input s).1,
      )
  unfolding advance_times advance admit ensure_attested
  advance_times-admit s =
      let t = record s { governor = (register call.tool s.governor).1 } in
      attest_if_alone (session_for s.governor call.ctx) (attestation t.governor) t _

module _ {W : Type 0} (ge : GovernorEnv W) (first : System W) (before after : List Goroutine)
    (call : Call) where
  abbrev between : Point × State W → System W
  between (p, s) = record {
    shared = s;
    calls = before ++ record { call = call; point = p } ∷ after;
  }

  Reaches-advance_times :
      (n : ℕ) (p : Point × State W)
      → Reaches ge first (between p)
      → Reaches ge first (between (advance_times ge call n p))
  unfolding advance_times
  Reaches-advance_times zero p h = h
  Reaches-advance_times (suc n) (p, s) h =
      Reaches-advance_times n (advance ge call p s) (next h (moving before after call p s))

  -- Among the interleavings is the one where a call that has just entered runs to its end.
  pub Reaches-admit :
      (s : State W)
      → Reaches ge first (between (entered, s))
      → Reaches ge first (
          between (
            returned (admit ge call.ctx call.tool call.input s).0,
            (admit ge call.ctx call.tool call.input s).1,
          ))
  Reaches-admit s h =
      subst (λ p. Reaches ge first (between p)) (advance_times-admit ge call s)
        (Reaches-advance_times 12 (entered, s) h)
