-- ===== src/Govern/Guard.antt =====
-- Governed tools and callers (govern/tool.go: Wrap; govern/caller.go: WrapCaller): the inner call runs
-- on admitted input, or it does not run.
use mitrity_go.Base.{Bytes, Option, some, Result, ok, err}
use mitrity_go.Std.Value.{Fields}
use mitrity_go.Admission.Client.Construct.{Client}
use mitrity_go.Govern.Admit.{GovernorEnv, State, Context, admit}
use mitrity_go.Govern.Denied.{DeniedError}
use mitrity_go.Govern.Tool.{
  Tool, Caller, CallError, denied, lift_inner, run_admitted, governed_call, wrap_caller,
}
use mitrity_go.Govern.Gate.{Permitted, Refused, Judged, admit-Judged}

module _ {W S T E : Type 0} where
  -- A call behind an admission that left the governor at `after`: it is refused and the tool's state `s`
  -- stays, or the tool runs once, from `s`, on the input that the edge permitted.
  pub data Guarded (c : Client) (tool : Bytes) (input : Option Fields)
      (run : Option Fields → S → Result E T × S) (s : S) (after : State W)
      : Result (CallError E) T × (S × State W) → Type 0 where
    refused :
        (e : DeniedError)
        → Refused tool e
        → Guarded c tool input run s after (err (denied e), (s, after))
    ran :
        (out : Fields)
        → Permitted c tool input out after.world.sent
        → Guarded c tool input run s after (lift_inner after (run (some out) s))

  run_admitted-Guarded :
      (c : Client) (tool : Bytes) (input : Option Fields) (run : Option Fields → S → Result E T × S)
      (s : S) (r : Result DeniedError Fields × State W)
      → Judged c tool input r.0 r.1.world.sent
      → Guarded c tool input run s r.1 (run_admitted run s r)
  run_admitted-Guarded c tool input run s (ok out, g) h = ran out h
  run_admitted-Guarded c tool input run s (err e, g) h = refused e h

  module _ (ge : GovernorEnv W) (ctx : Context) (input : Option Fields) (s : S) (g : State W) where
    -- A call of a governed tool either is refused, with a denial that names the tool and does not
    -- allow, and leaves the tool's own state as it was; or it runs the inner tool once, from that
    -- state, on the input that an allow of the edge for this tool and this input permits, merged
    -- with the edge's changes.
    pub governed_call-Guarded :
        (tool : Tool S T E)
        → Guarded g.governor.client tool.name input
            (tool.call ctx)
            s
            (admit ge ctx tool.name input g).1
            (governed_call ge tool ctx input (s, g))
    unfolding governed_call
    governed_call-Guarded tool =
        run_admitted-Guarded g.governor.client tool.name input (tool.call ctx) s _
          (admit-Judged ge ctx tool.name input g)

    -- A call through a wrapped caller either is refused, with a denial that names the tool and
    -- does not allow, and leaves the inner caller's state as it was; or it makes the inner call
    -- once, from that state, with the arguments that an allow of the edge for this tool and these
    -- arguments permits, merged with the edge's changes.
    pub wrap_caller-Guarded :
        (caller : Caller S T E) (tool : Bytes)
        → Guarded g.governor.client tool input
            (caller ctx tool)
            s
            (admit ge ctx tool input g).1
            (wrap_caller ge caller ctx tool input (s, g))
    unfolding wrap_caller
    wrap_caller-Guarded caller tool =
        run_admitted-Guarded g.governor.client tool input (caller ctx tool) s _
          (admit-Judged ge ctx tool input g)
