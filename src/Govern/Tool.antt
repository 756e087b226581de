-- ===== src/Govern/Tool.antt =====
-- govern/tool.go and govern/caller.go: tools and callers whose every call is admitted first.
use mitrity_go.Base.{List, [], ◌∷◌, Option, some, Bytes, Result, ok, err}
use mitrity_go.Std.Value.{Fields}
use mitrity_go.Govern.Governor.{declare}
use mitrity_go.Govern.Admit.{GovernorEnv, State, Context, admit}
use mitrity_go.Govern.Denied.{DeniedError}

-- What a governed call returns besides the inner result: the denial, or the error of the inner call.
pub data CallError (E : Type 0) : Type 0 where
  denied : DeniedError → CallError E
  inner : E → CallError E

-- A tool over a state `S` of its own: its name, and its call, which returns T or an error.
pub record Tool (S T E : Type 0) : Type 0 where
  pub name : Bytes
  pub call : Context → Option Fields → S → Result E T × S

-- Func
unfoldable pub func :
    {S T E : Type 0} → Bytes → (Context → Option Fields → S → Result E T × S) → Tool S T E
func name fn = record { name = name; call = fn }

-- A Caller: the shape of an MCP client.
abbrev pub Caller : Type 0 → Type 0 → Type 0 → Type 0
Caller S R E = Context → Bytes → Option Fields → S → Result E R × S

-- The state of a governed call is the tool's own, and the governor's.
module _ {W S T E : Type 0} where
  abbrev pub lift_inner : State W → Result E T × S → Result (CallError E) T × (S × State W)
  lift_inner g (err e, s) = (err (inner e), (s, g))
  lift_inner g (ok t, s) = (ok t, (s, g))

  -- The call behind the admission: the inner tool runs the admitted input, or it does not run.
  abbrev pub run_admitted :
      (Option Fields → S → Result E T × S)
      → S
      → Result DeniedError Fields × State W
      → Result (CallError E) T × (S × State W)
  run_admitted run s (err e, g) = (err (denied e), (s, g))
  run_admitted run s (ok input, g) = lift_inner g (run (some input) s)

module _ {W S T E : Type 0} (ge : GovernorEnv W) where
  -- governed.Call
  unfoldable pub governed_call :
      Tool S T E → Context → Option Fields → S × State W → Result (CallError E) T × (S × State W)
  governed_call tool ctx input (s, g) =
      run_admitted (tool.call ctx) s (admit ge ctx tool.name input g)

  -- Wrap: the name is declared, and the call is governed.
  unfoldable pub wrap : Tool S T E → State W → Tool (S × State W) T (CallError E) × State W
  wrap tool g = (
    record { name = tool.name; call = governed_call tool },
    record g { governor = declare (tool.name ∷ []) g.governor },
  )

  -- WrapFunc
  unfoldable pub wrap_func :
      Bytes
      → (Context → Option Fields → S → Result E T × S)
      → State W
      → Tool (S × State W) T (CallError E) × State W
  unfolding func wrap
  wrap_func name fn g = wrap (func name fn) g

  -- WrapAll
  unfoldable pub wrap_all :
      List (Tool S T E) → State W → List (Tool (S × State W) T (CallError E)) × State W
  wrap_all [] g = ([], g)
  wrap_all (tool ∷ tools) g =
      let (wrapped, g') = wrap tool g in
      let (rest, g'') = wrap_all tools g' in (wrapped ∷ rest, g'')

  -- WrapCaller: governedCaller.Call
  unfoldable pub wrap_caller : Caller S T E → Caller (S × State W) T (CallError E)
  wrap_caller caller ctx tool args (s, g) =
      run_admitted (caller ctx tool) s (admit ge ctx tool args g)
