-- ===== src/Govern/Counters.antt =====
-- The governor's counters (govern/governor.go: Admit, Stats).
use mitrity_go.Base.{
  ◌<◌, err, ok, ◌∙◌, sym, subst, ◌+◌, ◌≤◌, ◌≡◌, refl, Option, Bytes, arith, List, Result,
}
use mitrity_go.Std.Value.{Fields}
use mitrity_go.Admission.Types.{Verdict}
use mitrity_go.Admission.World.{World}
use mitrity_go.Admission.Client.Decide.{decide}
use mitrity_go.Admission.Client.Construct.{Client}
use mitrity_go.Govern.State.{GovernorOption, Stats, new_governor}
use mitrity_go.Govern.Keeps.{ensure_attested-Kept, register-Kept_client}
use mitrity_go.Govern.Admit.{
  request_for, GovernorEnv, State, Context, count_verdict, conclude, judge, admit, session_for,
  tool_use_id_for, cwd_for,
}
use mitrity_go.Govern.Denied.{DeniedError}

-- Each admitted call has an outcome, and is Counted once by it, or twice if waiting on a hold
-- failed; a routed call is an allowed one.
pub record Balanced (s : Stats) : Type 0 where
  pub once : s.allowed + s.denied + s.unreachable ≤ s.admitted
  pub covered : s.admitted ≤ s.allowed + s.denied + s.unreachable + s.held
  pub routed_allowed : s.routed ≤ s.allowed

pub Balanced-new_governor :
    (opts : List GovernorOption) (c : Client) (random : Bytes)
    → Balanced (new_governor opts c random).stats
unfolding new_governor
Balanced-new_governor opts c random = omega arith

-- The counters after a call with this result.
abbrev pub Counted : Result DeniedError Fields → Stats → Stats → Type 0
Counted (ok out) n n' = (n'.admitted ≡ n.admitted + 1) × (n'.allowed ≡ n.allowed + 1)
Counted (err e) n n' =
    (n'.admitted ≡ n.admitted + 1)
    × (n'.allowed ≡ n.allowed)
    × (n'.routed ≡ n.routed)
    × (n.denied + n.held + n.unreachable < n'.denied + n'.held + n'.unreachable)

module _ {W : Type 0} (ge : GovernorEnv W) where
  conclude-Counted :
      (tool : Bytes) (input : Option Fields) (s : State W) (v : Verdict) (w : World W) (n : Stats)
      → s.governor.stats ≡ record n { admitted = n.admitted + 1 }
      → Counted
          (conclude ge tool input s (v, w)).0
          n
          (conclude ge tool input s (v, w)).1.governor.stats
  unfolding count_verdict
  conclude-Counted tool input s v w n e = ground arith

  conclude-Balanced :
      (tool : Bytes) (input : Option Fields) (s : State W) (v : Verdict) (w : World W) (n : Stats)
      → Balanced n
      → s.governor.stats ≡ record n { admitted = n.admitted + 1 }
      → Balanced (conclude ge tool input s (v, w)).1.governor.stats
  unfolding count_verdict
  conclude-Balanced tool input s v w n h e = ground arith

  judge-Balanced :
      (session tool : Bytes) (input : Option Fields) (ctx : Context) (s : State W)
      → Balanced s.governor.stats
      → Balanced (judge ge session tool input ctx s).1.governor.stats
  judge-Balanced session tool input ctx s h =
      let (id, w) = tool_use_id_for ge ctx s.world in
      let g = record s.governor {
        stats = record s.governor.stats { admitted = s.governor.stats.admitted + 1 };
      } in
      let r =
        decide ge.env g.client
          (request_for ge g session (cwd_for ge g s.world.outside) tool input id) w in
      conclude-Balanced tool input (record s { governor = g; world = w }) r.0 r.1 s.governor.stats h
        refl

  pub admit-Balanced :
      (ctx : Context) (tool : Bytes) (input : Option Fields) (s : State W)
      → Balanced s.governor.stats
      → Balanced (admit ge ctx tool input s).1.governor.stats
  unfolding admit
  admit-Balanced ctx tool input s h = judge-Balanced (session_for s.governor ctx) tool input ctx _ (
      subst Balanced
        (sym ((ensure_attested-Kept ge _ _).stats ∙ (register-Kept_client tool s.governor).1)) h)

  judge-Counted :
      (session tool : Bytes) (input : Option Fields) (ctx : Context) (s : State W)
      → Counted
          (judge ge session tool input ctx s).0
          s.governor.stats
          (judge ge session tool input ctx s).1.governor.stats
  judge-Counted session tool input ctx s =
      let (id, w) = tool_use_id_for ge ctx s.world in
      let g = record s.governor {
        stats = record s.governor.stats { admitted = s.governor.stats.admitted + 1 };
      } in
      let r =
        decide ge.env g.client
          (request_for ge g session (cwd_for ge g s.world.outside) tool input id) w in
      conclude-Counted tool input (record s { governor = g; world = w }) r.0 r.1 s.governor.stats
        refl

  -- Every call of Admit counts one admitted call; one that returns an input counts one allowed
  -- call, and one that returns a denial counts no allowed and no routed call and at least one
  -- denied, held or unreachable call.
  pub admit-Counted :
      (ctx : Context) (tool : Bytes) (input : Option Fields) (s : State W)
      → Counted
          (admit ge ctx tool input s).0
          s.governor.stats
          (admit ge ctx tool input s).1.governor.stats
  unfolding admit
  admit-Counted ctx tool input s =
      subst
        (λ n. Counted (admit ge ctx tool input s).0 n (admit ge ctx tool input s).1.governor.stats)
        ((ensure_attested-Kept ge _ _).stats ∙ (register-Kept_client tool s.governor).1)
        (judge-Counted (session_for s.governor ctx) tool input ctx _)
