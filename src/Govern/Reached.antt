-- ===== src/Govern/Reached.antt =====
-- The states that a governor goes through (govern/governor.go), as steps: admissions, declarations
-- (Wrap, WrapAll, Declare) and what happens outside between them.
use mitrity_go.Base.{
  same_refl, true, Bytes, List, [], Option, ◌≡◌, refl, sym, subst, ◌∙◌, arith, Bool-cases, inl, inr,
}
use mitrity_go.Std.Value.{Fields}
use mitrity_go.Admission.Types.{Verdict}
use mitrity_go.Admission.Client.Construct.{Client}
use mitrity_go.Admission.World.{World}
use mitrity_go.Govern.Governor.{declare, register, attestation, hooked_tools}
use mitrity_go.Govern.State.{Governor, GovernorOption, contains, new_governor}
use mitrity_go.Govern.Admit.{session_for, GovernorEnv, State, Context, conclude, judge, admit}
use mitrity_go.Govern.Keeps.{ensure_attested-Kept, register-Kept_client}
use mitrity_go.Govern.Counters.{Balanced, Balanced-new_governor, admit-Balanced}
use mitrity_go.Govern.Inventory.{
  contains-dedupe, append-IsUnique, contains-snoc, IsUnique, dedupe-IsUnique, contains-sort,
}

-- What one step keeps: the client, the balance of the counters, a list of tools without repetition,
-- and every tool of that list.
pub record Grows (g g' : Governor) : Type 0 where
  pub client : g'.client ≡ g.client
  pub balanced : Balanced g.stats → Balanced g'.stats
  pub unique : IsUnique g.hooked → IsUnique g'.hooked
  pub keeps_tools : (name : Bytes) → contains g.hooked name ≡ true → contains g'.hooked name ≡ true

Grows-refl : (g : Governor) → Grows g g
Grows-refl g = record {
  client = refl;
  balanced = λ h. h;
  unique = λ h. h;
  keeps_tools = λ name h. h;
}

Grows-trans : (f g h : Governor) → Grows f g → Grows g h → Grows f h
Grows-trans f g h a b = record {
  client = b.client ∙ a.client;
  balanced = λ x. b.balanced (a.balanced x);
  unique = λ x. b.unique (a.unique x);
  keeps_tools = λ name x. b.keeps_tools name (a.keeps_tools name x);
}

declare-Grows : (names : List Bytes) (g : Governor) → Grows g (declare names g)
unfolding declare
declare-Grows names g = record {
  client = refl;
  balanced = λ h. h;
  unique = dedupe-IsUnique names g.hooked;
  keeps_tools = λ name h. contains-dedupe g.hooked names name ∙ rw (h) refl;
}

register-IsUnique :
    (tool : Bytes) (g : Governor) → IsUnique g.hooked → IsUnique (register tool g).1.hooked
unfolding register
register-IsUnique tool g h = elim (Bool-cases (contains g.hooked tool)) [
  | inl e ↦ rw (e) h
  | inr e ↦ rw (e) (append-IsUnique g.hooked tool h e)
]

pub register-contains :
    (tool : Bytes) (g : Governor) → contains (register tool g).1.hooked tool ≡ true
unfolding register
register-contains tool g = elim (Bool-cases (contains g.hooked tool)) [
  | inl e ↦ rw (e) e
  | inr e ↦ rw (e) (contains-snoc g.hooked tool tool ∙ ground (arith, same_refl tool))
]

pub register-keeps :
    (tool : Bytes) (g : Governor) (name : Bytes)
    → contains g.hooked name ≡ true
    → contains (register tool g).1.hooked name ≡ true
unfolding register
register-keeps tool g name h = elim (Bool-cases (contains g.hooked tool)) [
  | inl e ↦ rw (e) h
  | inr e ↦ rw (e) (contains-snoc g.hooked tool name ∙ rw (h) refl)
]

module _ {W : Type 0} (ge : GovernorEnv W) where
  conclude-hooked :
      (tool : Bytes) (input : Option Fields) (s : State W) (r : Verdict × World W)
      → ((conclude ge tool input s r).1.governor.hooked ≡ s.governor.hooked)
        × ((conclude ge tool input s r).1.governor.client ≡ s.governor.client)
  conclude-hooked tool input s r = ground arith

  judge-hooked :
      (session tool : Bytes) (input : Option Fields) (ctx : Context) (s : State W)
      → ((judge ge session tool input ctx s).1.governor.hooked ≡ s.governor.hooked)
        × ((judge ge session tool input ctx s).1.governor.client ≡ s.governor.client)
  judge-hooked session tool input ctx s = ground arith

  pub admit-hooked :
      (ctx : Context) (tool : Bytes) (input : Option Fields) (s : State W)
      → ((admit ge ctx tool input s).1.governor.hooked ≡ (register tool s.governor).1.hooked)
        × ((admit ge ctx tool input s).1.governor.client ≡ s.governor.client)
  unfolding admit
  admit-hooked ctx tool input s =
      let kept = ensure_attested-Kept ge _ (record s { governor = (register tool s.governor).1 }) in
      let (hooked, client) = judge-hooked (session_for s.governor ctx) tool input ctx _ in
      (hooked ∙ kept.hooked, client ∙ kept.client ∙ (register-Kept_client tool s.governor).0)

  -- One thing that happens to a governor: a call is admitted, names are declared, or the rest of the
  -- world moves on.
  pub data Step : State W → State W → Type 0 where
    admitting :
        (ctx : Context) (tool : Bytes) (input : Option Fields) (s : State W)
        → Step s (admit ge ctx tool input s).1
    declaring :
        (names : List Bytes) (s : State W)
        → Step s (record s { governor = declare names s.governor })
    elapsing : (o : W) (s : State W) → Step s (record s { world = record s.world { outside = o } })

  pub data Steps (s : State W) : State W → Type 0 where
    still : Steps s s
    then_step : {reached last : State W} → Steps s reached → Step reached last → Steps s last

  Step-Grows : {s t : State W} → Step s t → Grows s.governor t.governor
  Step-Grows (admitting ctx tool input s) =
      let (hooked, client) = admit-hooked ctx tool input s in
      record {
        client = client;
        balanced = admit-Balanced ge ctx tool input s;
        unique = λ h. subst IsUnique (sym hooked) (register-IsUnique tool s.governor h);
        keeps_tools = λ name h.
            subst (λ l. contains l name ≡ true) (sym hooked)
              (register-keeps tool s.governor name h);
      }
  Step-Grows (declaring names s) = declare-Grows names s.governor
  Step-Grows (elapsing o s) = Grows-refl s.governor

  pub Steps-Grows : {s t : State W} → Steps s t → Grows s.governor t.governor
  Steps-Grows still = Grows-refl _
  Steps-Grows (then_step steps step) = Grows-trans _ _ _ (Steps-Grows steps) (Step-Grows step)

  abbrev pub started : List GovernorOption → Client → (random : Bytes) → World W → State W
  started opts c random w = record { governor = new_governor opts c random; world = w; lines = [] }

  -- In every state that a new governor reaches by admissions, declarations and changes outside of
  -- it, the allowed, denied and unreachable calls are together at most the admitted ones, with
  -- the held ones they are at least as many, the routed calls are at most the allowed ones, and
  -- no tool is in the inventory twice.
  pub Steps-Balanced :
      (opts : List GovernorOption) (c : Client) (random : Bytes) (w : World W) (s : State W)
      → Steps (started opts c random w) s
      → Balanced s.governor.stats × IsUnique s.governor.hooked
  unfolding new_governor
  Steps-Balanced opts c random w s steps =
      let grown = Steps-Grows steps in
      (grown.balanced (Balanced-new_governor opts c random), grown.unique tt)

  -- Once a tool has been through Admit, the attestation of every state that is reached afterwards
  -- lists it among the hooked tools.
  pub Steps-attestation :
      (ctx : Context) (tool : Bytes) (input : Option Fields) (s t : State W)
      → Steps (admit ge ctx tool input s).1 t
      → contains (attestation t.governor).hooked_tools tool ≡ true
  unfolding attestation hooked_tools
  Steps-attestation ctx tool input s t steps =
      contains-sort t.governor.hooked tool
      ∙ (Steps-Grows steps).keeps_tools tool (
          subst (λ l. contains l tool ≡ true) (sym (admit-hooked ctx tool input s).0)
            (register-contains tool s.governor))
