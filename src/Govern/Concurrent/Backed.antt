-- ===== src/Govern/Concurrent/Backed.antt =====
-- What holds of a call in the middle of Admit (govern/governor.go: Admit, ensureAttested).
use mitrity_go.Base.{◌≡◌, refl, sym, subst, Bool, true, false, List, [], Bytes, Result}
use mitrity_go.Std.Value.{Fields}
use mitrity_go.Admission.Types.{Verdict}
use mitrity_go.Admission.Requests.{Request}
use mitrity_go.Admission.World.{Exchange}
use mitrity_go.Admission.Client.Construct.{Client}
use mitrity_go.Admission.Client.Decide.{whole_seconds}
use mitrity_go.Admission.Client.FailClosed.{EdgeAllowed}
use mitrity_go.Admission.Client.Sent.{Extends, Extends-refl, Extends-trans}
use mitrity_go.Govern.State.{contains}
use mitrity_go.Govern.Admit.{State}
use mitrity_go.Govern.Denied.{DeniedError}
use mitrity_go.Govern.Gate.{Judged}
use mitrity_go.Govern.Concurrent.Call.{
  Call, Point, entered, registered, attesting, due, received, attested, prepared, asking, answered,
  missed, counted, routed, returned,
}

-- The edge was asked about this tool with this input; a verdict that allows is its allow, which was the
-- newest exchange then.
pub record Asked (c : Client) (call : Call) (sent : List Exchange) (v : Verdict) : Type 0 where
  pub request : Request
  pub same_tool : request.tool_name ≡ call.tool
  pub same_input : request.tool_input ≡ call.input
  pub after : List Exchange
  pub since : Extends after sent
  pub allowed : v.allowed ≡ true → EdgeAllowed c request (whole_seconds c.cfg.hold_timeout) v after

-- The result of a call rests on exchanges that were made by now.
pub record Settled (c : Client) (call : Call) (sent : List Exchange) (r : Result DeniedError Fields)
    : Type 0 where
  pub after : List Exchange
  pub since : Extends after sent
  pub judged : Judged c call.tool call.input r after

module _ (c : Client) (sent : List Exchange) (call : Call) where
  abbrev pub IsAbout : Request → Type 0
  IsAbout req = (req.tool_name ≡ call.tool) × (req.tool_input ≡ call.input)

  -- What holds of a call at a point.
  abbrev pub Backed : Point → Type 0
  Backed (prepared req) = IsAbout req
  Backed (asking req) = IsAbout req
  Backed (answered v) = Asked c call sent v
  Backed (missed v) = Asked c call sent v
  Backed (counted v) = Asked c call sent v
  Backed (routed v) = (v.allowed ≡ true) × Asked c call sent v
  Backed (returned r) = Settled c call sent r
  Backed p = Unit

abbrev pub is_entered : Point → Bool
is_entered entered = true
is_entered p = false

-- The tool is in the inventory from the first step on.
abbrev pub Listed : List Bytes → Call → Point → Type 0
Listed hooked call p = is_entered p ≡ false → contains hooked call.tool ≡ true

-- What no step takes back.
pub record Later {W : Type 0} (s t : State W) : Type 0 where
  pub client : t.governor.client ≡ s.governor.client
  pub tools :
      (name : Bytes)
      → contains s.governor.hooked name ≡ true
      → contains t.governor.hooked name ≡ true
  pub sent : Extends s.world.sent t.world.sent

module _ {W : Type 0} where
  pub Later-refl : (s : State W) → Later s s
  Later-refl s = record { client = refl; tools = λ name h. h; sent = Extends-refl s.world.sent }

  -- A step that changes neither.
  pub Later-of_eq :
      (s t : State W)
      → t.governor.client ≡ s.governor.client
      → t.governor.hooked ≡ s.governor.hooked
      → t.world.sent ≡ s.world.sent
      → Later s t
  Later-of_eq s t c h e = record {
    client = c;
    tools = λ name k. subst (λ l. contains l name ≡ true) (sym h) k;
    sent = record { newer = []; grown = e };
  }

Asked-later :
    {c : Client} {call : Call} {sent sent' : List Exchange} {v : Verdict}
    → Extends sent sent'
    → Asked c call sent v
    → Asked c call sent' v
Asked-later e a = record {
  request = a.request;
  same_tool = a.same_tool;
  same_input = a.same_input;
  after = a.after;
  since = Extends-trans a.since e;
  allowed = a.allowed;
}

pub Backed-later :
    (c : Client) (call : Call) (sent sent' : List Exchange) (p : Point)
    → Extends sent sent'
    → Backed c sent call p
    → Backed c sent' call p
Backed-later c call sent sent' (answered v) e h = Asked-later e h
Backed-later c call sent sent' (missed v) e h = Asked-later e h
Backed-later c call sent sent' (counted v) e h = Asked-later e h
Backed-later c call sent sent' (routed v) e (a, h) = (a, Asked-later e h)
Backed-later c call sent sent' (returned r) e h = record {
  after = h.after;
  since = Extends-trans h.since e;
  judged = h.judged;
}
Backed-later c call sent sent' (prepared req) e h = h
Backed-later c call sent sent' (asking req) e h = h
Backed-later c call sent sent' entered e h = h
Backed-later c call sent sent' (registered session) e h = h
Backed-later c call sent sent' (attesting session att) e h = h
Backed-later c call sent sent' (due session att) e h = h
Backed-later c call sent sent' (received session hash) e h = h
Backed-later c call sent sent' (attested session) e h = h
