-- ===== src/Govern/Concurrent/Honest.antt =====
-- What concurrent calls return (govern/governor.go: Admit on many goroutines).
use mitrity_go.Base.{
  ◌≡◌, refl, sym, ◌∙◌, subst, Bool, true, false, List, ◌∷◌, ◌++◌, Bytes, Option, none, some, Result,
  ok, arith, is_empty, Bool-cases, inl, inr,
}
use mitrity_go.Std.Value.{Fields}
use mitrity_go.Admission.Errors.{GoError}
use mitrity_go.Admission.Types.{Verdict, Attestation, is_unreachable}
use mitrity_go.Admission.World.{World, Exchange}
use mitrity_go.Admission.Client.Construct.{Client}
use mitrity_go.Admission.Client.Decide.{decide}
use mitrity_go.Admission.Client.FailClosed.{decide-EdgeAllowed}
use mitrity_go.Admission.Client.Sent.{Extends-refl}
use mitrity_go.Govern.Governor.{declare, attestation, hooked_tools}
use mitrity_go.Govern.State.{GovernorOption, Governor, contains}
use mitrity_go.Govern.Admit.{GovernorEnv, State, merge_input}
use mitrity_go.Govern.Denied.{DeniedError}
use mitrity_go.Govern.Inventory.{contains-dedupe, contains-sort}
use mitrity_go.Govern.Reached.{register-contains}
use mitrity_go.Govern.Concurrent.Call.{
  Call, Point, entered, registered, attesting, due, received, attested, prepared, asking, answered,
  missed, counted, routed, returned, advance, attest_next, attest_sent, count_next, return_next,
}
use mitrity_go.Govern.Concurrent.System.{
  Goroutine, System, start, Step, entering, moving, declaring, elapsing, Reaches, here, next, Every,
  Every-middle, Every-moved, Every-map,
}
use mitrity_go.Govern.Concurrent.Later.{advance-Later}
use mitrity_go.Govern.Concurrent.Backed.{
  is_entered, Asked, Settled, Backed, Listed, Later, Backed-later,
}

module _ {W : Type 0} (ge : GovernorEnv W) (call : Call) where
  attest_next-Backed :
      (c : Client) (sent : List Exchange) (session : Bytes) (att : Attestation) (s : State W)
      (r : Bool × Governor)
      → Backed c sent call (attest_next session att s r).0
  attest_next-Backed c sent session att s (false, g) = tt
  attest_next-Backed c sent session att s (true, g) = tt

  attest_sent-Backed :
      (c : Client) (sent : List Exchange) (session hash : Bytes) (s : State W)
      (r : Option GoError × World W)
      → Backed c sent call (attest_sent session hash s r).0
  attest_sent-Backed c sent session hash s (some e, w) = tt
  attest_sent-Backed c sent session hash s (none, w) = tt

  Settled-of_Asked :
      (c : Client) (sent : List Exchange) (v : Verdict)
      → v.allowed ≡ true
      → Asked c call sent v
      → Settled c call sent (ok (merge_input call.input v.updated_input))
  Settled-of_Asked c sent v e a = record {
    after = a.after;
    since = a.since;
    judged = record {
      request = a.request;
      same_tool = a.same_tool;
      same_input = a.same_input;
      verdict = v;
      allowed = a.allowed e;
      merged = refl;
    };
  }

  count_next-Backed :
      (c : Client) (v : Verdict) (s : State W)
      → Asked c call s.world.sent v
      → Backed c (count_next v s).1.world.sent call (count_next v s).0
  count_next-Backed c v s h = elim (Bool-cases v.allowed) [
    | inl e ↦ simp (e) h
    | inr e ↦ elim (Bool-cases (is_unreachable v)) [
      | inl u ↦ simp (e, u) h
      | inr u ↦ elim (Bool-cases v.held) [ inl k ↦ simp (e, u, k) h | inr k ↦ simp (e, u, k) h ]
    ]
  ]

  return_next-Backed :
      (c : Client) (v : Verdict) (s : State W)
      → Asked c call s.world.sent v
      → Backed c (return_next call v s).1.world.sent call (return_next call v s).0
  return_next-Backed c v s h = elim (Bool-cases v.allowed) [
    | inl e ↦ elim (Bool-cases (is_empty v.routed_to)) [
      | inl r ↦ simp (e, r) (Settled-of_Asked c s.world.sent v e h)
      | inr r ↦ simp (e, r) (refl, h)
    ]
    | inr e ↦ simp (e) (record {
      after = h.after;
      since = h.since;
      judged = record { named = refl; not_allowed = e };
    })
  ]

  pub advance-Backed :
      (p : Point) (s : State W)
      → Backed s.governor.client s.world.sent call p
      → Backed s.governor.client (advance ge call p s).1.world.sent call (advance ge call p s).0
  unfolding advance
  advance-Backed entered s h = tt
  advance-Backed (registered session) s h = tt
  advance-Backed (attesting session att) s h = attest_next-Backed _ _ session att s _
  advance-Backed (due session att) s h = attest_sent-Backed _ _ session _ s _
  advance-Backed (received session hash) s h = tt
  advance-Backed (attested session) s h = (refl, refl)
  advance-Backed (prepared req) s h = h
  advance-Backed (asking req) s h = record {
    request = req;
    same_tool = h.0;
    same_input = h.1;
    after = (decide ge.env s.governor.client req s.world).1.sent;
    since = Extends-refl _;
    allowed = decide-EdgeAllowed ge.env s.governor.client req s.world;
  }
  advance-Backed (answered v) s h = count_next-Backed s.governor.client v s h
  advance-Backed (missed v) s h = ground (arith, h)
  advance-Backed (counted v) s h = return_next-Backed s.governor.client v s h
  advance-Backed (routed v) s h = Settled-of_Asked _ _ v h.0 h.1
  advance-Backed (returned r) s h = h

  kept-Listed :
      (p : Point) (s : State W)
      → is_entered p ≡ false
      → Listed s.governor.hooked call p
      → Listed (advance ge call p s).1.governor.hooked call (advance ge call p s).0
  kept-Listed p s e h = λ k. (advance-Later ge call p s).tools call.tool (h e)

  pub advance-Listed :
      (p : Point) (s : State W)
      → Listed s.governor.hooked call p
      → Listed (advance ge call p s).1.governor.hooked call (advance ge call p s).0
  unfolding advance
  advance-Listed entered s h = λ e. register-contains call.tool s.governor
  advance-Listed (registered session) s h = kept-Listed (registered session) s refl h
  advance-Listed (attesting session att) s h = kept-Listed (attesting session att) s refl h
  advance-Listed (due session att) s h = kept-Listed (due session att) s refl h
  advance-Listed (received session hash) s h = kept-Listed (received session hash) s refl h
  advance-Listed (attested session) s h = kept-Listed (attested session) s refl h
  advance-Listed (prepared req) s h = kept-Listed (prepared req) s refl h
  advance-Listed (asking req) s h = kept-Listed (asking req) s refl h
  advance-Listed (answered v) s h = kept-Listed (answered v) s refl h
  advance-Listed (missed v) s h = kept-Listed (missed v) s refl h
  advance-Listed (counted v) s h = kept-Listed (counted v) s refl h
  advance-Listed (routed v) s h = kept-Listed (routed v) s refl h
  advance-Listed (returned r) s h = kept-Listed (returned r) s refl h

module _ {W : Type 0} (ge : GovernorEnv W) where
  -- The invariant of every goroutine.
  abbrev Sound : State W → Goroutine → Type 0
  Sound s g =
      Backed s.governor.client s.world.sent g.call g.point × Listed s.governor.hooked g.call g.point

  Sound-Later : (s t : State W) → Later s t → (g : Goroutine) → Sound s g → Sound t g
  Sound-Later s t l g (b, k) = (
    subst (λ c. Backed c t.world.sent g.call g.point) (sym l.client)
        (Backed-later s.governor.client g.call s.world.sent t.world.sent g.point l.sent b),
    λ e. l.tools g.call.tool (k e),
  )

  advance-Sound :
      (call : Call) (p : Point) (s : State W)
      → Sound s (record { call = call; point = p })
      → Sound (advance ge call p s).1 (record { call = call; point = (advance ge call p s).0 })
  advance-Sound call p s (b, k) = (
    subst (λ c. Backed c (advance ge call p s).1.world.sent call (advance ge call p s).0)
        (sym (advance-Later ge call p s).client) (advance-Backed ge call p s b),
    advance-Listed ge call p s k,
  )

  declare-Later :
      (names : List Bytes) (s : State W)
      → Later s (record s { governor = declare names s.governor })
  unfolding declare
  declare-Later names s = record {
    client = refl;
    tools = λ name h. contains-dedupe s.governor.hooked names name ∙ rw (h) refl;
    sent = Extends-refl s.world.sent;
  }

  Step-Sound :
      {a b : System W}
      → Step ge a b
      → Every (Sound a.shared) a.calls
      → Every (Sound b.shared) b.calls
  Step-Sound (entering call s calls) h = ((tt, λ e. cc), h)
  Step-Sound (moving before after call p s) h =
      let t = (advance ge call p s).1 in
      let g : Goroutine = record { call = call; point = p } in
      let g' : Goroutine = record { call = call; point = (advance ge call p s).0 } in
      Every-moved (Sound s) (Sound t) before after g g'
        (Sound-Later s t (advance-Later ge call p s))
        (advance-Sound call p s (Every-middle (Sound s) before after g h)) h
  Step-Sound (declaring names s calls) h =
      Every-map (Sound s) (Sound (record s { governor = declare names s.governor }))
        (Sound-Later s _ (declare-Later names s)) calls h
  Step-Sound (elapsing o s calls) h = h

  Reaches-Sound :
      {a b : System W}
      → Reaches ge a b
      → Every (Sound a.shared) a.calls
      → Every (Sound b.shared) b.calls
  Reaches-Sound here h = h
  Reaches-Sound (next r step) h = Step-Sound step (Reaches-Sound r h)

  -- However concurrent calls of Admit on a new governor interleave, among declarations and
  -- changes outside, a call that has returned is settled: an input was returned only on
  -- exchanges, still on the record, of which the newest was then an allow of the edge for this
  -- call's tool and input, and is that input merged with the verdict's changes; a denial names
  -- the tool and carries a verdict that does not allow; and the attestation lists the call's
  -- tool.
  pub Reaches-Settled :
      (opts : List GovernorOption) (c : Client) (random : Bytes) (w : World W)
      (before after : List Goroutine) (call : Call) (r : Result DeniedError Fields) (s : State W)
      → Reaches ge (start ge opts c random w) (record {
        shared = s;
        calls = before ++ record { call = call; point = returned r } ∷ after;
      })
      → Settled s.governor.client call s.world.sent r
        × (contains (attestation s.governor).hooked_tools call.tool ≡ true)
  unfolding attestation hooked_tools
  Reaches-Settled opts c random w before after call r s steps =
      let (b, k) = Every-middle (Sound s) before after _ (Reaches-Sound steps tt) in
      (b, contains-sort s.governor.hooked call.tool ∙ k refl)
