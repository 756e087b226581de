-- ===== src/Govern/Concurrent/Tally.antt =====
-- The atomic counters under concurrent calls (govern/governor.go: Admit, Stats).
use mitrity_go.Base.{
  none, some, Option, some, Option, ◌≤◌, ◌+◌, ◌≡◌, refl, sym, ap, ◌∙◌, subst, true, false, List, [],
  ◌∷◌, ◌++◌, Bytes, ok, err, Bool, arith,
}
use mitrity_go.Admission.Types.{Attestation, is_unreachable}
use mitrity_go.Admission.Client.Construct.{Client}
use mitrity_go.Admission.World.{World}
use mitrity_go.Admission.Errors.{GoError}
use mitrity_go.Govern.Governor.{mark_attested, declare}
use mitrity_go.Govern.State.{Governor, GovernorOption, Stats, new_governor, no_stats}
use mitrity_go.Govern.Admit.{GovernorEnv, State, count_verdict}
use mitrity_go.Govern.Keeps.{should_attest-Kept, register-Kept_client}
use mitrity_go.Govern.Concurrent.Call.{
  attest_sent, attest_next, add_allowed, Call, Point, entered, registered, attesting, due, received,
  attested, prepared, asking, answered, missed, counted, routed, returned, advance, add_admitted,
  add_unreachable, add_routed,
}
use mitrity_go.Govern.Concurrent.System.{
  Every-moved, Every, Every-middle, Goroutine, System, start, Step, entering, moving, declaring,
  elapsing, Reaches, here, next,
}

-- The sum of counters.
abbrev pub plus : Stats → Stats → Stats
plus a b = record {
  admitted = a.admitted + b.admitted;
  allowed = a.allowed + b.allowed;
  denied = a.denied + b.denied;
  held = a.held + b.held;
  unreachable = a.unreachable + b.unreachable;
  routed = a.routed + b.routed;
}

abbrev one_admitted : Stats
one_admitted = add_admitted no_stats

-- The Adds that a call has made when it stands at a point. Whether a call that returned an input was
-- routed is not told any more: `routed` is then 1.
abbrev pub added : Point → Stats
added (asking req) = one_admitted
added (answered v) = one_admitted
added (missed v) = add_unreachable one_admitted
added (counted v) = count_verdict v one_admitted
added (routed v) = add_routed (add_allowed one_admitted)
added (returned (ok out)) = add_routed (add_allowed one_admitted)
added (returned (err e)) = count_verdict e.verdict one_admitted
added p = no_stats

abbrev pub tally : List Goroutine → Stats
tally [] = no_stats
tally (g ∷ calls) = plus (added g.point) (tally calls)

-- The counters are those of a tally; `routed` is at most that.
pub record Tallied (n t : Stats) : Type 0 where
  pub admitted : n.admitted ≡ t.admitted
  pub allowed : n.allowed ≡ t.allowed
  pub denied : n.denied ≡ t.denied
  pub held : n.held ≡ t.held
  pub unreachable : n.unreachable ≡ t.unreachable
  pub routed : n.routed ≤ t.routed

-- What the verdict of a call is at two of the points.
abbrev Fits : Goroutine → Type 0
Fits g = fits g.point
  where
    fits : Point → Type 0
    fits (missed v) = (v.allowed ≡ false) × (is_unreachable v ≡ true)
    fits p = Unit

plus_swap : (a b t : Stats) → plus a (plus b t) ≡ plus b (plus a t)
plus_swap a b t = ground arith

tally-middle :
    (before after : List Goroutine) (g : Goroutine)
    → tally (before ++ g ∷ after) ≡ plus (added g.point) (tally (before ++ after))
tally-middle [] after g = refl
tally-middle (f ∷ before) after g =
    ap (plus (added f.point)) (tally-middle before after g)
    ∙ plus_swap (added f.point) (added g.point) (tally (before ++ after))

module _ {W : Type 0} (ge : GovernorEnv W) (call : Call) where
  attest_next-Tallied :
      (session : Bytes) (att : Attestation) (s : State W) (t : Stats) (r : Bool × Governor)
      → Tallied s.governor.stats (plus no_stats t)
      → r.1.stats ≡ s.governor.stats
      → Tallied
          (attest_next session att s r).1.governor.stats
          (plus (added (attest_next session att s r).0) t)
        × Fits (record { call = call; point = (attest_next session att s r).0 })
  attest_next-Tallied session att s t (false, g) h e =
      (subst (λ n. Tallied n (plus no_stats t)) (sym e) h, tt)
  attest_next-Tallied session att s t (true, g) h e =
      (subst (λ n. Tallied n (plus no_stats t)) (sym e) h, tt)

  attest_sent-Tallied :
      (session hash : Bytes) (s : State W) (t : Stats) (r : Option GoError × World W)
      → Tallied s.governor.stats (plus no_stats t)
      → Tallied
          (attest_sent session hash s r).1.governor.stats
          (plus (added (attest_sent session hash s r).0) t)
        × Fits (record { call = call; point = (attest_sent session hash s r).0 })
  attest_sent-Tallied session hash s t (some e, w) h = (h, tt)
  attest_sent-Tallied session hash s t (none, w) h = (h, tt)

  advance-Tallied :
      (p : Point) (s : State W) (t : Stats)
      → Fits (record { call = call; point = p })
      → Tallied s.governor.stats (plus (added p) t)
      → Tallied (advance ge call p s).1.governor.stats (plus (added (advance ge call p s).0) t)
        × Fits (record { call = call; point = (advance ge call p s).0 })
  unfolding advance count_verdict mark_attested
  advance-Tallied entered s t f h = (
    subst (λ n. Tallied n (plus no_stats t)) (sym (register-Kept_client call.tool s.governor).1) h,
    tt,
  )
  advance-Tallied (registered session) s t f h = (h, tt)
  advance-Tallied (attesting session att) s t f h =
      attest_next-Tallied session att s t _ h (should_attest-Kept session _ _ s.governor).stats
  advance-Tallied (due session att) s t f h = attest_sent-Tallied session _ s t _ h
  advance-Tallied (received session hash) s t f h = (h, tt)
  advance-Tallied (attested session) s t f h = (h, tt)
  advance-Tallied (prepared req) s t f h = ground arith
  advance-Tallied (asking req) s t f h = ground arith
  advance-Tallied (answered v) s t f h = ground arith
  advance-Tallied (missed v) s t f h = ground arith
  advance-Tallied (counted v) s t f h = ground arith
  advance-Tallied (routed v) s t f h = ground arith
  advance-Tallied (returned r) s t f h = (h, tt)

module _ {W : Type 0} (ge : GovernorEnv W) where
  -- The invariant.
  abbrev Holds : System W → Type 0
  Holds sys = Tallied sys.shared.governor.stats (tally sys.calls) × Every Fits sys.calls

  Step-Holds : {a b : System W} → Step ge a b → Holds a → Holds b
  unfolding declare
  Step-Holds (entering call s calls) (h, f) = (ground (arith, h), (tt, f))
  Step-Holds (moving before after call p s) (h, f) =
      let g : Goroutine = record { call = call; point = p } in
      let g' : Goroutine = record { call = call; point = (advance ge call p s).0 } in
      let (h', f') =
        advance-Tallied ge call p s (tally (before ++ after)) (Every-middle Fits before after g f)
          (subst (Tallied s.governor.stats) (tally-middle before after g) h) in
      (
        subst (Tallied (advance ge call p s).1.governor.stats) (sym (tally-middle before after g'))
            h',
        Every-moved Fits Fits before after g g' (λ k x. x) f' f,
      )
  Step-Holds (declaring names s calls) h = h
  Step-Holds (elapsing o s calls) h = h

  Reaches-Holds : {a b : System W} → Reaches ge a b → Holds a → Holds b
  Reaches-Holds here h = h
  Reaches-Holds (next r step) h = Step-Holds step (Reaches-Holds r h)

  -- However concurrent calls of Admit on a new governor interleave, the admitted, allowed,
  -- denied, held and unreachable counters are the sums of the Adds that the calls have made by
  -- where they stand, a call that has returned counted by its result; and the routed counter is
  -- at most the number of calls that were routed or have returned an input.
  pub Reaches-Tallied :
      (opts : List GovernorOption) (c : Client) (random : Bytes) (w : World W) (sys : System W)
      → Reaches ge (start ge opts c random w) sys
      → Tallied sys.shared.governor.stats (tally sys.calls)
  unfolding new_governor
  Reaches-Tallied opts c random w sys r =
      (Reaches-Holds r (
        record {
          admitted = refl;
          allowed = refl;
          denied = refl;
          held = refl;
          unreachable = refl;
          routed = omega arith;
        },
        tt,
      )).0
