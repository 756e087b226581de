-- ===== src/Govern/Throttle.antt =====
-- When an attestation is sent (govern/governor.go: shouldAttest, ensureAttested).
use mitrity_go.Base.{
  ◌-◌, ℕ, ◌+◌, ◌≤◌, true, false, not, Bytes, List, [], ◌∷◌, none, ◌≡◌, refl, arith, same, same_refl,
  is_empty, ltb, leb,
}
use mitrity_go.Govern.Governor.{entry, should_attest, mark_attested, throttled}
use mitrity_go.Govern.State.{Governor, lookup, attest_retry_interval}

-- After an attestation of a session was stored, another is due exactly when the hash has changed,
-- whenever the last attempt was.
pub should_attest-mark_attested :
    (session hash hash' : Bytes) (now : ℕ) (g : Governor)
    → (should_attest session hash' now (mark_attested session hash g)).0 ≡ not (same hash hash')
unfolding should_attest mark_attested entry lookup throttled
should_attest-mark_attested session hash hash' now g = ground (arith, same_refl session)

should_attest-sent :
    (session hash : Bytes) (now : ℕ) (g : Governor)
    → (should_attest session hash now g).0 ≡ true
    → (should_attest session hash now g).1
      ≡ record g { attest_attempted = (session, now) ∷ g.attest_attempted }
unfolding should_attest
should_attest-sent session hash now g sent = ground arith

pub entry-none :
    (session : Bytes) (m : List (Bytes × Bytes)) → lookup session m ≡ none → entry session m ≡ []
unfolding entry
entry-none session m h = rw (entry, h) refl

throttled-attempted :
    (session : Bytes) (first later : ℕ) (g : Governor)
    → lookup session g.attested ≡ none
    → throttled
        (record g { attest_attempted = (session, first) ∷ g.attest_attempted })
        session
        later
      ≡ ltb (later - first) attest_retry_interval
unfolding throttled lookup
throttled-attempted session first later g h = rw (throttled, same_refl session, h) refl

empty-same : (s : Bytes) → is_empty s ≡ false → same [] s ≡ false
unfolding same
empty-same [] h = cc
empty-same (b ∷ s) h = refl

attempted-should_attest :
    (session hash : Bytes) (first later : ℕ) (g : Governor)
    → lookup session g.attested ≡ none
    → is_empty hash ≡ false
    → first ≤ later
    → (should_attest session hash later
        (record g { attest_attempted = (session, first) ∷ g.attest_attempted })).0
      ≡ leb (first + attest_retry_interval) later
unfolding should_attest
attempted-should_attest session hash first later g fresh nonempty before =
    rw
      (
        entry-none session g.attested fresh,
        empty-same hash nonempty,
        throttled-attempted session first later g fresh,
      )
      (ground arith)

-- When a session without an attestation was due for one, a later attestation with a non-empty
-- hash is due again exactly from thirty seconds after that attempt.
pub should_attest-retry :
    (session hash hash' : Bytes) (first later : ℕ) (g : Governor)
    → lookup session g.attested ≡ none
    → is_empty hash' ≡ false
    → (should_attest session hash first g).0 ≡ true
    → first ≤ later
    → (should_attest session hash' later (should_attest session hash first g).1).0
      ≡ leb (first + attest_retry_interval) later
unfolding should_attest entry lookup throttled
should_attest-retry session hash hash' first later g fresh nonempty sent before =
    rw (should_attest-sent session hash first g sent)
      (attempted-should_attest session hash' first later g fresh nonempty before)
