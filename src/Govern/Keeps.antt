-- ===== src/Govern/Keeps.antt =====
-- What ensureAttested and register leave as it was (govern/governor.go).
use mitrity_go.Base.{ℕ, Bool, true, false, Bytes, Option, none, some, ◌≡◌, arith}
use mitrity_go.Admission.Errors.{GoError}
use mitrity_go.Admission.Types.{Attestation}
use mitrity_go.Admission.World.{World}
use mitrity_go.Govern.Governor.{register, should_attest, mark_attested, attestation}
use mitrity_go.Govern.State.{Governor}
use mitrity_go.Govern.Admit.{GovernorEnv, State, after_attest, attest_if, ensure_attested}

-- The parts that a governor is made with, its inventory and its counters.
pub record Kept (g g' : Governor) : Type 0 where
  pub client : g'.client ≡ g.client
  pub surface : g'.surface ≡ g.surface
  pub framework_version : g'.framework_version ≡ g.framework_version
  pub stats : g'.stats ≡ g.stats
  pub hooked : g'.hooked ≡ g.hooked

pub should_attest-Kept :
    (session hash : Bytes) (now : ℕ) (g : Governor) → Kept g (should_attest session hash now g).1
unfolding should_attest
should_attest-Kept session hash now g = record {
  client = ground arith;
  surface = ground arith;
  framework_version = ground arith;
  stats = ground arith;
  hooked = ground arith;
}

module _ {W : Type 0} (ge : GovernorEnv W) where
  after_attest-Kept :
      (session hash : Bytes) (g : Governor) (s : State W) (r : Option GoError × World W)
      → Kept g s.governor
      → Kept g (after_attest ge session hash s r).governor
  unfolding mark_attested
  after_attest-Kept session hash g s (none, w) h = record {
    client = h.client;
    surface = h.surface;
    framework_version = h.framework_version;
    stats = h.stats;
    hooked = h.hooked;
  }
  after_attest-Kept session hash g s (some e, w) h = h

  attest_if-Kept :
      (session : Bytes) (att : Attestation) (g : Governor) (s : State W) (r : Bool × Governor)
      → Kept g r.1
      → Kept g (attest_if ge session att s r).governor
  attest_if-Kept session att g s (false, g') h = h
  attest_if-Kept session att g s (true, g') h =
      after_attest-Kept session att.config_hash g (record s { governor = g' }) _ h

  pub ensure_attested-Kept :
      (session : Bytes) (s : State W) → Kept s.governor (ensure_attested ge session s).governor
  unfolding ensure_attested
  ensure_attested-Kept session s =
      attest_if-Kept session (attestation s.governor) s.governor s _
        (should_attest-Kept session _ _ s.governor)

pub register-Kept_client :
    (name : Bytes) (g : Governor)
    → ((register name g).1.client ≡ g.client) × ((register name g).1.stats ≡ g.stats)
unfolding register
register-Kept_client name g = ground arith
