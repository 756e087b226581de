-- ===== src/Govern/Hash.antt =====
-- The hash of an attestation (govern/governor.go: Attestation, shouldAttest).
use mitrity_go.Base.{ℕ, ◌≡◌, refl, ap, ◌∙◌, true, false, Bytes, [], ◌∷◌, none, length, same, arith}
use mitrity_go.Admission.Canonical.Total.{IsSimple, length-config_hash}
use mitrity_go.Govern.Governor.{
  nullable_string, hashed_document, hash_or_empty, attestation, throttled, should_attest,
}
use mitrity_go.Govern.State.{Governor, lookup}
use mitrity_go.Govern.Throttle.{entry-none}

nullable_string-IsSimple : (s : Bytes) → IsSimple (nullable_string s)
unfolding nullable_string IsSimple
nullable_string-IsSimple [] = tt
nullable_string-IsSimple (b ∷ s) = tt

hashed_document-IsSimple : (g : Governor) → IsSimple (hashed_document g)
unfolding hashed_document IsSimple
hashed_document-IsSimple g =
    (tt, (tt, (tt, (nullable_string-IsSimple g.framework_version, (tt, (tt, (tt, (tt, tt))))))))

length-attestation : (g : Governor) → length (attestation g).config_hash ≡ 64
unfolding attestation
length-attestation g =
    let (hash, hashed, long) =
      length-config_hash (hashed_document g) (hashed_document-IsSimple g) in
    ap (λ r. length (hash_or_empty r)) hashed ∙ long

long-same : (s : Bytes) → length s ≡ 64 → same [] s ≡ false
unfolding same
long-same [] h = ground arith
long-same (b ∷ s) h = refl

throttled-none :
    (session : Bytes) (now : ℕ) (g : Governor)
    → lookup session g.attest_attempted ≡ none
    → throttled g session now ≡ false
unfolding throttled
throttled-none session now g h = rw (throttled, h) refl

-- The attestation of every governor has a hash of 64 characters, and for a session with neither a
-- stored attestation nor an attempt it is due, whereupon the attempt is noted.
pub should_attest-first :
    (session : Bytes) (now : ℕ) (g : Governor)
    → lookup session g.attested ≡ none
    → lookup session g.attest_attempted ≡ none
    → (length (attestation g).config_hash ≡ 64)
      × (should_attest session (attestation g).config_hash now g
          ≡ (true, record g { attest_attempted = (session, now) ∷ g.attest_attempted }))
unfolding should_attest
should_attest-first session now g fresh untried = (
  length-attestation g,
  rw
      (
        entry-none session g.attested fresh,
        long-same (attestation g).config_hash (length-attestation g),
        throttled-none session now g untried,
      )
      refl,
)
