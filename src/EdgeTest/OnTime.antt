-- ===== src/EdgeTest/OnTime.antt =====
-- The times at the fake edge (internal/edgetest/edge.go: serve), and lemmas on its responses.
use mitrity_go.Base.{
  same, ◌&&◌, not, inr, inl, Bool-cases, none, Bool, if◌then◌else◌, ℕ, ◌+◌, ◌-◌, ◌<◌, ◌≤◌, ◌≡◌,
  refl, true, false, some, Bytes, ok, err, arith, leb,
}
use mitrity_go.Base.Int.{negsuc, pos, neg_part, ◌≤ℤ◌}
use mitrity_go.Admission.Errors.{as_error}
use mitrity_go.Admission.Client.Reported.{Foreign, IsForeign}
use mitrity_go.Admission.Config.Addr.{Network, unix, tcp}
use mitrity_go.Base.{same_refl}
use mitrity_go.Std.Value.{Value}
use mitrity_go.Std.Json.{marshal}
use mitrity_go.Admission.World.{HttpResponse}
use mitrity_go.Admission.Client.Deadlines.{Punctual}
use mitrity_go.EdgeTest.Script.{json}
use mitrity_go.EdgeTest.Edge.{payload_of, Edge, serve}
use mitrity_go.Std.Duration.{Duration}
use mitrity_go.EdgeTest.Link.{answers_at, no_socket, in_time, Linked, link}

in_time_lem :
    (deadline clock : ℕ) (x : HttpResponse × ℕ × Edge)
    → (in_time deadline clock x).1.clock ≤ deadline + (clock - deadline)
in_time_lem deadline clock (r, delay, e) = ground arith

exchanged_lem :
    (answers : Bool) (deadline : ℕ) (o : Linked) (x : HttpResponse × ℕ × Edge)
    → (if answers then in_time deadline o.clock x else (err no_socket, o)).1.clock
      ≤ deadline + (o.clock - deadline)
exchanged_lem false deadline o x = omega arith
exchanged_lem true deadline o x = in_time_lem deadline o.clock x

exchanged-IsForeign :
    (answers : Bool) (deadline : ℕ) (o : Linked) (x : HttpResponse × ℕ × Edge)
    → x.0.broken ≡ none
    → IsForeign (if answers then in_time deadline o.clock x else (err no_socket, o)).0
unfolding as_error
exchanged-IsForeign false deadline o x h = refl
exchanged-IsForeign true deadline o (r, delay, e) h =
    elim (Bool-cases (leb deadline (o.clock + delay))) [
      | inl late ↦ rw (late) refl
      | inr on_time ↦ rw (on_time, h) tt
    ]

pub in_time-ok :
    (deadline clock : ℕ) (r : HttpResponse) (delay : ℕ) (e : Edge)
    → clock + delay < deadline
    → in_time deadline clock (r, delay, e) ≡ (ok r, record { edge = e; clock = clock + delay })
in_time-ok deadline clock r delay e h =
    let on_time : leb deadline (clock + delay) ≡ false = ground (arith, h) in rw (on_time) refl

pub if-false {ℓ} : {A : Type ℓ} (b : Bool) (x y : A) → b ≡ false → (if b then x else y) ≡ y
if-false true x y h = cc
if-false false x y h = refl

pub if-true {ℓ} : {A : Type ℓ} (b : Bool) (x y : A) → b ≡ true → (if b then x else y) ≡ x
if-true true x y h = refl
if-true false x y h = cc

pub listening_lem :
    (closed : Bool) (n : Network) (dialled path : Bytes)
    → closed ≡ false
    → n ≡ unix
    → dialled ≡ path
    → (not closed && elim n [ unix ↦ same dialled path | tcp ↦ false ]) ≡ true
listening_lem true n dialled path h k e = cc
listening_lem false tcp dialled path h k e = cc
listening_lem false unix dialled path h k e = rw (e) (same_refl path)

pub neg_part_positive : (t : Duration) → pos 1 ≤ℤ t → neg_part t ≡ 0
neg_part_positive (pos n) h = refl
neg_part_positive (negsuc n) h = ground (arith, h)

pub payload_of_json :
    (random : ℕ → Bytes) (v : Value) (text : Bytes)
    → marshal v ≡ some text
    → payload_of random (json v) ≡ text
payload_of_json random v text h = rw (h, payload_of) refl

module _ (random : ℕ → Bytes) where
  -- The fake edge returns no error of the client's package.
  pub link-Foreign : Foreign (link random)
  unfolding link serve
  link-Foreign = record {
    exchanges = λ deadline req o.
        exchanged-IsForeign (answers_at o.edge req) deadline o (serve random req o.edge) refl;
  }

  -- The fake edge keeps to the deadlines.
  pub link-Punctual : Punctual (link random) 0
  unfolding link
  link-Punctual = record {
    reads = λ path o. omega arith;
    exchanges = λ deadline req o.
        exchanged_lem (answers_at o.edge req) deadline o (serve random req o.edge);
  }
