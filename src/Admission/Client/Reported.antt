-- ===== src/Admission/Client/Reported.antt =====
-- Complete errors of the package (admission/client.go: transportError, contextError, roundTrip;
-- admission/errors.go).
use mitrity_go.Base.{
  length, ltb, is_empty, ◌>>=◌, ℕ, Bool, true, false, Bytes, Option, none, some, Result, ok, err,
  ◌≡◌, refl, subst, Bool-cases, inl, inr, if◌then◌else◌, ◌==◌,
}
use mitrity_go.Std.Duration.{Duration}
use mitrity_go.Admission.Errors.{
  kind_code, Kind, GoError, failure, wrapping, as_error, errors_is, deadline_exceeded,
}
use mitrity_go.Admission.Config.{Config}
use mitrity_go.Admission.World.{HttpRequest, HttpResponse, Env}
use mitrity_go.Admission.Client.Request.{
  answer_of, read_body, other_error, found_error, Answer, context_error, transport_error,
}
use mitrity_go.Admission.Client.Construct.{max_response_bytes}

-- An error of the package that is not without a kind, nor without a message.
pub data IsError : GoError → Type 0 where
  plain_error :
      (k : Kind) (message : Bytes)
      → (kind_code k == 0) ≡ false
      → is_empty message ≡ false
      → IsError (failure k message)
  with_cause :
      (k : Kind) (message : Bytes) (cause : GoError)
      → (kind_code k == 0) ≡ false
      → is_empty message ≡ false
      → IsError (wrapping k message cause)

-- The error of a response that breaks off.
abbrev pub IsForeignBreak : Option GoError → Type 0
IsForeignBreak none = Unit
IsForeignBreak (some e) = as_error e ≡ none

abbrev pub IsForeign : Result GoError HttpResponse → Type 0
IsForeign (err e) = as_error e ≡ none
IsForeign (ok r) = IsForeignBreak r.broken

-- The HTTP client does not know the errors of the package: none of its own errors has one in its
-- chain.
pub record Foreign {W : Type 0} (env : Env W) : Type 0 where
  pub exchanges :
      (deadline : ℕ) (req : HttpRequest) (o : W) → IsForeign (env.exchange deadline req o).0

-- An error of the package in the chain of an error is a complete one.
abbrev pub HasOwn : GoError → Type 0
HasOwn e = (found : GoError) → as_error e ≡ some found → IsError found

abbrev pub Transported : Result GoError Answer → Type 0
Transported (ok a) = Unit
Transported (err e) = HasOwn e

-- A result whose error, if it is one, is an error of the package.
abbrev pub FailsWell : {A : Type 0} → Result GoError A → Type 0
FailsWell (ok a) = Unit
FailsWell (err e) = IsError e

pub if-FailsWell :
    {A : Type 0} (b : Bool) (r s : Result GoError A)
    → FailsWell r
    → FailsWell s
    → FailsWell (if b then r else s)
if-FailsWell true r s h k = h
if-FailsWell false r s h k = k

pub bind-FailsWell :
    {A B : Type 0} (r : Result GoError A) (f : A → Result GoError B)
    → FailsWell r
    → ((a : A) → FailsWell (f a))
    → FailsWell (r >>= f)
bind-FailsWell (ok a) f h k = k a
bind-FailsWell (err e) f h k = h

found_injective : {a b : GoError} → some a ≡ some b → a ≡ b
found_injective h = cc

HasOwn-none : (e : GoError) → as_error e ≡ none → HasOwn e
HasOwn-none e h found k = cc

HasOwn-failure :
    (k : Kind) (message : Bytes)
    → (kind_code k == 0) ≡ false
    → is_empty message ≡ false
    → HasOwn (failure k message)
unfolding as_error
HasOwn-failure k message set_kind nonempty found h =
    subst IsError (found_injective h) (plain_error k message set_kind nonempty)

-- What roundTrip makes of a response, or of an error of the HTTP client.
pub answer_of-Transported :
    (r : Result GoError HttpResponse) → IsForeign r → Transported (answer_of r)
unfolding read_body
answer_of-Transported (err e) h = HasOwn-none e h
answer_of-Transported (ok r) h = elim (Bool-cases (ltb max_response_bytes (length r.body))) [
  | inl large ↦ rw (large) (HasOwn-failure _ _ refl refl)
  | inr small ↦ rw (small) (read r.broken h)
]
  where
    read :
        (o : Option GoError)
        → IsForeignBreak o
        → Transported (
            (elim o as (λ _. Result GoError Bytes) [ some e ↦ err e | none ↦ ok r.body ])
            >>= (λ body. ok (record { status = r.status; header = r.header; body = body })))
    read none k = tt
    read (some e) k = HasOwn-none e k

pub context_error-IsError :
    (cfg : Config) (e : GoError) (timeout : Duration) → IsError (context_error cfg e timeout)
unfolding context_error
context_error-IsError cfg e timeout = elim (Bool-cases (errors_is e deadline_exceeded)) [
  | inl h ↦ rw (h) (with_cause _ _ _ refl refl)
  | inr h ↦ rw (h) (with_cause _ _ _ refl refl)
]

other_error-IsError :
    (cfg : Config) (ended : Option GoError) (e : GoError) (timeout : Duration)
    → IsError (other_error cfg ended e timeout)
other_error-IsError cfg (some ctx) e timeout = context_error-IsError cfg ctx timeout
other_error-IsError cfg none e timeout = elim (Bool-cases (errors_is e deadline_exceeded)) [
  | inl h ↦ rw (h) (context_error-IsError cfg deadline_exceeded timeout)
  | inr h ↦ rw (h) (with_cause _ _ _ refl refl)
]

found_error-IsError :
    (cfg : Config) (found ended : Option GoError) (e : GoError) (timeout : Duration)
    → ((own : GoError) → found ≡ some own → IsError own)
    → IsError (found_error cfg found ended e timeout)
found_error-IsError cfg (some adm) ended e timeout h = h adm refl
found_error-IsError cfg none ended e timeout h = other_error-IsError cfg ended e timeout

pub transport_error-IsError :
    (cfg : Config) (ended : Option GoError) (e : GoError) (timeout : Duration)
    → HasOwn e
    → IsError (transport_error cfg ended e timeout)
unfolding transport_error
transport_error-IsError cfg ended e timeout h =
    found_error-IsError cfg (as_error e) ended e timeout h
