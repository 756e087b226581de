-- ===== src/Admission/Wire.antt =====
-- The body of an admission request (admission/types.go: Request.wire).
use mitrity_go.Base.{
  [], ◌∷◌, ◌≢◌, ok_injective, subst, ◌≢◌, ℕ, ◌∷◌, ◌≡◌, refl, true, false, Option, none, some, Bytes,
  codes, same, is_empty, is_some, ok, arith, if◌then◌else◌,
}
use mitrity_go.Base.Int.{ℤ, pos, negsuc}
use mitrity_go.Std.Value.{Value, Fields, str, int, object, get, put, get-put}
use mitrity_go.Std.Strings.{trim_space}
use mitrity_go.Admission.Requests.{
  put_hold, request_base, request_strings, Request, framework_of, framework_for_surface,
  effective_surface, object_or_empty, put_string, request_wire,
}

-- A string that is left out when it is empty.
abbrev pub optional_string : Bytes → Option Value
optional_string s = if is_empty s then none else some (str s)

-- The hold budget on the wire: absent for a nil pointer.
abbrev pub hold_member : Option ℤ → Option Value
hold_member none = none
hold_member (some n) = some (int n)

-- The members of the body that a request is sent as.
pub record IsWire (r : Request) (body : Fields) : Type 0 where
  pub surface : get (codes "surface") body ≡ some (str (effective_surface r))
  pub tool_name : get (codes "tool_name") body ≡ some (str r.tool_name)
  pub tool_input : get (codes "tool_input") body ≡ some (object (object_or_empty r.tool_input))
  pub framework_version : get (codes "framework_version") body ≡ optional_string r.framework_version
  pub session_id : get (codes "session_id") body ≡ optional_string r.session_id
  pub cwd : get (codes "cwd") body ≡ optional_string r.cwd
  pub tool_use_id : get (codes "tool_use_id") body ≡ optional_string r.tool_use_id
  pub hold : get (codes "hold_timeout_seconds") body ≡ hold_member r.hold_timeout_seconds

get-put_string :
    (k j s : Bytes) (m : Fields)
    → get j (put_string k s m)
      ≡ (if same k j then if is_empty s then get j m else some (str s) else get j m)
unfolding put_string
get-put_string k j [] m = ground arith
get-put_string k j (b ∷ s) m = get-put k j (str (b ∷ s)) m

-- The members of a request without its hold budget, and with it.
module _ (r : Request) where
  abbrev unheld : Fields
  unheld = request_strings r (request_base r)

  unheld-IsWire : r.hold_timeout_seconds ≡ none → IsWire r unheld
  unfolding same get
  unheld-IsWire h = record {
    surface = simp (get-put_string, get-put) refl;
    tool_name = simp (get-put_string, get-put) refl;
    tool_input = simp (get-put_string, get-put) refl;
    framework_version = simp (get-put_string, get-put) refl;
    session_id = simp (get-put_string, get-put) refl;
    cwd = simp (get-put_string, get-put) refl;
    tool_use_id = simp (get-put_string, get-put) refl;
    hold = simp (get-put_string, get-put, h) refl;
  }

  held-IsWire :
      (n : ℤ)
      → r.hold_timeout_seconds ≡ some n
      → IsWire r (put (codes "hold_timeout_seconds") (int n) unheld)
  unfolding same get
  held-IsWire n h = record {
    surface = simp (get-put_string, get-put) refl;
    tool_name = simp (get-put_string, get-put) refl;
    tool_input = simp (get-put_string, get-put) refl;
    framework_version = simp (get-put_string, get-put) refl;
    session_id = simp (get-put_string, get-put) refl;
    cwd = simp (get-put_string, get-put) refl;
    tool_use_id = simp (get-put_string, get-put) refl;
    hold = simp (get-put, h) refl;
  }

  put_hold-IsWire :
      (hold : Option ℤ) (body : Fields)
      → r.hold_timeout_seconds ≡ hold
      → put_hold hold unheld ≡ ok body
      → IsWire r body
  put_hold-IsWire none body e h = subst (IsWire r) (ok_injective _ _ h) (unheld-IsWire e)
  put_hold-IsWire (some (pos n)) body e h =
      subst (IsWire r) (ok_injective _ _ h) (held-IsWire (pos n) e)
  put_hold-IsWire (some (negsuc n)) body e h = cc

-- The surface is one that the edge knows, the tool has a name, and the hold budget is not negative.
pub record IsSendable (r : Request) : Type 0 where
  pub known_surface : is_some (framework_of (effective_surface r) framework_for_surface) ≡ true
  pub named : is_empty (trim_space r.tool_name) ≡ false
  pub hold_positive : (n : ℕ) → r.hold_timeout_seconds ≢ some (negsuc n)

put_hold-total :
    (hold : Option ℤ) (m : Fields)
    → ((n : ℕ) → hold ≢ some (negsuc n))
    → (body : Fields) × (put_hold hold m ≡ ok body)
put_hold-total none m h = (m, refl)
put_hold-total (some (pos n)) m h = (_, refl)
put_hold-total (some (negsuc n)) m h = absurd (h n refl)

negative_hold : (n : ℕ) (m body : Fields) → put_hold (some (negsuc n)) m ≢ ok body
negative_hold n m body h = cc

request_wire-parts :
    (r : Request) (body : Fields)
    → request_wire r ≡ ok body
    → (is_some (framework_of (effective_surface r) framework_for_surface) ≡ true)
      × (is_empty (trim_space r.tool_name) ≡ false)
      × (put_hold r.hold_timeout_seconds (unheld r) ≡ ok body)
unfolding request_wire
request_wire-parts r body h = ground arith

request_wire_of_parts :
    (r : Request) (body : Fields)
    → is_some (framework_of (effective_surface r) framework_for_surface) ≡ true
    → is_empty (trim_space r.tool_name) ≡ false
    → put_hold r.hold_timeout_seconds (unheld r) ≡ ok body
    → request_wire r ≡ ok body
unfolding request_wire
request_wire_of_parts r body h k e = ground arith

-- A request has a body on the wire exactly when its surface (custom when empty) is known, its
-- tool name is not blank and its hold budget is not negative; the body then has the surface, the
-- tool name and the input (an empty object for a nil one), each optional string just when it is
-- not empty, and the hold budget just when there is one.
pub request_wire-IsWire :
    (r : Request)
    → ((body : Fields) → request_wire r ≡ ok body → IsSendable r × IsWire r body)
      × (IsSendable r → (body : Fields) × (request_wire r ≡ ok body))
request_wire-IsWire r = (
  λ body h.
      let (known, named, e) = request_wire-parts r body h in
      (
        record {
          known_surface = known;
          named = named;
          hold_positive = λ n held.
              negative_hold n (unheld r) body (subst (λ x. put_hold x (unheld r) ≡ ok body) held e);
        },
        put_hold-IsWire r r.hold_timeout_seconds body refl e,
      ),
  λ s.
      let (body, e) = put_hold-total r.hold_timeout_seconds (unheld r) s.hold_positive in
      (body, request_wire_of_parts r body s.known_surface s.named e),
)
