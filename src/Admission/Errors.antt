-- ===== src/Admission/Errors.antt =====
-- admission/errors.go, and the errors of the standard library that its errors wrap.
use mitrity_go.Base.{
  ℕ, Bool, true, false, ◌&&◌, ◌||◌, [], ◌∷◌, ◌++◌, Option, none, some, ◌==◌, Bytes, codes,
}
use mitrity_go.Std.Strings.{quote}

-- `unset` is the zero Kind, which no error carries.
pub data Kind : Type 0 where
  unset config unreachable timeout canceled unauthorized not_ready protocol payload_too_large : Kind

abbrev pub kind_code : Kind → ℕ
kind_code Kind.unset = 0
kind_code Kind.config = 1
kind_code Kind.unreachable = 2
kind_code Kind.timeout = 3
kind_code Kind.canceled = 4
kind_code Kind.unauthorized = 5
kind_code Kind.not_ready = 6
kind_code Kind.protocol = 7
kind_code Kind.payload_too_large = 8

-- Kind.String
unfoldable pub kind_string : Kind → Bytes
kind_string Kind.unset = codes "unknown"
kind_string Kind.config = codes "config"
kind_string Kind.unreachable = codes "unreachable"
kind_string Kind.timeout = codes "timeout"
kind_string Kind.canceled = codes "canceled"
kind_string Kind.unauthorized = codes "unauthorized"
kind_string Kind.not_ready = codes "not_ready"
kind_string Kind.protocol = codes "protocol"
kind_string Kind.payload_too_large = codes "payload_too_large"

-- A Go error value. `failure` is an *Error without and `wrapping` one with a Cause; `sentinel k` is
-- the package variable of kind k. `path_error` is an *os.PathError and `url_error` what http.Client
-- returns; `plain` is any other error, by its text.
pub data GoError : Type 0 where
  failure : Kind → Bytes → GoError
  wrapping : Kind → Bytes → GoError → GoError
  sentinel : Kind → GoError
  context_canceled deadline_exceeded : GoError
  path_error : (op path : Bytes) → GoError → GoError
  url_error : (op url : Bytes) → GoError → GoError
  plain : Bytes → GoError

unfoldable pub sentinel_text : Kind → Bytes
sentinel_text Kind.config = codes "admission: configuration error"
sentinel_text Kind.unreachable = codes "admission: edge unreachable"
sentinel_text Kind.timeout = codes "admission: deadline exceeded"
sentinel_text Kind.canceled = codes "admission: canceled"
sentinel_text Kind.unauthorized = codes "admission: token rejected"
sentinel_text Kind.not_ready = codes "admission: edge not ready"
sentinel_text Kind.protocol = codes "admission: protocol error"
sentinel_text Kind.payload_too_large = codes "admission: request too large"
sentinel_text Kind.unset = []

-- err.Error()
unfoldable pub error_text : GoError → Bytes
unfolding sentinel_text quote
error_text (failure k m) = m
error_text (wrapping k m c) = m
error_text (sentinel k) = sentinel_text k
error_text context_canceled = codes "context canceled"
error_text deadline_exceeded = codes "context deadline exceeded"
error_text (path_error op path e) = op ++ b' ' ∷ (path ++ codes ": " ++ error_text e)
error_text (url_error op url e) = op ++ b' ' ∷ (quote url ++ codes ": " ++ error_text e)
error_text (plain m) = m

abbrev is_sentinel_of : Kind → GoError → Bool
is_sentinel_of k (sentinel s) = kind_code k == kind_code s || (kind_code k == 8 && kind_code s == 7)
is_sentinel_of k _ = false

-- (*Error).Is
unfoldable pub error_is : GoError → GoError → Bool
error_is (failure k m) target = is_sentinel_of k target
error_is (wrapping k m c) target = is_sentinel_of k target
error_is _ target = false

-- `err == target`: targets are package variables, which are equal to themselves alone.
abbrev identical : GoError → GoError → Bool
identical (sentinel k) (sentinel s) = kind_code k == kind_code s
identical context_canceled context_canceled = true
identical deadline_exceeded deadline_exceeded = true
identical _ _ = false

-- errors.Is: the error itself, its own Is method, and so down the chain of Unwrap.
unfoldable pub errors_is : GoError → GoError → Bool
unfolding error_is
errors_is (wrapping k m c) target = error_is (wrapping k m c) target || errors_is c target
errors_is (path_error op path e) target = errors_is e target
errors_is (url_error op url e) target = errors_is e target
errors_is e target = identical e target || error_is e target

-- errors.As with an *Error.
unfoldable pub as_error : GoError → Option GoError
as_error (failure k m) = some (failure k m)
as_error (wrapping k m c) = some (wrapping k m c)
as_error (path_error op path e) = as_error e
as_error (url_error op url e) = as_error e
as_error _ = none

abbrev pub own_kind : Option GoError → Kind
own_kind (some (failure k m)) = k
own_kind (some (wrapping k m c)) = k
own_kind _ = Kind.unset

-- KindOf
unfoldable pub kind_of : GoError → Kind
unfolding as_error
kind_of e = own_kind (as_error e)

-- errors.As with an *os.PathError, and its Err.
unfoldable pub as_path_error : GoError → Option GoError
as_path_error (path_error op path e) = some e
as_path_error (url_error op url e) = as_path_error e
as_path_error (wrapping k m c) = as_path_error c
as_path_error _ = none
