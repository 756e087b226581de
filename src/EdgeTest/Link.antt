-- ===== src/EdgeTest/Link.antt =====
-- The surroundings of a client that is connected to the fake edge: a clock, and the edge.
use mitrity_go.Base.{
  Bool, false, not, ◌&&◌, ◌-◌, ℕ, ◌+◌, [], none, leb, if◌then◌else◌, Bytes, codes, same, Result, ok,
  err,
}
use mitrity_go.Admission.Errors.{GoError, deadline_exceeded, url_error, path_error, plain}
use mitrity_go.Admission.World.{Env, HttpRequest, HttpResponse, World}
use mitrity_go.Admission.Config.Addr.{unix, tcp}
use mitrity_go.EdgeTest.Edge.{Edge, serve}

pub record Linked : Type 0 where
  pub edge : Edge
  pub clock : ℕ

abbrev no_file : Bytes → GoError
no_file path = path_error (codes "open") path (plain (codes "no such file or directory"))

abbrev pub no_socket : GoError
no_socket =
    url_error (codes "Post") (codes "http://mitrity-admission")
      (plain (codes "no such file or directory"))

-- The edge listens on its socket and nowhere else.
abbrev pub answers_at : Edge → HttpRequest → Bool
answers_at e req =
    not e.closed && elim req.network [ unix ↦ same req.dial_address e.socket_path | tcp ↦ false ]

abbrev read_token_file : Bytes → Linked → Result GoError Bytes
read_token_file path w =
    if not w.edge.closed && same path w.edge.token_file then ok w.edge.file else err (no_file path)

-- A response that does not come before the deadline is an error at the deadline.
abbrev pub in_time : ℕ → ℕ → HttpResponse × ℕ × Edge → Result GoError HttpResponse × Linked
in_time deadline clock (r, delay, e) =
    if leb deadline (clock + delay)
    then (
      err (url_error (codes "Post") (codes "http://mitrity-admission") deadline_exceeded),
      record { edge = e; clock = deadline + (clock - deadline) },
    )
    else (ok r, record { edge = e; clock = clock + delay })

module _ (random : ℕ → Bytes) where
  unfoldable pub link : Env Linked
  unfolding serve
  link = record {
    now = λ w. w.clock;
    caller_end = λ w. none;
    read_file = λ path w. (read_token_file path w, w);
    exchange = λ deadline req w.
        if answers_at w.edge req
        then in_time deadline w.clock (serve random req w.edge)
        else (err no_socket, w);
  }

abbrev pub world_of : Linked → World Linked
world_of w = record { outside = w; sent = []; logs = [] }
