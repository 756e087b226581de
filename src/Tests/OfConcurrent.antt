-- ===== src/Tests/OfConcurrent.antt =====
-- The theorems on concurrent calls, at two calls of a governor that is connected to the fake edge.
use mitrity_go.Tests.Runs.{client, edge, connected}
use mitrity_go.Base.{◌≡◌, true, [], ◌∷◌, ◌++◌, none, some, codes, replicate, Result}
use mitrity_go.Std.Value.{Fields}
use mitrity_go.EdgeTest.Link.{Linked}
use mitrity_go.Govern.Governor.{attestation}
use mitrity_go.Govern.State.{contains}
use mitrity_go.Govern.Admit.{State, admit}
use mitrity_go.Govern.Denied.{DeniedError}
use mitrity_go.Govern.Concurrent.Call.{Call, entered, returned, advance}
use mitrity_go.Govern.Concurrent.System.{Goroutine, start, Reaches, here, next, entering, moving}
use mitrity_go.Govern.Concurrent.Alone.{Reaches-admit}
use mitrity_go.Govern.Concurrent.Backed.{Settled}
use mitrity_go.Govern.Concurrent.Honest.{Reaches-Settled}
use mitrity_go.Govern.Concurrent.Tally.{Tallied, tally, Reaches-Tallied}
use mitrity_go.Tests.Fixtures.{surroundings, governed, session, command}

abbrev bash_call : Call
bash_call = record { ctx = session; tool = codes "Bash"; input = some command }

abbrev read_call : Call
read_call = record { ctx = []; tool = codes "Read"; input = none }

abbrev waiting : Goroutine
waiting = record { call = read_call; point = (advance surroundings read_call entered governed).0 }

-- The other call has registered its tool.
abbrev one_step_on : State Linked
one_step_on = (advance surroundings read_call entered governed).1

abbrev bash_answer : Result DeniedError Fields × State Linked
bash_answer = admit surroundings session (codes "Bash") (some command) one_step_on

abbrev bash_done : Goroutine
bash_done = record { call = bash_call; point = returned bash_answer.0 }

-- Both calls enter, the second makes one step, and the first runs to its end.
bash_first :
    Reaches surroundings
      (start surroundings [] client (replicate 16 1) (connected edge))
      (record { shared = bash_answer.1; calls = (waiting ∷ []) ++ bash_done ∷ [] })
bash_first =
    Reaches-admit surroundings (start surroundings [] client (replicate 16 1) (connected edge))
      (waiting ∷ []) [] bash_call one_step_on
      (next
        (next (next here (entering bash_call governed []))
          (entering read_call governed (record { call = bash_call; point = entered } ∷ [])))
        (moving [] (record { call = bash_call; point = entered } ∷ []) read_call entered governed))

Reaches-Tallied_example : Tallied bash_answer.1.governor.stats (tally (waiting ∷ bash_done ∷ []))
Reaches-Tallied_example =
    Reaches-Tallied surroundings [] client (replicate 16 1) (connected edge)
      (record { shared = bash_answer.1; calls = waiting ∷ bash_done ∷ [] }) bash_first

Reaches-Settled_example :
    Settled bash_answer.1.governor.client bash_call bash_answer.1.world.sent bash_answer.0
    × (contains (attestation bash_answer.1.governor).hooked_tools (codes "Bash") ≡ true)
Reaches-Settled_example =
    Reaches-Settled surroundings [] client (replicate 16 1) (connected edge) (waiting ∷ []) []
      bash_call bash_answer.0 bash_answer.1 bash_first
