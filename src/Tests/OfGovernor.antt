-- ===== src/Tests/OfGovernor.antt =====
-- The theorems on the governor and on the fake edge, at a governor and a fake edge.
use mitrity_go.Tests.Open.{program}
use mitrity_go.Tests.Runs.{random, client, edge, connected}
use mitrity_go.Base.{
  length, arith, ◌+◌, ◌≡◌, refl, true, [], ◌∷◌, ◌++◌, some, Bytes, codes, same, replicate, leb, not,
  ◌||◌, ◌&&◌, is_empty,
}
use mitrity_go.Std.Value.{get}
use mitrity_go.Govern.Hash.{should_attest-first}
use mitrity_go.Govern.Governor.{declare, register, attestation, should_attest, mark_attested}
use mitrity_go.Govern.State.{lookup, new_governor, contains, attest_retry_interval}
use mitrity_go.Govern.Admit.{admit, merge_input}
use mitrity_go.Govern.Tool.{governed_call, wrap_caller}
use mitrity_go.Govern.Merge.{or_else, IsMap, get-merge_input}
use mitrity_go.Govern.Counters.{Counted, Balanced, admit-Counted}
use mitrity_go.Govern.Denials.{Explained, admit-Explained}
use mitrity_go.Govern.Gate.{Judged, admit-Judged}
use mitrity_go.Govern.Guard.{Guarded, governed_call-Guarded, wrap_caller-Guarded}
use mitrity_go.Govern.Inventory.{IsUnique, declare-Inventory, register-Inventory}
use mitrity_go.Govern.Toolset.{name_set, perform_all, union_all, perform_all-NameSet}
use mitrity_go.Base.{fun_ext}
use mitrity_go.Govern.Reached.{
  still, then_step, admitting, declaring, Steps-Balanced, Steps-attestation,
}
use mitrity_go.Govern.Throttle.{should_attest-mark_attested, should_attest-retry}
use mitrity_go.EdgeTest.Edge.{serve, written, recorded_of}
use mitrity_go.EdgeTest.Script.{Scripted}
use mitrity_go.EdgeTest.Serving.{HoldsToken, Consumed, serve-Served}
use mitrity_go.Tests.Fixtures.{
  read_then_bash, bash_then_read, surroundings, governor, governed, session, command, counter,
  remote, change, admitted, bad_token,
}

governed_call-Guarded_example :
    Guarded governor.client
      (codes "Bash")
      (some command)
      (counter.call session)
      0
      (admit surroundings session (codes "Bash") (some command) governed).1
      (governed_call surroundings counter session (some command) (0, governed))
unfolding program
governed_call-Guarded_example =
    governed_call-Guarded surroundings session (some command) 0 governed counter

wrap_caller-Guarded_example :
    Guarded governor.client
      (codes "Bash")
      (some command)
      (remote session (codes "Bash"))
      0
      (admit surroundings session (codes "Bash") (some command) governed).1
      (wrap_caller surroundings remote session (codes "Bash") (some command) (0, governed))
wrap_caller-Guarded_example =
    wrap_caller-Guarded surroundings session (some command) 0 governed remote (codes "Bash")

admit-Judged_example :
    Judged governor.client
      (codes "Bash")
      (some command)
      (admit surroundings session (codes "Bash") (some command) governed).0
      (admit surroundings session (codes "Bash") (some command) governed).1.world.sent
admit-Judged_example = admit-Judged surroundings session (codes "Bash") (some command) governed

get-merge_input_example :
    (get (codes "command") (merge_input (some command) (some change))
      ≡ or_else (get (codes "command") change) (get (codes "command") command))
    × IsMap (merge_input (some command) (some change))
unfolding program
get-merge_input_example =
    get-merge_input (codes "command") (some command) (some change) (refl, tt) (refl, tt)

admit-Counted_example :
    Counted
      (admit surroundings session (codes "Bash") (some command) governed).0
      governor.stats
      (admit surroundings session (codes "Bash") (some command) governed).1.governor.stats
admit-Counted_example = admit-Counted surroundings session (codes "Bash") (some command) governed

declare-Inventory_example :
    IsUnique (declare (codes "Bash" ∷ codes "Read" ∷ codes "Bash" ∷ []) governor).hooked
    × ((name : Bytes)
        → contains
            (attestation
              (declare (codes "Bash" ∷ codes "Read" ∷ codes "Bash" ∷ []) governor)).hooked_tools
            name
          ≡ (contains governor.hooked name
              || (not (is_empty name)
                  && contains (codes "Bash" ∷ codes "Read" ∷ codes "Bash" ∷ []) name)))
unfolding program
declare-Inventory_example =
    declare-Inventory (codes "Bash" ∷ codes "Read" ∷ codes "Bash" ∷ []) governor tt

register-Inventory_example :
    IsUnique (register (codes "Bash") governor).1.hooked
    × ((register (codes "Bash") governor).0 ≡ not (contains governor.hooked (codes "Bash")))
    × ((name : Bytes)
        → contains (attestation (register (codes "Bash") governor).1).hooked_tools name
          ≡ (contains governor.hooked name || same (codes "Bash") name))
unfolding program
register-Inventory_example = register-Inventory (codes "Bash") governor tt

Steps-Balanced_example :
    Balanced
      (record admitted { governor = declare (codes "Read" ∷ []) admitted.governor }).governor.stats
    × IsUnique
        (record admitted {
          governor = declare (codes "Read" ∷ []) admitted.governor;
        }).governor.hooked
Steps-Balanced_example =
    Steps-Balanced surroundings [] client (replicate 16 1) (connected edge)
      (record admitted { governor = declare (codes "Read" ∷ []) admitted.governor })
      (then_step (then_step still (admitting session (codes "Bash") (some command) governed))
        (declaring (codes "Read" ∷ []) admitted))

Steps-attestation_example :
    contains
      (attestation (declare (codes "Read" ∷ []) admitted.governor)).hooked_tools
      (codes "Bash")
    ≡ true
Steps-attestation_example =
    Steps-attestation surroundings session (codes "Bash") (some command) governed
      (record admitted { governor = declare (codes "Read" ∷ []) admitted.governor })
      (then_step still (declaring (codes "Read" ∷ []) admitted))

should_attest-mark_attested_example :
    (should_attest (codes "s") (codes "h2") 7 (mark_attested (codes "s") (codes "h1") governor)).0
    ≡ not (same (codes "h1") (codes "h2"))
should_attest-mark_attested_example =
    should_attest-mark_attested (codes "s") (codes "h1") (codes "h2") 7 governor

should_attest-retry_example :
    (should_attest
      (codes "s")
      (codes "h2")
      12
      (should_attest (codes "s") (codes "h1") 7 governor).1).0
    ≡ leb (7 + attest_retry_interval) 12
unfolding program
should_attest-retry_example =
    should_attest-retry (codes "s") (codes "h1") (codes "h2") 7 12 governor refl refl refl
      (omega arith)

serve-Served_example :
    ((serve random bad_token edge).2.requests ≡ edge.requests ++ recorded_of random bad_token ∷ [])
    × HoldsToken (serve random bad_token edge).2
    × ((s : Scripted) × ((serve random bad_token edge).0 ≡ written random s)
        × Consumed (recorded_of random bad_token) s edge (serve random bad_token edge).2)
unfolding program
serve-Served_example = serve-Served random bad_token edge refl

should_attest-first_example :
    (length (attestation governor).config_hash ≡ 64)
    × (should_attest (codes "s") (attestation governor).config_hash 7 governor
        ≡ (true, record governor { attest_attempted = (codes "s", 7) ∷ governor.attest_attempted }))
unfolding new_governor lookup
should_attest-first_example = should_attest-first (codes "s") 7 governor refl refl

perform_all-NameSet_example :
    (name_set (perform_all bash_then_read governor) ≡ union_all bash_then_read (name_set governor))
    × (attestation (perform_all bash_then_read governor)
        ≡ attestation (perform_all read_then_bash governor))
unfolding new_governor
perform_all-NameSet_example =
    perform_all-NameSet bash_then_read read_then_bash governor tt (fun_ext (λ name. ground arith))

admit-Explained_example :
    Explained (admit surroundings session (codes "Bash") (some command) governed).0
admit-Explained_example =
    admit-Explained surroundings session (codes "Bash") (some command) governed
