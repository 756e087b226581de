-- ===== src/Lib.antt =====
-- The MITRITY Go adapter: an admission client (admission/), the governor that puts it before the
-- tools of an agent (govern/), and the fake edge of its tests (internal/edgetest/).
--
-- An agent calls a tool through the governor. Admit (govern/governor.go) registers the tool, sends an
-- attestation where one is due, asks the client for a decision, counts it, and returns the input that
-- the tool may run, or a denial. The client (admission/client.go) posts the request to an edge on the
-- same machine, with a token that it reads from a file for each attempt, retries once after a 401, and
-- asks a second time, with a hold budget, when the decision is held.
--
-- The files and the code:
--   Admission/Errors         admission/errors.go
--   Admission/Requests       admission/types.go: requests; proofs in Admission/Wire
--   Admission/Types          admission/types.go: decisions, verdicts, attestations; proofs in
--                            Admission/Decoding
--   Admission/Config         admission/config.go: Config, durations, the environment
--   Admission/Config/Addr    admission/config.go: SplitAddr, ParseLoopbackAddr, ValidateAddr;
--                            proofs in the other modules of Admission/Config
--   Admission/Canonical      admission/canonical.go; proofs in Canonical/Total and Canonical/Order
--   Admission/World          what the client asks of its surroundings, and the log of its exchanges
--   Admission/Client         admission/client.go: Messages (interpret, the verdicts), Construct (New,
--                            dial), Request (readToken, encode, roundTrip), Decide (request, Admit,
--                            Attest, Health, decide); proofs in the other modules of Admission/Client
--   Govern/State             govern/governor.go: the state, options and New
--   Govern/Governor          govern/governor.go: inventory, attestation, throttle
--   Govern/Denied            govern/errors.go
--   Govern/Admit             govern/governor.go: Admit as one function
--   Govern/Tool              govern/tool.go and govern/caller.go
--   Govern/Concurrent        govern/governor.go: Call (Admit by its steps), System (many goroutines);
--                            proofs in the other modules of Govern and of Govern/Concurrent
--   EdgeTest/Script          internal/edgetest/edge.go: requests and scripted responses
--   EdgeTest/Edge            internal/edgetest/edge.go: the edge; proofs in EdgeTest/Serving
--   EdgeTest/Link            a client connected to the fake edge by its socket; proofs in EdgeTest/EndToEnd
--   Std                      the parts of Go's standard library that the code calls
--   Base, Tests              shared names and lemmas; runs and inputs
--
-- A string or byte slice is the list of its bytes. `any` is `Value`, with a constructor for each dynamic
-- type that the code's type switches name, and map[string]any is `Fields`, a list of members of which
-- the first of a key counts. A pair of a value and an error is a `Result`; a nil error alone is none.
-- Function names are those of the source in another spelling: Request.wire is request_wire, parseDecision
-- is parse_decision, Client.decide is decide_within, Client.admit is admit_within.
--
-- The client's functions take the environment `Env`, the client and a `World`: the state of the
-- surroundings, the exchanges so far, newest first, and the log. The clock, the end of the caller's
-- context, os.ReadFile and http.Client.Do with the reading of the body are functions of `Env` over a
-- state that is a parameter, so the theorems hold for any of them; an exchange records what was sent
-- and what came of it. `GovernorEnv` adds os.Getwd and crypto/rand. A governed tool has a state of its
-- own, so that a call that does not reach it is a call that leaves this state alone.
--
-- Concurrent calls are goroutines that stand at points of Admit, over one governor and one world. What
-- runs under the mutex is one step, and so are an Add of an atomic counter, an Attest and a Decide: the
-- client has no state of its own that its calls could share, and the exchanges of one call do not
-- interleave with those of another. Any goroutine may make the next step.
--
-- The loop of request runs on rounds, and two are given, since it continues only from its first
-- attempt. The JSON parser of Std runs on twice the length of the text and two: a value and its list
-- or object are two steps, and each two take at least a byte. A duration is an integer of nanoseconds,
-- with the wrap-around of int64 where the code multiplies; counters and lengths are natural numbers,
-- as 2^63 calls are out of reach.
--
-- Not modelled: the interleaving of single exchanges of concurrent calls, the listener of the fake edge
-- and its temporary directory, the text of JSON errors, the tables of unicode.IsPrint behind %q (a rune
-- past 0x9F is taken to be printable), and the format of log lines. Three parts are narrower than in Go.
-- The text of a json.Number is read by the syntax of JSON, while strconv.ParseFloat also takes +5, .5,
-- 1., inf, nan and hexadecimal floats. The targets of errors.Is are the package's variables and the
-- errors of context: an error that is its own target, by the identity of its pointer, is left out, a
-- *DeniedError as a target included, and an error of net that says by its Is method that it is
-- context.DeadlineExceeded is written as deadline_exceeded. A scripted status between 100 and 199, for
-- which net/http goes on to send another response, is a response like any other.
pub mod Base
pub mod Std
pub mod Admission
pub mod Govern
pub mod EdgeTest
mod Tests
