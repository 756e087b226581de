-- ===== src/Tests/Open.antt =====
-- A name whose unfolding opens the program, for runs of it.
use mitrity_go.Base.{same}
use mitrity_go.Std.Strings.{cut_prefix, trim_space, quote, format_ℕ, hex_encode}
use mitrity_go.Std.Value.{get, put, copy, string_or_empty}
use mitrity_go.Std.Json.{unmarshal, unmarshal_object, valid, encode_value, marshal}
use mitrity_go.Std.Ip.{parse_ip, loopback_text}
use mitrity_go.Admission.Errors.{error_text, errors_is, as_error, kind_of, as_path_error}
use mitrity_go.Admission.Types.{decision_kind, decision_of_object, parse_decision, attestation_wire}
use mitrity_go.Admission.Requests.{framework_of, put_string, request_wire}
use mitrity_go.Admission.Config.{normalized, clamp_timeout, clamp_hold}
use mitrity_go.Admission.Config.Addr.{
  split_addr, span, match_port, match_tcp, port_number, about_addr, not_loopback, not_plain,
  check_host_port, parse_loopback_addr, validate_addr,
}
use mitrity_go.Admission.World.{context_err}
use mitrity_go.Admission.Client.Messages.{
  summarize, reason_or, header_values, version_error, no_version_error, not_ready_error,
  bad_request_error, status_error, interpret_status, interpret, approval_or, verdict_for,
  unreachable_hint, unreachable_verdict, hold_failed_verdict,
}
use mitrity_go.Admission.Client.Request.{
  unreadable_error, too_large_error, encode, read_token, context_error, transport_error,
  request_header, http_request, read_body, round_trip,
}
use mitrity_go.Admission.Client.Construct.{
  apply_options, finish_client, new_with_config, dial_address,
}
use mitrity_go.Std.Ip.{join_host_port}
use mitrity_go.Admission.Client.Decide.{
  seconds_timeout, judge_answer, attempt_round, request_loop, request, log_decision, admit_within,
  admit, attest, decide_within, decide, decide_with_hold_budget,
}
use mitrity_go.Admission.Canonical.{config_hash}
use mitrity_go.Govern.Governor.{
  hooked_tools, declare, register, nullable_string, hashed_document, attestation, entry, throttled,
  should_attest, mark_attested,
}
use mitrity_go.Govern.State.{new_governor, contains, dedupe, lookup}
use mitrity_go.Govern.Admit as GovernAdmit
use mitrity_go.Govern.Denied.{denied_is}
use mitrity_go.Govern.Tool.{func, governed_call, wrap, wrap_all, wrap_caller}
use mitrity_go.EdgeTest.Edge.{
  header_get, bad_version, not_found, by_path, close, addr, admits, attests, add_script,
  set_default_admit, set_default_attest, set_rotate_on_next_request, set_reject_all_tokens,
  rotate_token, new_edge, respond, serve,
}
use mitrity_go.EdgeTest.Script.{hold_budget, allow, deny, held, hold_respond}
use mitrity_go.EdgeTest.Link.{link}
use mitrity_go.Std.Sort.{sort, less_bytes}

unfoldable pub program : Unit {0}
unfolding same cut_prefix trim_space quote format_ℕ hex_encode get put copy string_or_empty
    unmarshal unmarshal_object valid encode_value marshal parse_ip loopback_text error_text
    errors_is as_error kind_of as_path_error framework_of put_string request_wire decision_kind
    decision_of_object parse_decision attestation_wire normalized clamp_timeout clamp_hold
    split_addr span match_port match_tcp port_number about_addr not_loopback not_plain
    check_host_port parse_loopback_addr validate_addr context_err summarize reason_or header_values
    version_error no_version_error not_ready_error bad_request_error status_error interpret_status
    interpret approval_or verdict_for unreachable_hint unreachable_verdict hold_failed_verdict
    apply_options finish_client new_with_config join_host_port dial_address unreadable_error
    too_large_error encode read_token context_error transport_error request_header http_request
    read_body round_trip seconds_timeout judge_answer attempt_round request_loop request
    log_decision admit_within admit attest decide_within decide decide_with_hold_budget config_hash
    new_governor contains dedupe lookup hooked_tools declare register nullable_string
    hashed_document attestation entry throttled should_attest mark_attested
    GovernAdmit.context_value GovernAdmit.session_id_from GovernAdmit.merge_input
    GovernAdmit.session_for GovernAdmit.count_verdict GovernAdmit.cwd_for
    GovernAdmit.tool_use_id_for GovernAdmit.ensure_attested GovernAdmit.admit denied_is func
    governed_call wrap wrap_all wrap_caller hold_budget allow deny held hold_respond header_get
    bad_version not_found by_path close addr admits attests add_script set_default_admit
    set_default_attest set_rotate_on_next_request set_reject_all_tokens rotate_token new_edge
    respond serve link sort less_bytes
program = tt
