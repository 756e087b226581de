-- ===== src/Admission/Client/Target.antt =====
-- Where a client that NewWithConfig built connects to (admission/client.go: NewWithConfig, dial,
-- roundTrip).
use mitrity_go.Base.{All, true, ◌++◌}
use mathlib.Core.Path.{ap₂}
use mitrity_go.Std.Ip.{Ip}
use mitrity_go.Std.Strings.{format_ℕ}
use mitrity_go.Admission.World.{HttpRequest}
use mitrity_go.Admission.Config.Addr.{is_name_char}
use mitrity_go.Admission.Config.Loopback.{IsLoopback, ipv4, ipv6}
use mitrity_go.Admission.Config.Match.{IsPlain, named, bracketed}
use mitrity_go.Admission.Config.RoundTrip.{join_host_port-quad, All-dotted}
use mitrity_go.Std.Ip.{has_colon}
use mitrity_go.Admission.Client.Request.{http_request}
use mitrity_go.Base.{
  ap, sym, subst, ◌∙◌, ℕ, ◌≡◌, refl, false, Option, none, some, Bytes, List, [], ◌∷◌, Result, ok,
  err, is_empty, arith,
}
use mitrity_go.Admission.Errors.{GoError}
use mitrity_go.Admission.Config.{Config, normalized}
use mitrity_go.Admission.Config.Addr.{
  ignore_value, Network, unix, tcp, validate_addr, validate_split, split_addr, parse_loopback_addr,
}
use mitrity_go.Admission.Config.Bounds.{InBounds, normalized-InBounds}
use mitrity_go.Admission.Config.Loopback.{IsAccepted, parse_loopback_addr-IsAccepted}
use mitrity_go.Admission.Client.Construct.{
  dial_address, checked, with_target, Client, ClientOption, apply_option, apply_options,
  finish_client, new_start, new_with_config,
}
use mitrity_go.Std.Ip.{join_host_port}

-- The client's address was refused, or it names a socket, or it is a loopback host and a port.
data Placed (c : Client) : Type 0 where
  unplaced : (e : GoError) → c.cfg_err ≡ some e → Placed c
  on_socket : c.cfg_err ≡ none → c.network ≡ unix → is_empty c.address ≡ false → Placed c
  on_loopback : c.cfg_err ≡ none → c.network ≡ tcp → IsAccepted c.address c.host c.port → Placed c

-- The place at which a request of a client is dialled: none is known where the client's address was
-- refused; else the path of a Unix socket, or the accepted host with the accepted port.
pub data Target (c : Client) (req : HttpRequest) : Type 0 where
  refused : (e : GoError) → c.cfg_err ≡ some e → Target c req
  socket :
      (path : Bytes)
      → c.cfg_err ≡ none
      → split_addr c.cfg.addr ≡ (unix, path)
      → is_empty path ≡ false
      → req.network ≡ unix
      → req.dial_address ≡ path
      → Target c req
  loopback :
      (address host : Bytes) (port : ℕ)
      → c.cfg_err ≡ none
      → split_addr c.cfg.addr ≡ (tcp, address)
      → IsAccepted address host port
      → req.network ≡ tcp
      → IsPlain req.dial_address host (format_ℕ port)
      → Target c req

-- The joined text of an accepted host and port is a plain host:port.
join_host_port-IsPlain :
    (ip : Ip) (host : Bytes) (port : ℕ)
    → IsLoopback ip host
    → IsPlain (join_host_port host port) host (format_ℕ port)
unfolding join_host_port has_colon
join_host_port-IsPlain ip host port (ipv4 b c d _ _ _ _ e) =
    named
      (ap (λ h. join_host_port h port) e
        ∙ join_host_port-quad b c d port
        ∙ ap (λ h. h ++ b':' ∷ format_ℕ port) (sym e))
      (subst (All (λ c. is_name_char c ≡ true)) (sym e) (All-dotted 127 b c d))
join_host_port-IsPlain ip host port (ipv6 _ e) =
    subst (λ h. IsPlain (join_host_port h port) h (format_ℕ port)) (sym e)
      (bracketed refl (refl, (refl, (refl, tt))))

pub dial_address-unix : (c : Client) → c.network ≡ unix → dial_address c ≡ c.address
unfolding dial_address
dial_address-unix c h =
    ap (λ n. elim n as (λ _. Bytes) [ unix ↦ c.address | tcp ↦ join_host_port c.host c.port ]) h

dial_address-tcp : (c : Client) → c.network ≡ tcp → dial_address c ≡ join_host_port c.host c.port
unfolding dial_address
dial_address-tcp c h =
    ap (λ n. elim n as (λ _. Bytes) [ unix ↦ c.address | tcp ↦ join_host_port c.host c.port ]) h

Target-of_Placed :
    (c : Client) (method path : Bytes) (payload : Option Bytes) (token : Bytes)
    → split_addr c.cfg.addr ≡ (c.network, c.address)
    → Placed c
    → Target c (http_request c method path payload token)
unfolding http_request
Target-of_Placed c method path payload token split (unplaced e h) = refused e h
Target-of_Placed c method path payload token split (on_socket h n nonempty) =
    socket c.address h (split ∙ ap (λ m. (m, c.address)) n) nonempty n (dial_address-unix c n)
Target-of_Placed c method path payload token split (on_loopback h n accepted) =
    loopback c.address c.host c.port h (split ∙ ap (λ m. (m, c.address)) n) accepted n (
      subst (λ a. IsPlain a c.host (format_ℕ c.port)) (sym (dial_address-tcp c n))
        (join_host_port-IsPlain accepted.ip c.host c.port accepted.loopback))

apply_options-cfg_err :
    (opts : List ClientOption) (c : Client) → (apply_options opts c).cfg_err ≡ c.cfg_err
unfolding apply_options apply_option
apply_options-cfg_err [] c = refl
apply_options-cfg_err (o ∷ os) c = apply_options-cfg_err os (apply_option o c) ∙ ground arith

with_target-Placed :
    (c : Client) (r : Result GoError (Bytes × ℕ))
    → c.cfg_err ≡ none
    → c.network ≡ tcp
    → parse_loopback_addr c.address ≡ r
    → ignore_value r ≡ none
    → Placed (with_target c r)
with_target-Placed c (err e) h n p v = cc
with_target-Placed c (ok (host, port)) h n p v =
    on_loopback h n (parse_loopback_addr-IsAccepted c.address host port p)

checked-Placed :
    (c : Client) (addr : Bytes) (network : Network) (address : Bytes) (v : Option GoError)
    → c.cfg_err ≡ none
    → validate_split addr (network, address) ≡ v
    → Placed (checked (record c { network = network; address = address }) v)
checked-Placed c addr network address (some e) h p = unplaced e refl
checked-Placed c addr unix address none h p = on_socket h refl (ground arith)
checked-Placed c addr tcp address none h p =
    with_target-Placed (record c { network = tcp; address = address }) _ h refl refl p

-- Only with_target and the error change behind the split of the address.
checked-cfg :
    (c : Client) (v : Option GoError)
    → c.cfg_err ≡ none
    → ((checked c v).cfg_err ≡ v)
      × ((checked c v).cfg ≡ c.cfg)
      × ((checked c v).network ≡ c.network)
      × ((checked c v).address ≡ c.address)
checked-cfg c v h = ground arith

record IsFinished (c : Client) : Type 0 where
  placed : Placed c
  split : split_addr c.cfg.addr ≡ (c.network, c.address)
  bounds : InBounds c.cfg
  validated : c.cfg_err ≡ validate_addr c.cfg.addr

finish_client-IsFinished : (c : Client) → c.cfg_err ≡ none → IsFinished (finish_client c)
unfolding finish_client validate_addr
finish_client-IsFinished c h =
    let cfg = normalized c.cfg in
    let (network, address) = split_addr cfg.addr in
    let started = record c { cfg = cfg; network = network; address = address } in
    let v = validate_addr cfg.addr in
    let (same_err, same_cfg, same_network, same_address) = checked-cfg started v h in
    record {
      placed = checked-Placed (record c { cfg = cfg }) cfg.addr network address v h refl;
      split =
          ap (λ (x : Config). split_addr x.addr) same_cfg
          ∙ ap₂ (λ (n : Network) (a : Bytes). (n, a)) (sym same_network) (sym same_address);
      bounds = subst InBounds (sym same_cfg) (normalized-InBounds c.cfg);
      validated = same_err ∙ ap (λ (x : Config). validate_addr x.addr) (sym same_cfg);
    }

-- The configuration error of a client is what ValidateAddr says.
pub new_with_config-validated :
    (cfg : Config) (opts : List ClientOption)
    → (new_with_config cfg opts).cfg_err ≡ validate_addr (new_with_config cfg opts).cfg.addr
unfolding new_with_config
new_with_config-validated cfg opts =
    (finish_client-IsFinished (apply_options opts (new_start cfg))
      (apply_options-cfg_err opts (new_start cfg))).validated

-- A client that NewWithConfig builds has timeouts within their bounds, and its configuration
-- error is what ValidateAddr says of its effective address. Without such an error, every request
-- of it is dialled at the path that SplitAddr gives for this address, a Unix socket with a non-
-- empty path; or, where SplitAddr gives a TCP address, which is then one that ParseLoopbackAddr
-- accepts, at the plain host:port of the loopback host and the port that this address names.
pub new_with_config-Target :
    (cfg : Config) (opts : List ClientOption) (method path : Bytes) (payload : Option Bytes)
    (token : Bytes)
    → Target
        (new_with_config cfg opts)
        (http_request (new_with_config cfg opts) method path payload token)
      × InBounds (new_with_config cfg opts).cfg
      × ((new_with_config cfg opts).cfg_err ≡ validate_addr (new_with_config cfg opts).cfg.addr)
unfolding new_with_config
new_with_config-Target cfg opts method path payload token =
    let c = new_with_config cfg opts in
    let f =
      finish_client-IsFinished (apply_options opts (new_start cfg))
        (apply_options-cfg_err opts (new_start cfg)) in
    (Target-of_Placed c method path payload token f.split f.placed, f.bounds, f.validated)
