-- ===== src/Connect.antt =====
-- src/launcher/connect_strategy.cxx: how a player who joins finds the address of the session, and the
-- plan of the broker for GGPO. What the HTTP requests give is an argument.
pub mod Joins
pub mod Plans
use sf4_netplay_launcher.Prelude.{
  ℕ, zero, suc, ◌%◌, ◌^◌, ◌++◌, Bool, true, false, not, ◌&&◌, ◌||◌, Option, none, some, [], ◌∷◌,
  Bytes, bytes_eq, ltb, leb, ◌==◌, if◌then◌else◌,
}
use sf4_netplay_launcher.Prelude.Int.{ℤ, pos, negsuc}
use sf4_netplay_launcher.RoomCode.{
  truncate, is_nil, is_short_room_code, parse_room_code, normalize_relay_room_code,
}
use sf4_netplay_launcher.Updater.{codes, until}
use sf4_netplay_launcher.Broker.{
  BrokerEnv, BrokerUrlParts, ParseResult, refused, invalid_parameter, parsed, parse_broker_base_url,
}

-- The values of a JSON object that are read; a number is what its conversion to int gives.
pub data Field : Type 0 where
  missing other : Field
  text : Bytes → Field
  number : ℤ → Field
  flag : Bool → Field

abbrev pub Object : Type 0
Object = Bytes → Field

-- `j.value(key, default)` by the type of the default; `none` where it throws.
abbrev pub get_text : Object → Bytes → Bytes → Option Bytes
get_text j key default = elim (j key) [
  | missing ↦ some default
  | text t ↦ some t
  | other ↦ none
  | number n ↦ none
  | flag b ↦ none
]

abbrev pub get_int : Object → Bytes → ℤ → Option ℤ
get_int j key default = elim (j key) [
  | missing ↦ some default
  | number n ↦ some n
  | flag b ↦ some (if b then pos 1 else pos 0)
  | text t ↦ none
  | other ↦ none
]

-- The body of a response: none came, it is no JSON object, or it is one.
pub data Reply : Type 0 where
  unreachable unreadable : Reply
  object : Object → Reply

-- The broker, by the path of the request.
pub record Http : Type 0 where
  pub get : Bytes → Reply

-- The errors, named for their texts; `said` is the broker's own.
pub data Error : Type 0 where
  enter_code needs_relay invalid_address invalid_code no_broker_url broker_unreachable : Error
  invalid_data invalid_endpoint no_room runs_on_host : Error
  said : Bytes → Error

pub data StrategyResult : Type 0 where
  endpoint : Bytes → ℕ → StrategyResult
  failed : Error → StrategyResult
  process_ends : StrategyResult

abbrev pub address_result : Option (Bytes × ℕ) → StrategyResult
address_result none = failed invalid_address
address_result (some (host, port)) = endpoint host port

unfoldable pub resolve_join_direct_ip : Bytes → StrategyResult
resolve_join_direct_ip room_code =
    if is_nil room_code
    then failed enter_code
    else if is_short_room_code room_code
    then failed needs_relay
    else address_result (parse_room_code room_code 64)

unfoldable pub resolve_join_auto_nat : StrategyResult
resolve_join_auto_nat = failed runs_on_host

-- `c_str()`, of which the functions of C read what stands in front of the first zero.
abbrev pub c_str : Bytes → Bytes
c_str s = until 0 s

-- The host and the port of a response, after their checks.
unfoldable pub checked_endpoint : Bytes → ℤ → StrategyResult
checked_endpoint host (negsuc n) = failed invalid_endpoint
checked_endpoint host (pos port) =
    if is_nil host || ltb port 1 || ltb 65535 port
    then failed invalid_endpoint
    else endpoint (truncate 64 (c_str host)) (port % 2 ^ 16)

abbrev pub both : Option Bytes → Option ℤ → (Bytes → ℤ → StrategyResult) → StrategyResult
both none port f = failed invalid_data
both (some host) none f = failed invalid_data
both (some host) (some port) f = f host port

abbrev pub said_by : Option Bytes → StrategyResult
said_by none = failed invalid_data
said_by (some message) = failed (said message)

abbrev pub room_not_found : Bytes
room_not_found = codes "Room not found or expired. Ask the host to create a new SF4- room code."

-- The error of the broker, if it has one, and what is to be done otherwise.
abbrev pub unless_error : Object → Bytes → Option Bytes → StrategyResult → StrategyResult
unless_error j default none r = failed invalid_data
unless_error j default (some error) r =
    if is_nil error then r else said_by (get_text j (codes "message") default)

unfoldable pub relay_room_answer : Reply → StrategyResult
relay_room_answer unreachable = failed broker_unreachable
relay_room_answer unreadable = failed invalid_data
relay_room_answer (object j) =
    unless_error j room_not_found (get_text j (codes "error") [])
      (both (get_text j (codes "host") []) (get_int j (codes "port") (pos 0)) checked_endpoint)

abbrev pub ask_relay_room : Http → Bytes → ParseResult → StrategyResult
ask_relay_room http code refused = failed no_broker_url
ask_relay_room http code invalid_parameter = process_ends
ask_relay_room http code (parsed parts) = relay_room_answer (http.get (codes "/v1/rooms/" ++ code))

abbrev pub with_code : BrokerEnv → Http → Bytes → Option Bytes → StrategyResult
with_code e http url none = failed invalid_code
with_code e http url (some code) = ask_relay_room http code (parse_broker_base_url e url)

unfoldable pub resolve_join_relay_room : BrokerEnv → Http → Bytes → Bytes → StrategyResult
resolve_join_relay_room e http room_code url =
    if is_nil room_code
    then failed enter_code
    else with_code e http url (normalize_relay_room_code room_code 32)

-- ConnectPlanResult without the error.
pub record Plan : Type 0 where
  pub is_ok : Bool
  pub ggpo_transport : ℕ
  pub ggpo_remote_host : Bytes
  pub ggpo_remote_port : ℕ
  pub match_id : Bytes
  pub room_token : Bytes

unfoldable pub transport_from_string : Bytes → ℕ
transport_from_string transport =
    if bytes_eq transport (codes "udp_relay")
    then 1
    else if bytes_eq transport (codes "p2p")
    then 2
    else 0

abbrev pub is_p2p : Bytes → Bool
is_p2p transport = bytes_eq transport (codes "p2p")

-- A step of ApplyConnectPlanJson: it throws where the value is not to be had, and leaves the plan as
-- it is by then; the Boolean says that it does not.
abbrev pub with_text : Option Bytes → Plan → (Bytes → Plan × Bool) → Plan × Bool
with_text none p f = (p, false)
with_text (some t) p f = f t

abbrev pub with_int : Option ℤ → Plan → (ℤ → Plan × Bool) → Plan × Bool
with_int none p f = (p, false)
with_int (some n) p f = f n

unfoldable pub set_host : Bytes → Plan → Plan
set_host t p = if is_nil t then p else record p { ggpo_remote_host = truncate 64 (c_str t) }

unfoldable pub set_match_id : Bytes → Plan → Plan
set_match_id t p = if is_nil t then p else record p { match_id = truncate 33 (c_str t) }

unfoldable pub set_token : Bytes → Plan → Plan
set_token t p = if is_nil t then p else record p { room_token = truncate 33 (c_str t) }

abbrev pub is_port : ℤ → Bool
is_port (pos n) = ltb 0 n
is_port (negsuc n) = false

unfoldable pub set_port : ℤ → Plan → Plan
set_port (negsuc n) p = p
set_port (pos n) p = if ltb 0 n then record p { ggpo_remote_port = n % 2 ^ 16 } else p

-- A second key where the first gives nothing; the default of the first is 0, or the empty text.
abbrev pub else_int : Bool → Option ℤ → Option ℤ → Option ℤ
else_int again none second = none
else_int again (some n) second = if is_port n || not again then some n else second

abbrev pub else_text : Bool → Option Bytes → Option Bytes → Option Bytes
else_text again none second = none
else_text again (some t) second = if not (is_nil t) || not again then some t else second

-- The default is computed first.
abbrev pub host_field : Object → Option Bytes
host_field j = elim (get_text j (codes "host") []) [
  | none ↦ none
  | some t ↦ get_text j (codes "ggpoRemoteHost") t
]

abbrev pub port_field : Object → Bytes → Option ℤ
port_field j transport =
    else_int (is_p2p transport)
      (else_int true (get_int j (codes "ggpoRemotePort") (pos 0))
        (get_int j (codes "ggpoPort") (pos 0)))
      (get_int j (codes "peerPort") (pos 0))

unfoldable pub finish_plan : Bytes → Plan → Plan × Bool
finish_plan t p = (record (set_token t p) { is_ok = true }, true)

unfoldable pub apply_token : Object → Plan → Plan × Bool
apply_token j p = with_text (get_text j (codes "roomToken") []) p (λ t. finish_plan t p)

unfoldable pub apply_match_id : Object → Plan → Plan × Bool
apply_match_id j p =
    with_text (get_text j (codes "matchId") []) p (λ t. apply_token j (set_match_id t p))

unfoldable pub apply_port : Object → Bytes → Plan → Plan × Bool
apply_port j transport p =
    with_int (port_field j transport) p (λ n. apply_match_id j (set_port n p))

abbrev pub remote_host_field : Object → Bytes → Option Bytes
remote_host_field j transport =
    else_text (is_p2p transport) (host_field j) (get_text j (codes "peerHost") [])

unfoldable pub apply_endpoint : Object → Bytes → Plan → Plan × Bool
apply_endpoint j transport p =
    with_text (remote_host_field j transport) p (λ t. apply_port j transport (set_host t p))

unfoldable pub apply_transport : Object → Bytes → Plan → Plan × Bool
apply_transport j t p = apply_endpoint j t (record p { ggpo_transport = transport_from_string t })

unfoldable pub apply_connect_plan_json : Object → Plan → Plan × Bool
apply_connect_plan_json j p =
    with_text (get_text j (codes "transport") (codes "legacy_session_tunnel")) p
      (λ t. apply_transport j t p)
