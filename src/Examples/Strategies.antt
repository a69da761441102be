-- ===== src/Examples/Strategies.antt =====
-- Runs of the model of src/launcher/connect_strategy.cxx.
use sf4_netplay_launcher.Prelude.{◌≡◌, refl, true, false, [], ◌∷◌, bytes_eq, if◌then◌else◌}
use sf4_netplay_launcher.Prelude.Int.{pos}
use sf4_netplay_launcher.RoomCode.{
  trim_room_code, trim_start, trim_end, has_prefix, normalize_relay_room_code, is_short_room_code,
}
use sf4_netplay_launcher.Updater.{codes, same_text, until, behind}
use sf4_netplay_launcher.Broker.{
  BrokerEnv, scan_unsigned, scan_quad, is_blocked_broker_host_literal, parse_broker_base_url,
  check_host, check_port, split_path,
}
use sf4_netplay_launcher.Connect.{
  Object, endpoint, missing, text, number, other, object, Http, Plan, checked_endpoint,
  relay_room_answer, resolve_join_relay_room, apply_connect_plan_json, apply_transport,
  apply_endpoint, transport_from_string,
}
use sf4_netplay_launcher.Connect.Joins.{IsResolved, resolve-IsResolved}

abbrev strict : BrokerEnv
strict = record { allow_local = false; allow_http = false }

-- The broker's answer for a room at port 23456.
abbrev room : Object
room key =
    if bytes_eq key (codes "host")
    then text (codes "h.org")
    else if bytes_eq key (codes "port")
    then number (pos 23456)
    else missing

abbrev http : Http
http = record { get = λ path. object room }

resolve-IsResolved_example :
    IsResolved strict http (codes "SF4-A1B2C3") (codes "https://b.org") (codes "h.org") 23456
unfolding resolve_join_relay_room normalize_relay_room_code is_short_room_code trim_room_code
    trim_start trim_end has_prefix bytes_eq parse_broker_base_url same_text until behind split_path
    check_port check_host is_blocked_broker_host_literal scan_quad scan_unsigned relay_room_answer
    checked_endpoint
resolve-IsResolved_example =
    resolve-IsResolved strict http (codes "SF4-A1B2C3") (codes "https://b.org") (codes "h.org")
      23456 refl

-- A plan whose host has a wrong type.
abbrev broken : Object
broken key =
    if bytes_eq key (codes "transport")
    then text (codes "p2p")
    else if bytes_eq key (codes "host")
    then other
    else missing

abbrev relay_plan : Plan
relay_plan = record {
  is_ok = true;
  ggpo_transport = 1;
  ggpo_remote_host = codes "h.org";
  ggpo_remote_port = 23459;
  match_id = [];
  room_token = codes "t";
}

-- A plan that gives the peer's host and the relay's port, and no match.
abbrev half : Object
half key =
    if bytes_eq key (codes "transport")
    then text (codes "p2p")
    else if bytes_eq key (codes "peerHost")
    then text (codes "p.org")
    else if bytes_eq key (codes "ggpoPort")
    then number (pos 7000)
    else missing

-- A host that begins with a zero is taken, and leaves an empty endpoint.
zero_host : checked_endpoint (0 ∷ codes "h.org") (pos 80) ≡ endpoint [] 80
unfolding checked_endpoint until
zero_host = refl

-- The broken plan leaves the new transport with the old endpoint.
mixed : (apply_connect_plan_json broken relay_plan).0 ≡ record relay_plan { ggpo_transport = 2 }
unfolding apply_connect_plan_json apply_transport apply_endpoint transport_from_string bytes_eq
mixed = refl
