-- ===== src/Connect/Plans.antt =====
-- The plan that ApplyConnectPlanJson of src/launcher/connect_strategy.cxx leaves.
use sf4_netplay_launcher.Prelude.{
  ℕ, ◌-◌, ◌%◌, ◌^◌, ◌≡◌, true, Option, none, some, [], ◌∷◌, Bytes, List, ◌==◌, if◌then◌else◌, take,
}
use sf4_netplay_launcher.Prelude.Int.{ℤ, pos, negsuc}
use sf4_netplay_launcher.RoomCode.{is_nil}
use sf4_netplay_launcher.Updater.{codes}
use sf4_netplay_launcher.Connect.{
  Object, get_text, get_int, c_str, Plan, transport_from_string, is_p2p,
}

-- The first text of some that is not empty, and the first number that is a port.
abbrev pub first_text : List Bytes → Option Bytes
first_text [] = none
first_text (t ∷ ts) = if is_nil t then first_text ts else some t

abbrev pub first_port : List ℤ → Option ℕ
first_port [] = none
first_port (negsuc n ∷ ns) = first_port ns
first_port (pos n ∷ ns) = if n == 0 then first_port ns else some (n % 2 ^ 16)

-- What a buffer of `k` characters holds then; what was there before, where there is no text.
abbrev pub stored : ℕ → Option Bytes → Bytes → Bytes
stored k none old = old
stored k (some t) old = take (k - 1) (c_str t)

abbrev pub port_or : Option ℕ → ℕ → ℕ
port_or none old = old
port_or (some n) old = n

-- The values of a broker's plan, with the defaults of what is missing. The host is that of
-- "ggpoRemoteHost", and that of "host" where there is none.
pub record Values (j : Object) : Type 0 where
  pub transport : Bytes
  pub host : Bytes
  pub plain_host : Bytes
  pub peer_host : Bytes
  pub match_id : Bytes
  pub room_token : Bytes
  pub remote_port : ℤ
  pub ggpo_port : ℤ
  pub peer_port : ℤ
  pub has_transport :
      get_text j (codes "transport") (codes "legacy_session_tunnel") ≡ some transport
  pub has_plain : get_text j (codes "host") [] ≡ some plain_host
  pub has_host : get_text j (codes "ggpoRemoteHost") plain_host ≡ some host
  pub has_peer : get_text j (codes "peerHost") [] ≡ some peer_host
  pub has_remote : get_int j (codes "ggpoRemotePort") (pos 0) ≡ some remote_port
  pub has_ggpo : get_int j (codes "ggpoPort") (pos 0) ≡ some ggpo_port
  pub has_peer_port : get_int j (codes "peerPort") (pos 0) ≡ some peer_port
  pub has_match : get_text j (codes "matchId") [] ≡ some match_id
  pub has_token : get_text j (codes "roomToken") [] ≡ some room_token

-- The peer's own endpoint counts for a plan of the transport p2p alone.
abbrev pub hosts : {j : Object} → Values j → List Bytes
hosts v = v.host ∷ (if is_p2p v.transport then v.peer_host ∷ [] else [])

abbrev pub ports : {j : Object} → Values j → List ℤ
ports v = v.remote_port ∷ v.ggpo_port ∷ (if is_p2p v.transport then v.peer_port ∷ [] else [])

-- What the plan is to be.
abbrev pub merged : {j : Object} → Values j → Plan → Plan
merged v p = record {
  is_ok = true;
  ggpo_transport = transport_from_string v.transport;
  ggpo_remote_host = stored 64 (first_text (hosts v)) p.ggpo_remote_host;
  ggpo_remote_port = port_or (first_port (ports v)) p.ggpo_remote_port;
  match_id = stored 33 (first_text (v.match_id ∷ [])) p.match_id;
  room_token = stored 33 (first_text (v.room_token ∷ [])) p.room_token;
}
