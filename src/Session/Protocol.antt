-- ===== src/Session/Protocol.antt =====
-- src/session/sf4e__SessionProtocol.hxx and .cxx: the data that client and server exchange.
-- Texts are lists of bytes; the JSON library and the wire names of the enums are not modelled.
pub mod LobbyIds
use sf4_netplay_launcher.Prelude.{
  ℕ, ◌+◌, ◌-◌, ◌%◌, Bool, true, false, not, ◌&&◌, ◌||◌, Option, List, [], ◌∷◌, Bytes, bytes_eq,
  ◌==◌, if◌then◌else◌,
}
use sf4_netplay_launcher.Prelude.Int.{ℤ, pos, negsuc}

pub record ConnectionId : Type 0 where
  pub host : Bytes
  pub user : Bytes

-- `operator==` of ConnectionID.
unfoldable pub conn_id_eq : ConnectionId → ConnectionId → Bool
conn_id_eq a b = bytes_eq a.host b.host && bytes_eq a.user b.user

pub record LobbyId : Type 0 where
  pub host : Bytes
  pub key : Bytes

abbrev pub is_empty : Bytes → Bool
is_empty [] = true
is_empty (c ∷ cs) = false

-- `operator==` of LobbyID: all unreachable lobbies are the null lobby.
unfoldable pub lobby_id_eq : LobbyId → LobbyId → Bool
lobby_id_eq a b =
    if is_empty a.host || is_empty a.key
    then is_empty b.host || is_empty b.key
    else bytes_eq a.host b.host && bytes_eq a.key b.key

pub record FixedPoint : Type 0 where
  pub fractional : ℕ
  pub integral : ℤ

pub record MemberData : Type 0 where
  pub conn_id : ConnectionId
  pub name : Bytes
  pub ip : Bytes
  pub port : ℕ
  pub flags : ℕ

pub record LobbyData : Type 0 where
  pub id : LobbyId
  pub edition_select : Bool
  pub round_count : ℤ
  pub round_time : FixedPoint
  pub training_mode : Bool
  pub members : List MemberData

-- ConfirmedCharaConditions of src/Dimps/Dimps__GameEvents.hxx, whose fields are bytes.
pub record CharaConditions : Type 0 where
  pub chara_id : ℕ
  pub costume : ℕ
  pub color : ℕ
  pub unused : ℕ
  pub personal_action : ℕ
  pub win_quote : ℕ
  pub ultra_combo : ℕ
  pub handicap : ℕ
  pub unc_edition : ℕ

-- The arrays of two are pairs of fields.
pub record MatchData : Type 0 where
  pub ready0 : ℤ
  pub ready1 : ℤ
  pub chara0 : CharaConditions
  pub chara1 : CharaConditions
  pub stage_id : ℤ
  pub rng_seed : ℕ

abbrev pub null_lobby : LobbyData
null_lobby = record {
  id = record { host = []; key = [] };
  edition_select = false;
  round_count = pos 0;
  round_time = record { fractional = 0; integral = pos 0 };
  training_mode = false;
  members = [];
}

-- What memset writes.
abbrev pub no_chara : CharaConditions
no_chara = record {
  chara_id = 0;
  costume = 0;
  color = 0;
  unused = 0;
  personal_action = 0;
  win_quote = 0;
  ultra_combo = 0;
  handicap = 0;
  unc_edition = 0;
}

-- MatchData::Clear
unfoldable pub clear : MatchData → MatchData
clear m = record {
  ready0 = negsuc 0;
  ready1 = negsuc 0;
  chara0 = no_chara;
  chara1 = no_chara;
  stage_id = negsuc 0;
  rng_seed = 0xffffffff;
}

-- MatchData::ClearReady
unfoldable pub clear_ready : MatchData → MatchData
clear_ready m = record m { ready0 = negsuc 0; ready1 = negsuc 0 }

abbrev pub is_unset : ℤ → Bool
is_unset (pos n) = false
is_unset (negsuc n) = n == 0

-- MatchData::IsAllReady
unfoldable pub is_all_ready : MatchData → Bool
is_all_ready m = not (is_unset m.ready0) && not (is_unset m.ready1)

-- `flags | MF_BATTLE_LOADED`, `flags & ~MF_BATTLE_LOADED` and `flags & MF_BATTLE_LOADED`: the flag is
-- the lowest bit.
abbrev pub set_loaded : ℕ → ℕ
set_loaded flags = flags - flags % 2 + 1

abbrev pub clear_loaded : ℕ → ℕ
clear_loaded flags = flags - flags % 2

abbrev pub is_loaded : ℕ → Bool
is_loaded flags = flags % 2 == 1

pub data JoinResult : Type 0 where
  join_ok request_invalid lobby_full name_taken hash_invalid : JoinResult

pub record JoinRequest : Type 0 where
  pub sidecar_hash : Bytes
  pub username : Bytes
  pub port : ℕ

pub record Settings : Type 0 where
  pub edition_select : Bool
  pub round_count : ℤ
  pub round_time : FixedPoint
  pub training_mode : Bool

-- The addresses of a ForwardMessage and of a BattleGgpoFrame.
pub record Addressed : Type 0 where
  pub src : ConnectionId
  pub dest : ConnectionId

-- A message after parsing: its type, and its fields if the JSON library could read them (`none`
-- where `get_to` throws). `other` stands for the types that the server does not handle; a type that
-- the JSON library does not know is read as the first of the enum, `hello`.
pub data Body : Type 0 where
  not_json no_type hello : Body
  forward ggpo_frame : Option Addressed → Body
  join_request : Option JoinRequest → Body
  set_chara : Option CharaConditions → Body
  set_env : Option ℕ → Body
  set_stage report_results : Option ℤ → Body
  set_settings : Option Settings → Body
  lobby_ready : Bool → Body
  battle_loaded lobby_reset battle_snapshot battle_hash punch_ready other : Body
