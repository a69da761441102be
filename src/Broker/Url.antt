-- ===== src/Broker/Url.antt =====
-- What ParseBrokerBaseUrl of src/launcher/netplay/room_broker_client.cxx lets through.
use sf4_netplay_launcher.Prelude.{
  ℕ, ◌≤◌, ◌≡◌, subst, true, false, not, ◌&&◌, ◌||◌, Bool, Option, none, some, Bytes, arith,
  if_cases, ltb, leb, length, drop,
}
use sf4_netplay_launcher.Prelude.Int.{ℤ, pos, negsuc}
use sf4_netplay_launcher.RoomCode.{truncate, trim_room_code, is_nil}
use sf4_netplay_launcher.Updater.{codes, begins_with, until}
use sf4_netplay_launcher.Broker.{
  BrokerEnv, is_blocked_broker_host_literal, BrokerUrlParts, ParseResult, refused,
  invalid_parameter, parsed, check_host, check_port, split_path, parse_broker_base_url,
}

-- Parts that a request may be sent to.
pub record IsSafe (e : BrokerEnv) (p : BrokerUrlParts) : Type 0 where
  pub named : is_nil p.host ≡ false
  pub public : is_blocked_broker_host_literal e.allow_local p.host ≡ false
  pub low : 1 ≤ p.port
  pub high : p.port ≤ 65535
  pub encrypted : p.https || e.allow_http ≡ true

IsSafeResult : BrokerEnv → ParseResult → Type 0
IsSafeResult e refused = Unit
IsSafeResult e invalid_parameter = Unit
IsSafeResult e (parsed p) = IsSafe e p

check_host-IsSafe :
    (e : BrokerEnv) (https : Bool) (host : Bytes) (port : ℕ) (path : Bytes)
    → 1 ≤ port
    → port ≤ 65535
    → IsSafeResult e (check_host e https host port path)
unfolding check_host IsSafeResult
check_host-IsSafe e https host port path low high =
    if_cases (IsSafeResult e) (is_nil host) _ _ (λ h. tt)
      (λ h.
        if_cases (IsSafeResult e) (is_blocked_broker_host_literal e.allow_local host) _ _ (λ k. tt)
          (λ k.
            if_cases (IsSafeResult e) (not https && not e.allow_http) _ _ (λ l. tt)
              (λ l. record {
                named = h;
                public = k;
                low = low;
                high = high;
                encrypted = ground arith;
              })))

check_port-IsSafe :
    (e : BrokerEnv) (https : Bool) (path host : Bytes) (port : Option ℤ)
    → IsSafeResult e (check_port e https path host port)
unfolding check_port IsSafeResult
check_port-IsSafe e true path host none =
    check_host-IsSafe e true host 443 path (omega arith) (omega arith)
check_port-IsSafe e false path host none =
    check_host-IsSafe e false host 80 path (omega arith) (omega arith)
check_port-IsSafe e https path host (some (negsuc n)) = tt
check_port-IsSafe e https path host (some (pos port)) =
    if_cases (IsSafeResult e) (ltb port 1 || ltb 65535 port) _ _ (λ h. tt)
      (λ h. check_host-IsSafe e https host port path (ground arith) (ground arith))

split_path-IsSafe :
    (e : BrokerEnv) (https : Bool) (p : Bytes) (path : Option Bytes)
    → IsSafeResult e (split_path e https p path)
unfolding split_path IsSafeResult
split_path-IsSafe e https p none = check_port-IsSafe e https _ _ _
split_path-IsSafe e https p (some path) =
    if_cases (IsSafeResult e) (leb 256 (length (until b'/' p))) _ _ (λ h. tt)
      (λ h. check_port-IsSafe e https _ _ _)

parse-IsSafe :
    (e : BrokerEnv) (base_url : Bytes) → IsSafeResult e (parse_broker_base_url e base_url)
unfolding parse_broker_base_url IsSafeResult
parse-IsSafe e base_url =
    let buf = trim_room_code (truncate 512 base_url) in
    if_cases (IsSafeResult e) (is_nil buf) _ _ (λ h. tt)
      (λ h.
        if_cases (IsSafeResult e) (begins_with buf (codes "https://")) _ _
          (λ k. split_path-IsSafe e true (drop 8 buf) _)
          (λ k.
            if_cases (IsSafeResult e) (begins_with buf (codes "http://")) _ _
              (λ l. split_path-IsSafe e false (drop 7 buf) _) (λ l. tt)))

-- The parts that the base URL of a broker is taken apart to, whatever the URL: the host is there and
-- is none of those that are blocked, the port is one, and without HTTPS the environment allows it.
pub parsed-IsSafe :
    (e : BrokerEnv) (base_url : Bytes) (p : BrokerUrlParts)
    → parse_broker_base_url e base_url ≡ parsed p
    → IsSafe e p
unfolding IsSafeResult
parsed-IsSafe e base_url p h = subst (IsSafeResult e) h (parse-IsSafe e base_url)
