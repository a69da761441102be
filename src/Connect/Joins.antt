-- ===== src/Connect/Joins.antt =====
-- The endpoints of ResolveJoinRelayRoom in src/launcher/connect_strategy.cxx.
use sf4_netplay_launcher.Prelude.{
  ℕ, ◌%◌, ◌^◌, ◌≤◌, ◌≡◌, refl, subst, sym, ◌∙◌, true, false, ◌||◌, Option, none, some, [], ◌∷◌,
  ◌++◌, Bytes, arith, if_cases, ltb,
}
use sf4_netplay_launcher.Prelude.Int.{ℤ, pos, negsuc}
use sf4_netplay_launcher.RoomCode.{is_nil, truncate, normalize_relay_room_code}
use sf4_netplay_launcher.Updater.{codes}
use sf4_netplay_launcher.Broker.{
  BrokerEnv, BrokerUrlParts, ParseResult, refused, invalid_parameter, parsed, parse_broker_base_url,
}
use sf4_netplay_launcher.Broker.Url.{IsSafe, parsed-IsSafe}
use sf4_netplay_launcher.Connect.{
  Object, get_text, get_int, Reply, unreachable, unreadable, object, Http, StrategyResult, endpoint,
  failed, process_ends, c_str, checked_endpoint, both, said_by, room_not_found, unless_error,
  relay_room_answer, ask_relay_room, with_code, resolve_join_relay_room,
}

-- The endpoint of an answer: the answer has no error, a host that is not empty, of which the endpoint
-- has what stands in front of the first zero, cut to its buffer, and the port.
pub record IsAnswer (j : Object) (host : Bytes) (port : ℕ) : Type 0 where
  pub accepted : get_text j (codes "error") [] ≡ some []
  pub sent : Bytes
  pub has_host : get_text j (codes "host") [] ≡ some sent
  pub filled : is_nil sent ≡ false
  pub copied : host ≡ truncate 64 (c_str sent)
  pub has_port : get_int j (codes "port") (pos 0) ≡ some (pos port)
  pub low : 1 ≤ port
  pub high : port ≤ 65535

IsGood : (Bytes → ℕ → Type 0) → StrategyResult → Type 0
IsGood Q (endpoint host port) = Q host port
IsGood Q (failed e) = Unit
IsGood Q process_ends = Unit

narrow : (port : ℕ) → port ≤ 65535 → port % 2 ^ 16 ≡ port
narrow port h = omega (arith, h)

checked-IsGood :
    (j : Object) (sent : Bytes) (n : ℤ)
    → get_text j (codes "error") [] ≡ some []
    → get_text j (codes "host") [] ≡ some sent
    → get_int j (codes "port") (pos 0) ≡ some n
    → IsGood (IsAnswer j) (checked_endpoint sent n)
unfolding IsGood checked_endpoint
checked-IsGood j sent (negsuc n) a h k = tt
checked-IsGood j sent (pos port) a h k =
    if_cases (IsGood (IsAnswer j)) (is_nil sent || ltb port 1 || ltb 65535 port) _ _ (λ e. tt)
      (λ e.
        subst (IsAnswer j (truncate 64 (c_str sent))) (sym (narrow port (ground arith))) (record {
          accepted = a;
          sent = sent;
          has_host = h;
          filled = ground arith;
          copied = refl;
          has_port = k;
          low = ground arith;
          high = ground arith;
        }))

both-IsGood :
    (j : Object) (o : Option Bytes) (n : Option ℤ)
    → get_text j (codes "error") [] ≡ some []
    → get_text j (codes "host") [] ≡ o
    → get_int j (codes "port") (pos 0) ≡ n
    → IsGood (IsAnswer j) (both o n checked_endpoint)
unfolding IsGood
both-IsGood j none n a h k = tt
both-IsGood j (some host) none a h k = tt
both-IsGood j (some host) (some port) a h k = checked-IsGood j host port a h k

said-IsGood : (Q : Bytes → ℕ → Type 0) (o : Option Bytes) → IsGood Q (said_by o)
unfolding IsGood
said-IsGood Q none = tt
said-IsGood Q (some t) = tt

nil_lem : (s : Bytes) → is_nil s ≡ true → some s ≡ some []
nil_lem [] h = refl
nil_lem (c ∷ cs) h = absurd (ground (arith, h))

unless-IsGood :
    (j : Object) (default : Bytes) (o : Option Bytes) (r : StrategyResult)
    → get_text j (codes "error") [] ≡ o
    → (get_text j (codes "error") [] ≡ some [] → IsGood (IsAnswer j) r)
    → IsGood (IsAnswer j) (unless_error j default o r)
unfolding IsGood
unless-IsGood j default none r e h = tt
unless-IsGood j default (some error) r e h =
    if_cases (IsGood (IsAnswer j)) (is_nil error) r _ (λ k. h (e ∙ nil_lem error k))
      (λ k. said-IsGood (IsAnswer j) _)

-- The code is one, the broker's address is safe, and the endpoint is that of the broker's answer.
pub record IsResolved (e : BrokerEnv) (http : Http) (room_code url host : Bytes) (port : ℕ)
    : Type 0 where
  pub code : Bytes
  pub normal : normalize_relay_room_code room_code 32 ≡ some code
  pub parts : BrokerUrlParts
  pub safe : IsSafe e parts
  pub body : Object
  pub asked : http.get (codes "/v1/rooms/" ++ code) ≡ object body
  pub answer : IsAnswer body host port

answer-IsGood :
    (Q : Bytes → ℕ → Type 0) (reply : Reply)
    → ((j : Object)
        → reply ≡ object j
        → (host : Bytes) (port : ℕ) → IsAnswer j host port
        → Q host port)
    → IsGood Q (relay_room_answer reply)
unfolding IsGood relay_room_answer
answer-IsGood Q unreachable f = tt
answer-IsGood Q unreadable f = tt
answer-IsGood Q (object j) f =
    let host = get_text j (codes "host") [] in
    let port = get_int j (codes "port") (pos 0) in
    weaken
      (unless_error j room_not_found (get_text j (codes "error") [])
        (both host port checked_endpoint))
      (unless-IsGood j room_not_found (get_text j (codes "error") [])
        (both host port checked_endpoint) refl (λ a. both-IsGood j host port a refl refl))
  where
    weaken : (r : StrategyResult) → IsGood (IsAnswer j) r → IsGood Q r
    weaken (endpoint h p) k = f j refl h p k
    weaken (failed e) k = tt
    weaken process_ends k = tt

ask-IsGood :
    (e : BrokerEnv) (http : Http) (room_code url code : Bytes) (r : ParseResult)
    → normalize_relay_room_code room_code 32 ≡ some code
    → parse_broker_base_url e url ≡ r
    → IsGood (IsResolved e http room_code url) (ask_relay_room http code r)
unfolding IsGood
ask-IsGood e http room_code url code refused n h = tt
ask-IsGood e http room_code url code invalid_parameter n h = tt
ask-IsGood e http room_code url code (parsed parts) n h =
    answer-IsGood (IsResolved e http room_code url) (http.get (codes "/v1/rooms/" ++ code))
      (λ j k host port a. record {
        code = code;
        normal = n;
        parts = parts;
        safe = parsed-IsSafe e url parts h;
        body = j;
        asked = k;
        answer = a;
      })

with_code-IsGood :
    (e : BrokerEnv) (http : Http) (room_code url : Bytes) (o : Option Bytes)
    → normalize_relay_room_code room_code 32 ≡ o
    → IsGood (IsResolved e http room_code url) (with_code e http url o)
unfolding IsGood
with_code-IsGood e http room_code url none n = tt
with_code-IsGood e http room_code url (some code) n =
    ask-IsGood e http room_code url code (parse_broker_base_url e url) n refl

-- An endpoint that a room code is resolved to comes from the broker's answer for this code: the code
-- is a room code, the broker has a safe address, and its answer has no error, a host that is not
-- empty and a port from 1 to 65535, which is the endpoint's. The endpoint's host is that of the answer
-- up to the first zero character and cut to 63 characters, so that it is empty where a zero comes
-- first.
pub resolve-IsResolved :
    (e : BrokerEnv) (http : Http) (room_code url host : Bytes) (port : ℕ)
    → resolve_join_relay_room e http room_code url ≡ endpoint host port
    → IsResolved e http room_code url host port
unfolding IsGood resolve_join_relay_room
resolve-IsResolved e http room_code url host port h =
    subst (IsGood (IsResolved e http room_code url)) h (
      if_cases (IsGood (IsResolved e http room_code url)) (is_nil room_code) _ _ (λ k. tt)
        (λ k. with_code-IsGood e http room_code url (normalize_relay_room_code room_code 32) refl))
