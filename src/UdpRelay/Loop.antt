-- ===== src/UdpRelay/Loop.antt =====
-- The main loop of src/relay/ggpo_udp_relay.cxx: one iteration as a function of what `select`,
-- the clock and `recvfrom` return. Logging is left out.
use Prim.Native.Nat.{bit_or}
use sf4_netplay_launcher.Prelude.{
  ℕ, ◌+◌, ◌-◌, ◌*◌, ◌%◌, ◌^◌, Bool, true, false, not, ◌&&◌, Option, none, some, List, [], ◌∷◌,
  Bytes, drop, get_or, length, ltb, ◌==◌, if◌then◌else◌,
}
use sf4_netplay_launcher.Prelude.Int.{ℤ, pos, negsuc}
use sf4_netplay_launcher.UdpRelay.{
  SockaddrIn, Endpoint, Slot, slot0, slot1, Slots, at, put, peer, GenerationKey, GenerationState,
  no_generation, same_endpoint, same_generation, both_slots_active, reset_generation,
  find_slot_by_endpoint, found, find_slot_by_ip, find_slot_for_registration, no_slots,
}
use sf4_netplay_launcher.UdpRelay.Token.{token_matches}
use sf4_netplay_launcher.UdpRelay.Packet.{
  resp_health, resp_registered, resp_waiting, read_u64_be, is_health, is_reg_legacy, is_reg_v2,
  is_reg_v3,
}

-- The local variables that live across iterations.
pub record Relay : Type 0 where
  pub slots : Slots
  pub active_generation : GenerationState
  pub pending_generation : GenerationState
  pub last_traffic_ms : ℕ

pub record Config : Type 0 where
  pub room_token : Bytes
  pub idle_exit_sec : ℤ
  pub htons : ℕ → ℕ

pub record Datagram : Type 0 where
  pub buf : Bytes
  pub from : SockaddrIn

-- A call of `sendto`.
pub record Send : Type 0 where
  pub payload : Bytes
  pub dest : SockaddrIn

unfoldable pub init : ℕ → Relay
init now_ms = record {
  slots = no_slots;
  active_generation = no_generation;
  pending_generation = no_generation;
  last_traffic_ms = now_ms;
}

abbrev pub registered_at : SockaddrIn → Endpoint
registered_at from = record { addr = from; active = true }

abbrev pub reply : Bytes → SockaddrIn → List Send
reply payload dest = record { payload = payload; dest = dest } ∷ []

-- `playerSlot > 1` is refused.
abbrev pub player_slot : ℕ → Option Slot
player_slot n = if n == 0 then some slot0 else if n == 1 then some slot1 else none

abbrev pub v3_key : Bytes → GenerationKey
v3_key buf = record {
  ready0 = read_u64_be (drop 38 buf);
  ready1 = read_u64_be (drop 46 buf);
  valid = true;
}

abbrev pub register_slot : GenerationState → Slot → SockaddrIn → GenerationState
register_slot g i from = record g { slots = put g.slots i (registered_at from) }

-- `!isPending && BothSlotsActive(target->slots) ? kRespRegistered : kRespWaiting`
abbrev pub answer : Bool → Bytes
answer registered = if registered then resp_registered else resp_waiting

-- The registration's target is the active generation.
unfoldable pub register_active : Relay → Slot → SockaddrIn → Relay × List Send
unfolding both_slots_active
register_active r i from =
    let g = register_slot r.active_generation i from in
    (record r { active_generation = g }, reply (answer (both_slots_active g.slots)) from)

-- The pending generation, reset first if it has another key.
unfoldable pub pending_target : Relay → GenerationKey → GenerationState
unfolding same_generation reset_generation
pending_target r key =
    if same_generation r.pending_generation.key key
    then r.pending_generation
    else reset_generation key

-- The pending generation becomes the active one as soon as both of its slots are active.
unfoldable pub promote : Relay → GenerationState → SockaddrIn → Relay × List Send
unfolding both_slots_active
promote r g from =
    if both_slots_active g.slots
    then (
      record r { active_generation = g; pending_generation = no_generation },
      reply (answer (both_slots_active g.slots)) from,
    )
    else (record r { pending_generation = g }, reply (answer false) from)

-- The registration's target is the pending generation.
unfoldable pub register_pending : Relay → GenerationKey → Slot → SockaddrIn → Relay × List Send
unfolding promote pending_target
register_pending r key i from = promote r (register_slot (pending_target r key) i from) from

-- The branch `if (isRegV3)`.
unfoldable pub handle_v3 : Config → Relay → Datagram → Relay × List Send
handle_v3 c r d =
    if not (token_matches c.room_token (drop 4 d.buf))
    then (r, [])
    else elim (player_slot (get_or d.buf 37 0)) [
      | none ↦ (r, [])
      | some i ↦
          if same_generation r.active_generation.key (v3_key d.buf)
          then register_active r i d.from
          else register_pending r (v3_key d.buf) i d.from
    ]

-- `(uint16_t)((buf[36] << 8) | buf[37])` for version 2, else 0.
abbrev pub declared_port : Bytes → Bool → ℕ
declared_port buf v2 = if v2 then bit_or (get_or buf 36 0 * 2 ^ 8) (get_or buf 37 0) % 2 ^ 16 else 0

-- After a rematch rebinds a slot its peer must register again.
abbrev pub invalidate : Bool → Slots → Slot → Slots
invalidate rebind slots i =
    if rebind
    then (if (at slots (peer i)).active
        then put slots (peer i) (record (at slots (peer i)) { active = false })
        else slots)
    else slots

unfoldable pub bind_legacy : Relay → Slot → SockaddrIn → Relay × List Send
unfolding same_endpoint both_slots_active
bind_legacy r i from =
    let rematch_rebind = (at r.slots i).active && not (same_endpoint (at r.slots i).addr from) in
    let slots = invalidate rematch_rebind (put r.slots i (registered_at from)) i in
    (record r { slots = slots }, reply (answer (both_slots_active slots)) from)

-- The branch `if (isRegLegacy || isRegV2)`.
unfoldable pub handle_legacy : Config → Relay → Datagram → Relay × List Send
handle_legacy c r d =
    if not (token_matches c.room_token (drop 4 d.buf))
    then (r, [])
    else elim (find_slot_for_registration c.htons r.slots d.from
        (declared_port d.buf (is_reg_v2 d.buf))) [
          | none ↦ (r, [])
          | some i ↦ bind_legacy r i d.from
        ]

abbrev pub forward_to : Endpoint → Bytes → List Send
forward_to dst buf = if dst.active then reply buf dst.addr else []

-- The traffic of the active generation, whose endpoints must match exactly.
unfoldable pub forward_v3 : Relay → Datagram → Relay × List Send
forward_v3 r d = elim (find_slot_by_endpoint r.active_generation.slots d.from) [
  | none ↦ (r, [])
  | some i ↦ (r, forward_to (at r.active_generation.slots (peer i)) d.buf)
]

-- Rebinds the slot of a legacy client that the address alone determines.
abbrev pub rebind_legacy : Relay → Slot → SockaddrIn → Relay
rebind_legacy r i from = record r { slots = put r.slots i (record (at r.slots i) { addr = from }) }

unfoldable pub forward_legacy : Relay → Datagram → Relay × List Send
forward_legacy r d = elim (find_slot_by_endpoint r.slots d.from) [
  | some i ↦ (r, forward_to (at r.slots (peer i)) d.buf)
  | none ↦ elim (find_slot_by_ip r.slots d.from) [
    | found i ↦ (rebind_legacy r i d.from, forward_to (at r.slots (peer i)) d.buf)
    | _ ↦ (r, [])
  ]
]

unfoldable pub forward : Relay → Datagram → Relay × List Send
forward r d = if r.active_generation.key.valid then forward_v3 r d else forward_legacy r d

-- What is done with a datagram, from the health test on.
unfoldable pub handle : Config → Relay → Datagram → Relay × List Send
handle c r d =
    if is_health d.buf
    then (r, reply resp_health d.from)
    else if is_reg_v3 d.buf
    then handle_v3 c r d
    else if is_reg_legacy d.buf
    then handle_legacy c r d
    else if is_reg_v2 d.buf
    then handle_legacy c r d
    else forward r d

-- What `select` returns: a failure, interrupted or not, or the time and, if the socket is ready, the
-- datagram that `recvfrom` reads, if it reads one.
pub data Ready : Type 0 where
  interrupted failed : Ready
  timeout : ℕ → Ready
  readable : ℕ → Option Datagram → Ready

-- `none` if the loop ends.
abbrev pub Iteration : Type 0
Iteration = Option (Relay × List Send)

-- `idleExitSec > 0 && nowMs - lastTrafficMs > (uint64_t)idleExitSec * 1000ULL`
unfoldable pub is_idle : Config → Relay → ℕ → Bool
is_idle c r now_ms = elim c.idle_exit_sec [
  | pos n ↦ ltb 0 n && ltb (n * 1000) ((now_ms + 2 ^ 64 - r.last_traffic_ms) % 2 ^ 64)
  | negsuc n ↦ false
]

unfoldable pub iterate : Config → Relay → Ready → Iteration
iterate c r interrupted = some (r, [])
iterate c r failed = none
iterate c r (timeout now_ms) = if is_idle c r now_ms then none else some (r, [])
iterate c r (readable now_ms none) = if is_idle c r now_ms then none else some (r, [])
iterate c r (readable now_ms (some d)) =
    if is_idle c r now_ms
    then none
    else if length d.buf == 0
    then some (r, [])
    else some (handle c (record r { last_traffic_ms = now_ms }) d)

-- The loop over the inputs of its iterations; the relay stays as it is once the loop has ended.
unfoldable pub run : Config → Relay → List Ready → Relay
run c r [] = r
run c r (x ∷ xs) = elim (iterate c r x) [ none ↦ r | some (s, out) ↦ run c s xs ]
