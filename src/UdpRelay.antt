-- ===== src/UdpRelay.antt =====
-- src/relay/ggpo_udp_relay.cxx: the UDP relay that pairs the two players of a room.
-- This file has the data and the helpers on endpoints and slots; `Token` has the room token,
-- `Packet` the wire format, `Loop` the body of the main loop.
pub mod Token
pub mod Packet
pub mod Loop
pub mod Cases
pub mod Generations
pub mod Traffic
pub mod Strangers
pub mod Rematch
pub mod Wire
pub mod Registration
use sf4_netplay_launcher.Prelude.{
  ℕ, Bool, true, false, not, ◌&&◌, Option, none, some, ◌==◌, if◌then◌else◌,
}

-- A sockaddr_in: the address and the port, as stored (network order).
pub record SockaddrIn : Type 0 where
  pub s_addr : ℕ
  pub sin_port : ℕ

pub record Endpoint : Type 0 where
  pub addr : SockaddrIn
  pub active : Bool

-- A player slot is an index below 2.
pub data Slot : Type 0 where
  slot0 slot1 : Slot

-- `Endpoint slots[2]`
pub record Slots : Type 0 where
  pub first : Endpoint
  pub second : Endpoint

abbrev pub at : Slots → Slot → Endpoint
at slots slot0 = slots.first
at slots slot1 = slots.second

abbrev pub put : Slots → Slot → Endpoint → Slots
put slots slot0 e = record slots { first = e }
put slots slot1 e = record slots { second = e }

-- `i == 0 ? 1 : 0`
abbrev pub peer : Slot → Slot
peer slot0 = slot1
peer slot1 = slot0

pub record GenerationKey : Type 0 where
  pub ready0 : ℕ
  pub ready1 : ℕ
  pub valid : Bool

pub record GenerationState : Type 0 where
  pub key : GenerationKey
  pub slots : Slots

abbrev pub no_endpoint : Endpoint
no_endpoint = record { addr = record { s_addr = 0; sin_port = 0 }; active = false }

abbrev pub no_slots : Slots
no_slots = record { first = no_endpoint; second = no_endpoint }

abbrev pub no_generation : GenerationState
no_generation = record { key = record { ready0 = 0; ready1 = 0; valid = false }; slots = no_slots }

unfoldable pub same_endpoint : SockaddrIn → SockaddrIn → Bool
same_endpoint a b = (a.s_addr == b.s_addr) && (a.sin_port == b.sin_port)

unfoldable pub same_ip : SockaddrIn → SockaddrIn → Bool
same_ip a b = a.s_addr == b.s_addr

unfoldable pub same_generation : GenerationKey → GenerationKey → Bool
same_generation a b = a.valid && b.valid && (a.ready0 == b.ready0) && (a.ready1 == b.ready1)

unfoldable pub both_slots_active : Slots → Bool
both_slots_active slots = slots.first.active && slots.second.active

-- `state = {}; state.key = key`
unfoldable pub reset_generation : GenerationKey → GenerationState
reset_generation key = record { key = key; slots = no_slots }

-- The index found, or `none` for -1.
unfoldable pub find_slot_by_endpoint : Slots → SockaddrIn → Option Slot
unfolding same_endpoint
find_slot_by_endpoint slots from =
    if slots.first.active && same_endpoint slots.first.addr from
    then some slot0
    else if slots.second.active && same_endpoint slots.second.addr from
    then some slot1
    else none

-- -1, -2, or the index.
pub data IpSlot : Type 0 where
  missing ambiguous : IpSlot
  found : Slot → IpSlot

-- One round of the loop of FindSlotByIp; `ambiguous` stands for its early return.
unfoldable pub visit_ip : Slots → SockaddrIn → Slot → IpSlot → IpSlot
unfolding same_ip
visit_ip slots from i ambiguous = ambiguous
visit_ip slots from i (found j) =
    if (at slots i).active && same_ip (at slots i).addr from then ambiguous else found j
visit_ip slots from i missing =
    if (at slots i).active && same_ip (at slots i).addr from then found i else missing

unfoldable pub find_slot_by_ip : Slots → SockaddrIn → IpSlot
unfolding visit_ip
find_slot_by_ip slots from = visit_ip slots from slot1 (visit_ip slots from slot0 missing)

abbrev or_else : Option Slot → Option Slot → Option Slot
or_else (some i) rest = some i
or_else none rest = rest

abbrev of_ip : IpSlot → Option Slot
of_ip (found i) = some i
of_ip _ = none

unfoldable pub first_inactive : Slots → Option Slot
first_inactive slots =
    if not slots.first.active
    then some slot0
    else if not slots.second.active
    then some slot1
    else none

-- The slot whose stored port is the declared one, if there is exactly one.
unfoldable pub find_slot_by_declared_port : (ℕ → ℕ) → Slots → ℕ → Option Slot
find_slot_by_declared_port htons slots declared_port =
    if declared_port == 0
    then none
    else if slots.first.active && (slots.first.addr.sin_port == htons declared_port)
    then (if slots.second.active && (slots.second.addr.sin_port == htons declared_port)
        then none
        else some slot0)
    else if slots.second.active && (slots.second.addr.sin_port == htons declared_port)
    then some slot1
    else none

-- `htons` is the system's conversion of a port to network order.
unfoldable pub find_slot_for_registration : (ℕ → ℕ) → Slots → SockaddrIn → ℕ → Option Slot
find_slot_for_registration htons slots from declared_port =
    or_else (find_slot_by_endpoint slots from) (
      or_else (first_inactive slots) (
        or_else (of_ip (find_slot_by_ip slots from))
          (find_slot_by_declared_port htons slots declared_port)))
