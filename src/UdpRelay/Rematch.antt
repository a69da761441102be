-- ===== src/UdpRelay/Rematch.antt =====
-- A rematch by the legacy registration of src/relay/ggpo_udp_relay.cxx, over two registrations.
use sf4_netplay_launcher.Prelude.{true, false, ◌≡◌, refl, ◌∙◌, ◌⊎◌, Option, some, drop, arith}
use sf4_netplay_launcher.UdpRelay.{
  SockaddrIn, Slot, slot0, slot1, at, put, peer, same_endpoint, both_slots_active,
  find_slot_for_registration, find_slot_by_endpoint, first_inactive,
}
use sf4_netplay_launcher.UdpRelay.Token.{token_matches}
use sf4_netplay_launcher.UdpRelay.Packet.{
  resp_registered, resp_waiting, is_health, is_reg_legacy, is_reg_v2, is_reg_v3,
}
use sf4_netplay_launcher.UdpRelay.Loop.{
  Relay, Config, Datagram, reply, registered_at, declared_port, bind_legacy, handle_legacy, handle,
}

-- A registration of version 1 or 2 with the room's token.
abbrev pub IsRegistration : Config → Datagram → Type 0
IsRegistration c d =
    (token_matches c.room_token (drop 4 d.buf) ≡ true)
    × ((is_reg_legacy d.buf ≡ true) ⊎ (is_reg_v2 d.buf ≡ true))

handle-legacy :
    (c : Config) (r : Relay) (d : Datagram)
    → IsRegistration c d
    → handle c r d ≡ handle_legacy c r d
unfolding handle is_health is_reg_legacy is_reg_v2 is_reg_v3
handle-legacy c r d h = ground arith

abbrev pub slot_for : Config → Relay → Datagram → Option Slot
slot_for c r d =
    find_slot_for_registration c.htons r.slots d.from (declared_port d.buf (is_reg_v2 d.buf))

handle-bind :
    (c : Config) (r : Relay) (d : Datagram) (i : Slot)
    → IsRegistration c d
    → slot_for c r d ≡ some i
    → handle c r d ≡ bind_legacy r i d.from
handle-bind c r d i h e =
    handle-legacy c r d h ∙ (unfold handle_legacy in rw (h.0, e, handle_legacy))

-- The relay after the first of the two has come back from another endpoint.
abbrev pub half_bound : Relay → Slot → SockaddrIn → Relay
half_bound r i from = record r {
  slots =
      put (put r.slots i (registered_at from)) (peer i)
        (record (at r.slots (peer i)) { active = false });
}

bind_first :
    (r : Relay) (i : Slot) (from : SockaddrIn)
    → both_slots_active r.slots ≡ true
    → same_endpoint (at r.slots i).addr from ≡ false
    → bind_legacy r i from ≡ (half_bound r i from, reply resp_waiting from)
unfolding bind_legacy
bind_first r slot0 from full moved = ground arith
bind_first r slot1 from full moved = ground arith

slot_for_second :
    (c : Config) (r : Relay) (i : Slot) (from : SockaddrIn) (d : Datagram)
    → same_endpoint from d.from ≡ false
    → slot_for c (half_bound r i from) d ≡ some (peer i)
unfolding find_slot_for_registration find_slot_by_endpoint first_inactive
slot_for_second c r slot0 from d new = ground arith
slot_for_second c r slot1 from d new = ground arith

slot_for_again :
    (c : Config) (r : Relay) (i : Slot) (d : Datagram)
    → slot_for c (half_bound r i d.from) d ≡ some i
unfolding find_slot_for_registration find_slot_by_endpoint first_inactive
slot_for_again c r slot0 d = ground arith
slot_for_again c r slot1 d = ground arith

bind_second :
    (r : Relay) (i : Slot) (first second : SockaddrIn)
    → bind_legacy (half_bound r i first) (peer i) second ≡ (
      record r {
        slots = put (put r.slots i (registered_at first)) (peer i) (registered_at second);
      },
      reply resp_registered second,
    )
unfolding bind_legacy
bind_second r slot0 first second = ground arith
bind_second r slot1 first second = ground arith

bind_again :
    (r : Relay) (i : Slot) (from : SockaddrIn)
    → bind_legacy (half_bound r i from) i from ≡ (half_bound r i from, reply resp_waiting from)
unfolding bind_legacy
bind_again r slot0 from = ground arith
bind_again r slot1 from = ground arith

-- A rematch with both legacy slots taken. When the player of slot `i` registers from a new endpoint
-- he is told to wait, and told so again each time he repeats it; the first registration from any
-- other endpoint then takes the other slot, whatever its address or declared port, is told that both
-- are registered, and the relay holds exactly the two new endpoints, active, each in its slot.
pub rematch_pairs :
    (c : Config) (r : Relay) (d1 d2 : Datagram) (i : Slot)
    → IsRegistration c d1
    → IsRegistration c d2
    → both_slots_active r.slots ≡ true
    → slot_for c r d1 ≡ some i
    → same_endpoint (at r.slots i).addr d1.from ≡ false
    → same_endpoint d1.from d2.from ≡ false
    → let s = (handle c r d1).0 in
      ((handle c r d1).1 ≡ reply resp_waiting d1.from)
      × (handle c s d1 ≡ (s, reply resp_waiting d1.from))
      × (handle c s d2 ≡ (
        record r {
          slots = put (put r.slots i (registered_at d1.from)) (peer i) (registered_at d2.from);
        },
        reply resp_registered d2.from,
      ))
rematch_pairs c r d1 d2 i h1 h2 full found moved new = rw first (refl, again, second)
  where
    first : handle c r d1 ≡ (half_bound r i d1.from, reply resp_waiting d1.from)
    first = handle-bind c r d1 i h1 found ∙ bind_first r i d1.from full moved

    again :
        handle c (half_bound r i d1.from) d1 ≡ (half_bound r i d1.from, reply resp_waiting d1.from)
    again =
        handle-bind c (half_bound r i d1.from) d1 i h1 (slot_for_again c r i d1)
        ∙ bind_again r i d1.from

    second : handle c (half_bound r i d1.from) d2 ≡ (
      record r {
        slots = put (put r.slots i (registered_at d1.from)) (peer i) (registered_at d2.from);
      },
      reply resp_registered d2.from,
    )
    second =
        handle-bind c (half_bound r i d1.from) d2 (peer i) h2 (slot_for_second c r i d1.from d2 new)
        ∙ bind_second r i d1.from d2.from
