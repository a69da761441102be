-- ===== src/UdpRelay/Traffic.antt =====
-- What src/relay/ggpo_udp_relay.cxx sends, and to whom.
use sf4_netplay_launcher.Prelude.{
  ◌≤◌, Bool, true, false, ◌≡◌, refl, ◌⊎◌, inl, inr, some, List, [], length, All, Bool-cases, arith,
}
use sf4_netplay_launcher.UdpRelay.{
  SockaddrIn, Endpoint, GenerationKey, GenerationState, both_slots_active, Slot, slot0, slot1,
  Slots, at, peer, find_slot_by_endpoint, find_slot_by_ip, found,
}
use sf4_netplay_launcher.UdpRelay.Packet.{resp_health, resp_registered, resp_waiting}
use sf4_netplay_launcher.UdpRelay.Cases.{
  handle_v3_cases, handle_legacy_cases, forward_cases, handle_cases,
}
use sf4_netplay_launcher.UdpRelay.Loop.{
  Relay, Config, Datagram, Send, promote, register_slot, pending_target, register_active,
  register_pending, handle_v3, handle_legacy, bind_legacy, forward, handle, forward_to, reply,
  answer,
}

-- The slots by which traffic is forwarded.
unfoldable pub forwarding : Relay → Slots
forwarding r = elim r.active_generation.key.valid [
  | true ↦ r.active_generation.slots
  | false ↦ r.slots
]

-- A slot belongs to the sender: its endpoint, or, with no valid active generation, its address.
abbrev pub IsOwn : Relay → SockaddrIn → Slot → Type 0
IsOwn r from i =
    ((at (forwarding r) i).active ≡ true)
    × ((at (forwarding r) i).addr.s_addr ≡ from.s_addr)
    × (((at (forwarding r) i).addr.sin_port ≡ from.sin_port)
        ⊎ (r.active_generation.key.valid ≡ false))

-- A short answer to the sender, or the same bytes to the active peer of the sender's slot.
abbrev pub IsFair : Relay → Datagram → Send → Type 0
IsFair r d s =
    ((s.dest ≡ d.from)
      × ((s.payload ≡ resp_health) ⊎ (s.payload ≡ resp_registered) ⊎ (s.payload ≡ resp_waiting)))
    ⊎ ((i : Slot) × IsOwn r d.from i
        × ((at (forwarding r) (peer i)).active ≡ true)
        × (s.dest ≡ (at (forwarding r) (peer i)).addr)
        × (s.payload ≡ d.buf))

forwarding_v3 :
    (r : Relay) → r.active_generation.key.valid ≡ true → forwarding r ≡ r.active_generation.slots
unfolding forwarding
forwarding_v3 r v = rw v

forwarding_legacy : (r : Relay) → r.active_generation.key.valid ≡ false → forwarding r ≡ r.slots
unfolding forwarding
forwarding_legacy r v = rw v

endpoint_sound :
    (slots : Slots) (from : SockaddrIn) (i : Slot)
    → find_slot_by_endpoint slots from ≡ some i
    → ((at slots i).active ≡ true)
      × ((at slots i).addr.s_addr ≡ from.s_addr)
      × ((at slots i).addr.sin_port ≡ from.sin_port)
unfolding find_slot_by_endpoint
endpoint_sound slots from slot0 h = ground arith
endpoint_sound slots from slot1 h = ground arith

pub ip_sound :
    (slots : Slots) (from : SockaddrIn) (i : Slot)
    → find_slot_by_ip slots from ≡ found i
    → ((at slots i).active ≡ true) × ((at slots i).addr.s_addr ≡ from.s_addr)
unfolding find_slot_by_ip
ip_sound slots from slot0 h = ground arith
ip_sound slots from slot1 h = ground arith

-- At most one packet is sent, and it is fair.
abbrev pub AllFair : Relay → Datagram → List Send → Type 0
AllFair r d out = All (IsFair r d) out × (length out ≤ 1)

nothing-AllFair : (r : Relay) (d : Datagram) → AllFair r d []
nothing-AllFair r d = (tt, omega arith)

answer-AllFair : (r : Relay) (d : Datagram) (b : Bool) → AllFair r d (reply (answer b) d.from)
answer-AllFair r d true = ((inl (refl, inr (inl refl)), tt), omega arith)
answer-AllFair r d false = ((inl (refl, inr (inr refl)), tt), omega arith)

forward_to-AllFair :
    (r : Relay) (d : Datagram) (i : Slot) (dst : Endpoint)
    → IsOwn r d.from i
    → at (forwarding r) (peer i) ≡ dst
    → AllFair r d (forward_to dst d.buf)
forward_to-AllFair r d i dst own e = elim (Bool-cases dst.active) [
  | inl on ↦ rw on ((inr (i, own, cc, cc, refl), tt), omega arith)
  | inr off ↦ rw off (nothing-AllFair r d)
]

promote-AllFair :
    (r s : Relay) (d : Datagram) (g : GenerationState) → AllFair r d (promote s g d.from).1
unfolding promote
promote-AllFair r s d g = elim (Bool-cases (both_slots_active g.slots)) [
  | inl on ↦ rw (on, promote) (answer-AllFair r d true)
  | inr off ↦ rw (off, promote) (answer-AllFair r d false)
]

register_pending-AllFair :
    (r : Relay) (d : Datagram) (key : GenerationKey) (i : Slot)
    → AllFair r d (register_pending r key i d.from).1
unfolding register_pending
register_pending-AllFair r d key i =
    promote-AllFair r r d (register_slot (pending_target r key) i d.from)

handle_v3-AllFair : (c : Config) (r : Relay) (d : Datagram) → AllFair r d (handle_v3 c r d).1
handle_v3-AllFair c r d =
    handle_v3_cases (λ p. AllFair r d p.1) c r d (nothing-AllFair r d)
      (λ i _ _ _. unfold register_active in answer-AllFair r d _)
      (λ i _ _ _. register_pending-AllFair r d _ i)

handle_legacy-AllFair :
    (c : Config) (r : Relay) (d : Datagram) → AllFair r d (handle_legacy c r d).1
handle_legacy-AllFair c r d =
    handle_legacy_cases (λ p. AllFair r d p.1) c r d (nothing-AllFair r d)
      (λ i _ _. unfold bind_legacy in answer-AllFair r d _)

forward-AllFair : (c : Config) (r : Relay) (d : Datagram) → AllFair r d (forward r d).1
forward-AllFair c r d =
    forward_cases (λ p. AllFair r d p.1) c r d (nothing-AllFair r d)
      (λ i v e.
        let (on, ip, port) = endpoint_sound _ d.from i e in
        forward_to-AllFair r d i _ (rw (forwarding_v3 r v) (on, ip, inl port))
          (rw (forwarding_v3 r v)))
      (λ i v e.
        let (on, ip, port) = endpoint_sound _ d.from i e in
        forward_to-AllFair r d i _ (rw (forwarding_legacy r v) (on, ip, inl port))
          (rw (forwarding_legacy r v)))
      (λ i v _ e.
        let (on, ip) = ip_sound _ d.from i e in
        forward_to-AllFair r d i _ (rw (forwarding_legacy r v) (on, ip, inr v))
          (rw (forwarding_legacy r v)))

-- For every datagram, in every state, the relay sends at most one packet, and it is either one of
-- its three fixed answers, to the sender, or the datagram's own bytes, from the owner of an active
-- slot to the active peer of that slot. With a valid active generation the owner's address and port
-- must be those of the slot; without one the address is enough.
pub handle-AllFair : (c : Config) (r : Relay) (d : Datagram) → AllFair r d (handle c r d).1
handle-AllFair c r d =
    handle_cases (λ p. AllFair r d p.1) c r d (λ _. ((inl (refl, inl refl), tt), omega arith))
      (λ _. handle_v3-AllFair c r d) (λ _. handle_legacy-AllFair c r d) (forward-AllFair c r d)
