-- ===== src/UdpRelay/Strangers.antt =====
-- What a sender without the room token can change in src/relay/ggpo_udp_relay.cxx.
use sf4_netplay_launcher.Prelude.{false, ◌≡◌, refl, sym, drop}
use sf4_netplay_launcher.UdpRelay.{SockaddrIn, Slot, slot0, slot1, at}
use sf4_netplay_launcher.UdpRelay.Token.{token_matches}
use sf4_netplay_launcher.UdpRelay.Traffic.{ip_sound}
use sf4_netplay_launcher.UdpRelay.Cases.{
  handle_v3_cases, handle_legacy_cases, forward_cases, handle_cases,
}
use sf4_netplay_launcher.UdpRelay.Loop.{
  Relay, Config, Datagram, handle_v3, handle_legacy, forward, handle, rebind_legacy,
}

-- The generations are the same, and so is each slot but for the port under its address.
pub record Untouched (r s : Relay) : Type 0 where
  pub active : s.active_generation ≡ r.active_generation
  pub pending : s.pending_generation ≡ r.pending_generation
  pub activity : (i : Slot) → (at s.slots i).active ≡ (at r.slots i).active
  pub address : (i : Slot) → (at s.slots i).addr.s_addr ≡ (at r.slots i).addr.s_addr

Untouched-refl : (r : Relay) → Untouched r r
Untouched-refl r = record {
  active = refl;
  pending = refl;
  activity = λ i. refl;
  address = λ i. refl;
}

module _ (c : Config) (r : Relay) (d : Datagram)
    (bad : token_matches c.room_token (drop 4 d.buf) ≡ false) where
  handle_v3-Untouched : Untouched r (handle_v3 c r d).0
  handle_v3-Untouched =
      handle_v3_cases (λ p. Untouched r p.0) c r d (Untouched-refl r) (λ i good _ _. cc)
        (λ i good _ _. cc)

  handle_legacy-Untouched : Untouched r (handle_legacy c r d).0
  handle_legacy-Untouched =
      handle_legacy_cases (λ p. Untouched r p.0) c r d (Untouched-refl r) (λ i good _. cc)

rebind-Untouched :
    (r : Relay) (i : Slot) (from : SockaddrIn)
    → (at r.slots i).addr.s_addr ≡ from.s_addr
    → Untouched r (rebind_legacy r i from)
rebind-Untouched r slot0 from e = record {
  active = refl;
  pending = refl;
  activity = elim [ slot0 ↦ refl | slot1 ↦ refl ];
  address = elim [ slot0 ↦ sym e | slot1 ↦ refl ];
}
rebind-Untouched r slot1 from e = record {
  active = refl;
  pending = refl;
  activity = elim [ slot0 ↦ refl | slot1 ↦ refl ];
  address = elim [ slot0 ↦ refl | slot1 ↦ sym e ];
}

forward-Untouched : (c : Config) (r : Relay) (d : Datagram) → Untouched r (forward r d).0
forward-Untouched c r d =
    forward_cases (λ p. Untouched r p.0) c r d (Untouched-refl r) (λ _ _ _. Untouched-refl r)
      (λ _ _ _. Untouched-refl r)
      (λ i _ _ e. rebind-Untouched r i d.from (ip_sound r.slots d.from i e).1)

-- A datagram whose bytes from 4 on do not match the room token, whatever its form, changes neither
-- generation, activates and deactivates no slot, and leaves the address of each slot as it is: at
-- most the port of a legacy slot follows its own address.
pub handle-Untouched :
    (c : Config) (r : Relay) (d : Datagram)
    → token_matches c.room_token (drop 4 d.buf) ≡ false
    → Untouched r (handle c r d).0
handle-Untouched c r d bad =
    handle_cases (λ p. Untouched r p.0) c r d (λ _. Untouched-refl r)
      (λ _. handle_v3-Untouched c r d bad) (λ _. handle_legacy-Untouched c r d bad)
      (forward-Untouched c r d)
