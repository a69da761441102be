-- ===== src/UdpRelay/Cases.antt =====
-- Case rules for the handlers of src/relay/ggpo_udp_relay.cxx: a property of the result, proved for
-- each way through the code.
use sf4_netplay_launcher.Prelude.{
  true, false, ◌≡◌, refl, ◌⊎◌, inl, inr, none, some, List, [], ◌∷◌, drop, get_or, Bool-cases,
  Option-cases,
}
use sf4_netplay_launcher.UdpRelay.{
  Slot, same_generation, IpSlot, missing, ambiguous, found, find_slot_by_endpoint, find_slot_by_ip,
  find_slot_for_registration, at, peer,
}
use sf4_netplay_launcher.UdpRelay.Token.{token_matches}
use sf4_netplay_launcher.UdpRelay.Packet.{
  is_health, is_reg_v2, is_reg_v3, is_reg_legacy, resp_health,
}
use sf4_netplay_launcher.UdpRelay.Loop.{
  Relay, Config, Datagram, Send, v3_key, player_slot, declared_port, register_active,
  register_pending, handle_v3, bind_legacy, handle_legacy, forward_v3, forward_legacy, forward,
  handle, forward_to, rebind_legacy,
}

IpSlot-cases : (x : IpSlot) → ((i : Slot) × (x ≡ found i)) ⊎ ((x ≡ missing) ⊎ (x ≡ ambiguous))
IpSlot-cases missing = inr (inl refl)
IpSlot-cases ambiguous = inr (inr refl)
IpSlot-cases (found i) = inl (i, refl)

module _ {ℓ} (P : Relay × List Send → Type ℓ) (c : Config) (r : Relay) (d : Datagram) where
  abbrev IsAuthentic : Type 0
  IsAuthentic = token_matches c.room_token (drop 4 d.buf) ≡ true

  pub handle_v3_cases :
      P (r, [])
      → ((i : Slot)
          → IsAuthentic
          → player_slot (get_or d.buf 37 0) ≡ some i
          → same_generation r.active_generation.key (v3_key d.buf) ≡ true
          → P (register_active r i d.from))
      → ((i : Slot)
          → IsAuthentic
          → player_slot (get_or d.buf 37 0) ≡ some i
          → same_generation r.active_generation.key (v3_key d.buf) ≡ false
          → P (register_pending r (v3_key d.buf) i d.from))
      → P (handle_v3 c r d)
  unfolding handle_v3
  handle_v3_cases refused active pending =
      elim (Bool-cases (token_matches c.room_token (drop 4 d.buf))) [
        | inr bad ↦ rw (bad, handle_v3) refused
        | inl good ↦ elim (Option-cases (player_slot (get_or d.buf 37 0))) [
          | inl e ↦ rw (good, e, handle_v3) refused
          | inr (i, e) ↦
              elim (Bool-cases (same_generation r.active_generation.key (v3_key d.buf))) [
                | inl same ↦ rw (good, e, same, handle_v3) (active i good e same)
                | inr other ↦ rw (good, e, other, handle_v3) (pending i good e other)
              ]
        ]
      ]

  pub handle_legacy_cases :
      P (r, [])
      → ((i : Slot)
          → IsAuthentic
          → find_slot_for_registration c.htons r.slots d.from
              (declared_port d.buf (is_reg_v2 d.buf))
            ≡ some i
          → P (bind_legacy r i d.from))
      → P (handle_legacy c r d)
  unfolding handle_legacy
  handle_legacy_cases refused bound =
      elim (Bool-cases (token_matches c.room_token (drop 4 d.buf))) [
        | inr bad ↦ rw (bad, handle_legacy) refused
        | inl good ↦
            elim (Option-cases (
              find_slot_for_registration c.htons r.slots d.from
                (declared_port d.buf (is_reg_v2 d.buf)))) [
                  | inl e ↦ rw (good, e, handle_legacy) refused
                  | inr (i, e) ↦ rw (good, e, handle_legacy) (bound i good e)
                ]
      ]

  -- With a valid active generation traffic goes by its slots, else by the legacy ones.
  pub forward_cases :
      P (r, [])
      → ((i : Slot)
          → r.active_generation.key.valid ≡ true
          → find_slot_by_endpoint r.active_generation.slots d.from ≡ some i
          → P (r, forward_to (at r.active_generation.slots (peer i)) d.buf))
      → ((i : Slot)
          → r.active_generation.key.valid ≡ false
          → find_slot_by_endpoint r.slots d.from ≡ some i
          → P (r, forward_to (at r.slots (peer i)) d.buf))
      → ((i : Slot)
          → r.active_generation.key.valid ≡ false
          → find_slot_by_endpoint r.slots d.from ≡ none
          → find_slot_by_ip r.slots d.from ≡ found i
          → P (rebind_legacy r i d.from, forward_to (at r.slots (peer i)) d.buf))
      → P (forward r d)
  unfolding forward forward_v3 forward_legacy
  forward_cases dropped exact legacy rebound = elim (Bool-cases r.active_generation.key.valid) [
    | inl v3 ↦ elim (Option-cases (find_slot_by_endpoint r.active_generation.slots d.from)) [
      | inl e ↦ rw (v3, e, forward, forward_v3) dropped
      | inr (i, e) ↦ rw (v3, e, forward, forward_v3) (exact i v3 e)
    ]
    | inr v2 ↦ elim (Option-cases (find_slot_by_endpoint r.slots d.from)) [
      | inr (i, e) ↦ rw (v2, e, forward, forward_legacy) (legacy i v2 e)
      | inl e ↦ elim (IpSlot-cases (find_slot_by_ip r.slots d.from)) [
        | inl (i, h) ↦ rw (v2, e, h, forward, forward_legacy) (rebound i v2 e h)
        | inr (inl h) ↦ rw (v2, e, h, forward, forward_legacy) dropped
        | inr (inr h) ↦ rw (v2, e, h, forward, forward_legacy) dropped
      ]
    ]
  ]

  pub handle_cases :
      (is_health d.buf ≡ true → P (r, record { payload = resp_health; dest = d.from } ∷ []))
      → (is_reg_v3 d.buf ≡ true → P (handle_v3 c r d))
      → (is_reg_v3 d.buf ≡ false → P (handle_legacy c r d))
      → P (forward r d)
      → P (handle c r d)
  unfolding handle
  handle_cases health v3 legacy other = elim (Bool-cases (is_health d.buf)) [
    | inl e ↦ rw (e, handle) (health e)
    | inr e ↦ elim (Bool-cases (is_reg_v3 d.buf)) [
      | inl f ↦ rw (e, f, handle) (v3 f)
      | inr f ↦ elim (Bool-cases (is_reg_legacy d.buf)) [
        | inl g ↦ rw (e, f, g, handle) (legacy f)
        | inr g ↦ elim (Bool-cases (is_reg_v2 d.buf)) [
          | inl h ↦ rw (e, f, g, h, handle) (legacy f)
          | inr h ↦ rw (e, f, g, h, handle) other
        ]
      ]
    ]
  ]
