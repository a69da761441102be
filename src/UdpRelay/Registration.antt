-- ===== src/UdpRelay/Registration.antt =====
-- The registration packet that RegisterWithUdpRelay of src/session/sf4e__GgpoTransport.cxx writes,
-- as src/relay/ggpo_udp_relay.cxx receives it.
use sf4_netplay_launcher.Prelude.{
  ℕ, ◌^◌, ◌<◌, true, false, ◌≡◌, refl, sym, ◌∙◌, ap, ap₂, some, List, [], ◌∷◌, ◌++◌, map, arith,
  Bytes, length, length-append, take, drop, get_or, bytes_eq, if◌then◌else◌,
}
use sf4_netplay_launcher.Prelude.Int.{pos}
use sf4_netplay_launcher.GgpoTransport.{write_u64_be, registration_packet}
use sf4_netplay_launcher.UdpRelay.{
  SockaddrIn, Slot, slot0, slot1, at, GenerationKey, same_generation, peer,
}
use sf4_netplay_launcher.UdpRelay.Token.{
  tolower, is_hex_token, token_matches, token_matches_exact, take_all,
}
use sf4_netplay_launcher.UdpRelay.Packet.{is_health, is_reg_v3, read_u64_be, resp_registered}
use sf4_netplay_launcher.UdpRelay.Wire.{
  read_u64_be-write_u64_be, drop_past, get_or_past, take_exact,
}
use sf4_netplay_launcher.UdpRelay.Generations.{Inv}
use sf4_netplay_launcher.UdpRelay.Loop.{
  Relay, Config, Datagram, Send, reply, registered_at, v3_key, player_slot, register_active,
  register_pending, handle_v3, handle,
}

-- Player `i` is announced by its index.
abbrev pub slot_number : Slot → ℕ
slot_number slot0 = 0
slot_number slot1 = 1

abbrev pub key_of : ℕ → ℕ → GenerationKey
key_of ready0 ready1 = record { ready0 = ready0; ready1 = ready1; valid = true }

module _ (token : Bytes) (i : Slot) (a b : ℕ) (size : length token ≡ 32) where
  abbrev packet : Bytes
  packet = registration_packet token (slot_number i) (pos a) (pos b)

  abbrev tail : Bytes
  tail = 3 ∷ slot_number i ∷ (write_u64_be a ++ write_u64_be b)

  abbrev head : Bytes
  head = b'S' ∷ b'F' ∷ b'4' ∷ b'G' ∷ token

  packet_parts : packet ≡ head ++ tail
  unfolding registration_packet
  packet_parts = ap (λ t. b'S' ∷ b'F' ∷ b'4' ∷ b'G' ∷ (t ++ tail)) (take_all 32 token size)

  length-packet : length packet ≡ 54
  unfolding write_u64_be
  length-packet = omega (arith, ap length packet_parts, length-append token tail)

  length-packet_rest : length (drop 4 packet) ≡ 50
  unfolding write_u64_be
  length-packet_rest =
      omega (arith, ap (λ (p : Bytes). length (drop 4 p)) packet_parts, length-append token tail)

  packet_version : get_or packet 36 0 ≡ 3
  packet_version =
      ap (λ (p : Bytes). get_or p 36 0) packet_parts ∙ get_or_past 32 0 token tail 0 size

  packet_slot : get_or packet 37 0 ≡ slot_number i
  packet_slot = ap (λ (p : Bytes). get_or p 37 0) packet_parts ∙ get_or_past 32 1 token tail 0 size

  packet_token : take 32 (drop 4 packet) ≡ token
  packet_token = ap (λ (p : Bytes). take 32 (drop 4 p)) packet_parts ∙ take_exact 32 token tail size

  ready0_packet : drop 38 packet ≡ write_u64_be a ++ write_u64_be b
  ready0_packet = ap (λ (p : Bytes). drop 38 p) packet_parts ∙ drop_past 32 2 token tail size

  ready1_packet : drop 46 packet ≡ write_u64_be b ++ []
  unfolding write_u64_be
  ready1_packet = ap (λ (p : Bytes). drop 46 p) packet_parts ∙ drop_past 32 10 token tail size

  packet_key : a < 2 ^ 64 → b < 2 ^ 64 → v3_key packet ≡ key_of a b
  packet_key ha hb =
      ap₂ key_of (ap read_u64_be ready0_packet ∙ read_u64_be-write_u64_be a (write_u64_be b) ha)
        (ap read_u64_be ready1_packet ∙ read_u64_be-write_u64_be b [] hb)

  is_reg_v3-packet : is_reg_v3 packet ≡ true
  unfolding is_reg_v3 bytes_eq
  is_reg_v3-packet = rw (length-packet, packet_version) (rw packet_parts refl)

  is_health-packet : is_health packet ≡ false
  unfolding is_health
  is_health-packet = rw length-packet

player_slot-slot_number : (i : Slot) → player_slot (slot_number i) ≡ some i
player_slot-slot_number slot0 = refl
player_slot-slot_number slot1 = refl

-- How the relay registers slot `i` of a generation.
abbrev pub registered : Relay → GenerationKey → Slot → SockaddrIn → Relay × List Send
registered r key i from =
    if same_generation r.active_generation.key key
    then register_active r i from
    else register_pending r key i from

-- Both players of one generation have registered.
abbrev pub IsPaired : Relay → GenerationKey → Slot → SockaddrIn → SockaddrIn → Type 0
IsPaired t key i f g =
    (same_generation t.active_generation.key key ≡ true)
    × (at t.active_generation.slots i ≡ registered_at f)
    × (at t.active_generation.slots (peer i) ≡ registered_at g)

registered_pair :
    (r : Relay) (a b : ℕ) (i : Slot) (f g : SockaddrIn)
    → Inv r
    → let s = (registered r (key_of a b) i f).0 in
      let (t, out) = registered s (key_of a b) (peer i) g in
      IsPaired t (key_of a b) i f g × (out ≡ reply resp_registered g)
unfolding register_active register_pending
registered_pair r a b slot0 f g v = ground arith
registered_pair r a b slot1 f g v = ground arith

module _ (c : Config) (token : Bytes) (size : length token ≡ 32)
    (hex : is_hex_token c.room_token (length c.room_token) ≡ true)
    (same : map tolower c.room_token ≡ map tolower token) (a b : ℕ) (ha : a < 2 ^ 64)
    (hb : b < 2 ^ 64) where
  -- Player `i`'s registration, sent from an endpoint.
  abbrev sent : Slot → SockaddrIn → Datagram
  sent i from = record {
    buf = registration_packet token (slot_number i) (pos a) (pos b);
    from = from;
  }

  matches :
      (i : Slot) (from : SockaddrIn) → token_matches c.room_token (drop 4 (sent i from).buf) ≡ true
  matches i from =
      (token_matches_exact c.room_token (drop 4 (sent i from).buf) hex
          (omega (arith, length-packet_rest token i a b size))).1
        (same ∙ ap (map tolower) (sym (packet_token token i a b size)))

  handle-sent :
      (r : Relay) (i : Slot) (from : SockaddrIn)
      → handle c r (sent i from) ≡ registered r (key_of a b) i from
  unfolding handle handle_v3
  handle-sent r i from =
      rw
        (
          is_health-packet token i a b size,
          is_reg_v3-packet token i a b size,
          matches i from,
          packet_slot token i a b size,
          player_slot-slot_number i,
        )
        (ap (λ k. registered r k i from) (packet_key token i a b size ha hb))

  -- From any state that the relay can reach, once the two players of a room have each sent the
  -- packet that RegisterWithUdpRelay builds from the room's token, in either case of letters, and
  -- from the same two ready numbers, the second is answered SF4R, and the active generation has
  -- these numbers and exactly the two endpoints they sent from, each in its player's slot, whoever
  -- is first.
  pub sent_pair :
      (r : Relay) (i : Slot) (f g : SockaddrIn)
      → Inv r
      → let s = (handle c r (sent i f)).0 in
        let (t, out) = handle c s (sent (peer i) g) in
        IsPaired t (key_of a b) i f g × (out ≡ reply resp_registered g)
  sent_pair r i f g v =
      rw (handle-sent r i f, handle-sent _ (peer i) g) (registered_pair r a b i f g v)
