-- ===== src/UdpRelay/Generations.antt =====
-- The two generations that src/relay/ggpo_udp_relay.cxx keeps for version 3 registrations.
use sf4_netplay_launcher.Prelude.{
  ℕ, true, false, ◌≡◌, none, some, List, [], ◌∷◌, inl, inr, Bool-cases, arith, length, ◌==◌,
}
use sf4_netplay_launcher.UdpRelay.{
  SockaddrIn, Slot, GenerationKey, same_generation, both_slots_active,
}
use sf4_netplay_launcher.UdpRelay.Cases.{
  handle_v3_cases, handle_legacy_cases, forward_cases, handle_cases,
}
use sf4_netplay_launcher.UdpRelay.Loop.{
  Relay, Config, Datagram, Ready, Iteration, interrupted, failed, readable, timeout, init,
  register_active, register_pending, handle_v3, handle_legacy, bind_legacy, forward, handle,
  is_idle, iterate, run,
}

pub record Inv (r : Relay) : Type 0 where
  pub pending_open : both_slots_active r.pending_generation.slots ≡ false
  pub active_full :
      r.active_generation.key.valid ≡ true → both_slots_active r.active_generation.slots ≡ true
  pub keys_differ :
      r.pending_generation.key.valid ≡ true
      → same_generation r.active_generation.key r.pending_generation.key ≡ false

init-Inv : (now_ms : ℕ) → Inv (init now_ms)
unfolding init both_slots_active
init-Inv now_ms = ground arith

register_active-Inv :
    (r : Relay) (i : Slot) (from : SockaddrIn) → Inv r → Inv (register_active r i from).0
unfolding register_active
register_active-Inv r Slot.slot0 from v = ground arith
register_active-Inv r Slot.slot1 from v = ground arith

register_pending-Inv :
    (r : Relay) (key : GenerationKey) (i : Slot) (from : SockaddrIn)
    → same_generation r.active_generation.key key ≡ false
    → Inv r
    → Inv (register_pending r key i from).0
unfolding register_pending
register_pending-Inv r key Slot.slot0 from e v = ground arith
register_pending-Inv r key Slot.slot1 from e v = ground arith

handle_v3-Inv : (c : Config) (r : Relay) (d : Datagram) → Inv r → Inv (handle_v3 c r d).0
handle_v3-Inv c r d v =
    handle_v3_cases (λ p. Inv p.0) c r d v (λ i _ _ _. register_active-Inv r i d.from v)
      (λ i _ _ e. register_pending-Inv r _ i d.from e v)

handle_legacy-Inv : (c : Config) (r : Relay) (d : Datagram) → Inv r → Inv (handle_legacy c r d).0
unfolding bind_legacy
handle_legacy-Inv c r d v = handle_legacy_cases (λ p. Inv p.0) c r d v (λ i _ _. ground arith)

forward-Inv : (c : Config) (r : Relay) (d : Datagram) → Inv r → Inv (forward r d).0
forward-Inv c r d v =
    forward_cases (λ p. Inv p.0) c r d v (λ _ _ _. v) (λ _ _ _. v) (λ i _ _ _. ground arith)

handle-Inv : (c : Config) (r : Relay) (d : Datagram) → Inv r → Inv (handle c r d).0
handle-Inv c r d v =
    handle_cases (λ p. Inv p.0) c r d (λ _. v) (λ _. handle_v3-Inv c r d v)
      (λ _. handle_legacy-Inv c r d v) (forward-Inv c r d v)

touched-Inv : (r : Relay) (now_ms : ℕ) → Inv r → Inv (record r { last_traffic_ms = now_ms })
touched-Inv r now_ms v = ground arith

abbrev AllInv : Iteration → Type 0
AllInv none = Unit
AllInv (some (s, out)) = Inv s

iterate-Inv : (c : Config) (r : Relay) (x : Ready) → Inv r → AllInv (iterate c r x)
unfolding iterate
iterate-Inv c r interrupted v = v
iterate-Inv c r failed v = tt
iterate-Inv c r (timeout now_ms) v = elim (Bool-cases (is_idle c r now_ms)) [
  | inl e ↦ rw e tt
  | inr e ↦ rw e v
]
iterate-Inv c r (readable now_ms none) v = elim (Bool-cases (is_idle c r now_ms)) [
  | inl e ↦ rw e tt
  | inr e ↦ rw e v
]
iterate-Inv c r (readable now_ms (some d)) v = elim (Bool-cases (is_idle c r now_ms)) [
  | inl e ↦ rw e tt
  | inr e ↦ elim (Bool-cases (length d.buf == 0)) [
    | inl f ↦ rw (e, f) v
    | inr f ↦ rw (e, f) (handle-Inv c _ d (touched-Inv r now_ms v))
  ]
]

run_from-Inv : (c : Config) (r : Relay) (xs : List Ready) → Inv r → Inv (run c r xs)
unfolding run
run_from-Inv c r [] v = v
run_from-Inv c r (x ∷ xs) v =
    continued (λ s. run_from-Inv c s xs) (iterate c r x) (iterate-Inv c r x v)
  where
    continued :
        ((s : Relay) → Inv s → Inv (run c s xs))
        → (o : Iteration) → AllInv o
        → Inv (elim o [ none ↦ r | some (s, out) ↦ run c s xs ])
    continued rest none w = v
    continued rest (some (s, out)) w = rest s w

-- Whatever the relay receives, in whatever order, from its start on: the pending generation always
-- has a free slot (a full one is promoted at once), a valid active generation always has both of its
-- players, and a valid pending generation never has the key of the active one.
pub run-Inv : (c : Config) (now_ms : ℕ) (xs : List Ready) → Inv (run c (init now_ms) xs)
run-Inv c now_ms xs = run_from-Inv c (init now_ms) xs (init-Inv now_ms)
