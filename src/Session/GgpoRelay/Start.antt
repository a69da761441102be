-- ===== src/Session/GgpoRelay/Start.antt =====
-- What Start of src/session/sf4e__GgpoRelay.cxx leaves, for all that the system may do.
use mathlib.Core.List.{append-nil, append_assoc}
use sf4_netplay_launcher.Prelude.{
  ℕ, ◌+◌, ◌%◌, ◌^◌, ◌≡◌, refl, sym, ◌∙◌, ap, true, false, ◌||◌, Option, none, some, List, [], ◌∷◌,
  ◌++◌, ◌==◌, if◌then◌else◌, arith, Option-cases, Bool-cases, inl, inr,
}
use sf4_netplay_launcher.Session.Protocol.{ConnectionId, conn_id_eq, MemberData}
use sf4_netplay_launcher.Session.Client.{Client}
use sf4_netplay_launcher.Session.GgpoRelay.{
  VirtualPeer, GgpoRelay, Winsock, ggpo_relay_virtual_base, ensure_winsock, close_sockets, reset,
  Started, create_virtual_peer, start_loop, start,
}

-- The members other than the client himself.
abbrev pub others : ConnectionId → List MemberData → List MemberData
others cid [] = []
others cid (m ∷ ms) = if conn_id_eq m.conn_id cid then others cid ms else m ∷ others cid ms

abbrev pub peer_of : MemberData → ℕ → ℕ → VirtualPeer
peer_of m sock port = record { conn_id = m.conn_id; sock = some sock; virtual_port = port }

abbrev pub next_port : ℕ → ℕ
next_port port = (port + 1) % 2 ^ 16

-- A peer for each member at consecutive ports, if all the ports can be bound.
abbrev pub bind_all : Winsock → List MemberData → ℕ → Option (List VirtualPeer)
bind_all os [] port = some []
bind_all os (m ∷ ms) port = elim (os.bind_port port) [
  | none ↦ none
  | some sock ↦ elim (bind_all os ms (next_port port)) [
    | none ↦ none
    | some ps ↦ some (peer_of m sock port ∷ ps)
  ]
]

-- The sockets that are bound before the first port that cannot be.
abbrev pub opened : Winsock → List MemberData → ℕ → List ℕ
opened os [] port = []
opened os (m ∷ ms) port = elim (os.bind_port port) [
  | none ↦ []
  | some sock ↦ sock ∷ opened os ms (next_port port)
]

abbrev pub concluded :
    Winsock → GgpoRelay → List ℕ → List MemberData → ℕ → Option (List VirtualPeer) → Started
concluded os r closed ms port none = record {
  relay = reset r;
  closed = closed ++ (close_sockets r.peers ++ opened os ms port);
  is_ok = false;
}
concluded os r closed ms port (some ps) = record {
  relay = record r { peers = r.peers ++ ps };
  closed = closed;
  is_ok = true;
}

abbrev ready : GgpoRelay → GgpoRelay
ready r = record r { winsock_init = true }

abbrev add_peer : GgpoRelay → VirtualPeer → GgpoRelay
add_peer r p = record r { peers = r.peers ++ p ∷ [] }

create_lem :
    (os : Winsock) (r : GgpoRelay) (m : MemberData) (port : ℕ) (o : Option ℕ)
    → os.bind_port port ≡ o
    → create_virtual_peer os (ready r) m.conn_id port
      ≡ elim o [ none ↦ none | some sock ↦ some (add_peer (ready r) (peer_of m sock port)) ]
unfolding create_virtual_peer ensure_winsock
create_lem os r m port none h = rw h refl
create_lem os r m port (some sock) h = rw h refl

close-append :
    (ps : List VirtualPeer) (m : MemberData) (sock port : ℕ)
    → close_sockets (ps ++ peer_of m sock port ∷ []) ≡ close_sockets ps ++ sock ∷ []
unfolding close_sockets
close-append [] m sock port = refl
close-append (p ∷ ps) m sock port = ground (arith, close-append ps m sock port)

opened-cons :
    (os : Winsock) (m : MemberData) (ms : List MemberData) (sock port : ℕ)
    → os.bind_port port ≡ some sock
    → opened os (m ∷ ms) port ≡ sock ∷ opened os ms (next_port port)
opened-cons os m ms sock port h =
    ap
      (λ (o : Option ℕ). elim o as (λ x. List ℕ) [
        | none ↦ []
        | some s ↦ s ∷ opened os ms (next_port port)
      ])
      h

opened-none :
    (os : Winsock) (m : MemberData) (ms : List MemberData) (port : ℕ)
    → os.bind_port port ≡ none
    → opened os (m ∷ ms) port ≡ []
opened-none os m ms port h =
    ap
      (λ (o : Option ℕ). elim o as (λ x. List ℕ) [
        | none ↦ []
        | some s ↦ s ∷ opened os ms (next_port port)
      ])
      h

concluded-none :
    (os : Winsock) (r : GgpoRelay) (closed : List ℕ) (m : MemberData) (ms : List MemberData)
    (port : ℕ)
    → os.bind_port port ≡ none
    → concluded os r closed (m ∷ ms) port none
      ≡ record { relay = reset r; closed = closed ++ close_sockets r.peers; is_ok = false }
concluded-none os r closed m ms port h =
    rw (opened-none os m ms port h, append-nil (close_sockets r.peers)) refl

concluded-cons :
    (os : Winsock) (r : GgpoRelay) (closed : List ℕ) (m : MemberData) (ms : List MemberData)
    (sock port : ℕ) (o : Option (List VirtualPeer))
    → os.bind_port port ≡ some sock
    → concluded os (add_peer r (peer_of m sock port)) closed ms (next_port port) o
      ≡ concluded os r closed
          (m ∷ ms)
          port
          (elim o [ none ↦ none | some ps ↦ some (peer_of m sock port ∷ ps) ])
unfolding reset
concluded-cons os r closed m ms sock port none h =
    rw
      (
        opened-cons os m ms sock port h,
        close-append r.peers m sock port,
        append_assoc (close_sockets r.peers) (sock ∷ []) (opened os ms (next_port port)),
      )
      refl
concluded-cons os r closed m ms sock port (some ps) h =
    rw (append_assoc r.peers (peer_of m sock port ∷ []) ps) refl

start_loop_exact :
    (os : Winsock) (r : GgpoRelay) (closed : List ℕ) (cid : ConnectionId) (ms : List MemberData)
    (port : ℕ)
    → start_loop os (ready r) closed cid ms port
      ≡ concluded os (ready r) closed (others cid ms) port (bind_all os (others cid ms) port)
unfolding start_loop
start_loop_exact os r closed cid [] port = rw (append-nil r.peers) refl
start_loop_exact os r closed cid (m ∷ ms) port = elim (Bool-cases (conn_id_eq m.conn_id cid)) [
  | inl e ↦ rw (e, start_loop) (start_loop_exact os r closed cid ms port)
  | inr e ↦ elim (Option-cases (os.bind_port port)) [
    | inl h ↦
        rw (e, start_loop, create_lem os r m port none h, h)
          (sym (concluded-none os (ready r) closed m (others cid ms) port h))
    | inr (sock, h) ↦
        rw (e, start_loop, create_lem os r m port (some sock) h, h)
          (start_loop_exact os (add_peer r (peer_of m sock port)) closed cid ms (next_port port)
            ∙ concluded-cons os (ready r) closed m (others cid ms) sock port
                (bind_all os (others cid ms) (next_port port)) h)
  ]
]

-- The relay that Start begins with, before its loop.
abbrev pub begun : GgpoRelay → ℕ → GgpoRelay
begun r port = record (reset r) {
  winsock_init = true;
  local_ggpo_port = port;
  has_client = true;
  active = true;
}

-- With a client, a port and a working Winsock, Start closes the sockets it had and then either has a peer for each other member of the lobby, in their order at consecutive ports from 40000, and no other, or, if one of the ports cannot be bound, is inactive and without peers, every socket bound so far closed.
pub start_exact :
    (os : Winsock) (r : GgpoRelay) (port : ℕ) (client : Client)
    → (port == 0) ≡ false
    → (r.winsock_init || os.startup_ok) ≡ true
    → let ms = others client.cid client.lobby_data.members in
      start os r port (some client)
      ≡ concluded os
          (begun r port)
          (close_sockets r.peers)
          ms
          ggpo_relay_virtual_base
          (bind_all os ms ggpo_relay_virtual_base)
unfolding start ensure_winsock reset
start_exact os r port client p w =
    rw (w, p)
      (start_loop_exact os (begun r port) (close_sockets r.peers) client.cid
        client.lobby_data.members ggpo_relay_virtual_base)
