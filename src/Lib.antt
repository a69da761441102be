-- ===== src/Lib.antt =====
-- SF4 Netplay Launcher: a model of its netplay core, and what is proved of it.
--
-- Two players' games are joined by a lobby server (SessionServer), which both clients connect to; it
-- tracks who plays, with what settings, and tells both when to start. The battle itself runs over
-- GGPO, by UDP: each client registers with the UDP relay of the room (RegisterWithUdpRelay), which
-- pairs the two endpoints and forwards their datagrams. In the game, a gate (GgpoGateModel) says
-- whether the next deterministic frame may advance, and checkpoints of the state are compared by
-- their hash (statehash::Hasher).
--
-- Files, with the code that they model (paths from the repository's root):
--   Prelude          tests, lists, signed integers and bits over the native numbers
--   Gate             src/common/sf4e__GgpoGate.hxx and .cxx: one function for each member function;
--                    Gate/History runs any sequence of the host's calls
--   StateHash        src/common/sf4e__StateHash.hxx: 64-bit FNV-1a, its wrap-around written out
--   Diagnostics      src/common/sf4e__RollbackDiagnostics.hxx and .cxx: Timing (TimingStat), Recorder
--                    (RollbackDiagnostics); doubles are a parameter, with the operations used
--   Pacing           src/common/sf4e__PacingController.hxx, doubles as a parameter too
--   RoomCode         src/launcher/netplay/netplay_room_code.cxx, TrimRoomCodeInPlace of
--                    src/common/sf4e__NetUtil.cxx
--   Broker           src/launcher/netplay/room_broker_client.cxx: the address of the room broker (Url)
--                    and the hosts that it may not have (Private)
--   Connect          src/launcher/connect_strategy.cxx: the endpoint of a room (Joins), the plan of the
--                    broker for GGPO (Plans); a JSON object is a function from keys to values
--   Updater          src/launcher/update/github_release_client.cxx: the check of the addresses
--                    of updates (Hosts), the comparison of versions (Versions)
--   UdpRelay         src/relay/ggpo_udp_relay.cxx: Token (IsHexToken, TokenMatches), Packet (the
--                    forms of a packet, ReadU64Be), Loop (the main loop: `handle` is one datagram,
--                    `iterate` one iteration, `run` the loop over a list of inputs)
--   GgpoTransport    src/session/sf4e__GgpoTransport.cxx: RegisterWithUdpRelay
--   Match            the game side of netplay; the record App has the static variables of the files
--                    of src/sf4e that netplay keeps its state in, and the calls made on GGPO and on
--                    the game as a list of effects. Battle: sf4e__Game__Battle__System.cxx, the life of
--                    a session of GGPO; Update: its BattleUpdate, CloseBattle and GGPO's callbacks;
--                    Control, Menu, Frame: sf4e__NetplayFacade.cxx (the loss of the room and the end
--                    of a match; TickMainMenu; TickFrame); Begin: sf4e__UserApp.cxx, from a battle's
--                    tasks to StartGGPO; Transport: PrepareForBattle of
--                    src/session/sf4e__GgpoTransport.cxx; Versus: sf4e__GameEvents.cxx; Run: all
--                    that can happen, as actions, and `run` over a list of them. The children of
--                    Lifetime go through these actions; Degraded, AutoStart, Vps, Deferral and
--                    Loading are about one concern each
--   Checkpoints      src/sf4e/sf4e__Game__Battle__System.cxx: the snapshots and hash checkpoints of
--                    frames, of the functions ComputeSemanticHashes to CaptureSnapshot
--   Session          src/session: Protocol is sf4e__SessionProtocol, Client is sf4e__SessionClient,
--                    Server is sf4e__SessionServer, GgpoRelay is sf4e__GgpoRelay, which carries
--                    GGPO through the session; Client/Step has the handlers and the two passes of
--                    Step, Client/Events the other entry points; Server/Handle has a function for
--                    each branch of the `if` chain of Step, Server/Step the loop, the broadcasts at
--                    its end, the connection callback and Close; Wire says how each side reads
--                    what the other sends, for Joining and Readiness, which run both sides
--   Examples         the model at concrete inputs
--
-- State is passed explicitly; what is sent is returned as a list of packets. Undefined behaviour of
-- the source is `none`, or `undefined` for the result of Step. Loops over containers are structural;
-- the loop of std::to_string has fuel for ten digits, enough for a 32-bit handle. `htons` is a
-- parameter, as are the results of sending, of binding sockets and of the clock. Texts are lists of
-- byte values without a terminating zero; a string of a broker's reply may hold zeros, and is cut at
-- the first where the source copies it by c_str().
--
-- What the network, GGPO, Windows and the game give to one action is a record that comes with it
-- (World, Network, Outside, Menu, Tick, Frame): the tick count, the answers to probes and punches,
-- the results of GGPO's calls, the state of the characters behind an update.
--
-- Not modelled: sockets, the networking and JSON libraries (a message comes parsed, its fields
-- missing where parsing throws), logging, the user interface, the launcher but for its room codes,
-- the broker's address and answers for a room, and the updater's checks. Of the game side: the
-- detours and the game's memory, the saved states for a rollback, the frames that the development tools add, the drawing of the overlay but for
-- three of its buttons, the texts of status and diagnostics, the waiting of Steam_PostUpdate for
-- GGPO's pacing, NatProbe and TryRestartGgpoLegacyTunnel, which nothing calls.
pub mod Prelude
pub mod Gate
pub mod StateHash
pub mod UdpRelay
pub mod GgpoTransport
pub mod Pacing
pub mod RoomCode
pub mod Updater
pub mod Session
pub mod Examples
pub mod Checkpoints
pub mod Match
pub mod Broker
pub mod Connect
pub mod Diagnostics
