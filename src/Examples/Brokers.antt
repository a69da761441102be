-- ===== src/Examples/Brokers.antt =====
-- Runs of the model of src/launcher/netplay/room_broker_client.cxx.
use sf4_netplay_launcher.Prelude.{◌≡◌, refl, true, false, arith, bytes_eq}
use sf4_netplay_launcher.RoomCode.{trim_room_code, trim_start, trim_end, read_digits, atoi, signed}
use sf4_netplay_launcher.Updater.{codes, same_text, until, behind}
use sf4_netplay_launcher.Broker.{
  BrokerEnv, skip_digits, scan_unsigned, scan_more, scan_quad, is_blocked_broker_host_literal,
  parse_broker_base_url, check_host, check_port, split_path, BrokerUrlParts,
}
use sf4_netplay_launcher.Broker.Private.{dotted, in_ranges, blocked_ranges, is_blocked-dotted}
use sf4_netplay_launcher.Broker.Url.{IsSafe, parsed-IsSafe}

is_blocked-dotted_example :
    is_blocked_broker_host_literal false (dotted 172 31 0 1 (codes ".nip.io"))
    ≡ in_ranges (blocked_ranges false) 172 31
is_blocked-dotted_example =
    is_blocked-dotted false 172 31 0 1 (codes ".nip.io") (omega arith) (omega arith) (omega arith)
      (omega arith) refl

abbrev strict : BrokerEnv
strict = record { allow_local = false; allow_http = false }

abbrev broker : BrokerUrlParts
broker = record { host = codes "b.org"; port = 8443; https = true; path_prefix = codes "/v" }

parsed-IsSafe_example : IsSafe strict broker
unfolding parse_broker_base_url trim_room_code trim_start trim_end same_text bytes_eq until behind
    split_path check_host check_port atoi signed read_digits is_blocked_broker_host_literal
    scan_quad scan_unsigned
parsed-IsSafe_example = parsed-IsSafe strict (codes "https://b.org:8443/v") broker refl

-- A short form of the loopback address, which inet_aton and getaddrinfo take, is not blocked.
short_loopback : is_blocked_broker_host_literal false (codes "127.1") ≡ false
unfolding is_blocked_broker_host_literal same_text bytes_eq scan_quad scan_more scan_unsigned
    skip_digits read_digits
short_loopback = refl
