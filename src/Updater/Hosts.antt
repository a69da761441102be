-- ===== src/Updater/Hosts.antt =====
-- The addresses that src/launcher/update/github_release_client.cxx takes updates from.
use sf4_netplay_launcher.Prelude.{ℕ, ◌≡◌, Bool, false, ◌++◌, Bytes, Option, some, none, ◌==◌}
use sf4_netplay_launcher.Updater.{
  codes, HostResult, no_host, invalid_parameter, host_of, is_allowed_update_host,
}

-- None of the characters that end or split the host.
abbrev pub IsHostChar : ℕ → Type 0
IsHostChar c = ((c == b'/') ≡ false) × (((c == b'@') ≡ false) × ((c == b':') ≡ false))

-- No character of an authority ends it.
abbrev NoSlash : ℕ → Type 0
NoSlash c = (c == b'/') ≡ false

-- An address of the scheme.
abbrev pub https : Bytes → Bytes
https rest = codes "https://" ++ rest

abbrev verdict : HostResult → Option Bool
verdict no_host = some false
verdict invalid_parameter = none
verdict (host_of host) = some (is_allowed_update_host host)
