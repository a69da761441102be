-- ===== src/Examples/Updates.antt =====
-- Runs of the model of src/launcher/update/github_release_client.cxx.
use sf4_netplay_launcher.Prelude.{
  ◌≡◌, refl, true, false, [], ◌∷◌, Bytes, arith, some, bytes_eq, Bool, not, ◌&&◌, ◌==◌,
}
use sf4_netplay_launcher.Updater.{
  codes, same_text, until, behind, parse_https_host_from_url, is_allowed_update_host,
  compare_versions, is_allowed_update_url,
}
use sf4_netplay_launcher.Prelude.Int.{ℤ, pos, eqz}
use sf4_netplay_launcher.Updater.Versions.{Triple, tag, is_negative, compare_versions_exact}
use sf4_netplay_launcher.Updater.Hosts.{https}

-- The test of a whole text.
abbrev is_host : Bytes → Bool
is_host [] = true
is_host (c ∷ cs) = not (c == b'/') && not (c == b'@') && not (c == b':') && is_host cs

-- A question mark ends the host of an address, but not here: the host is e.org.
mistaken : is_allowed_update_url (https (codes "e.org?@github.com/")) ≡ some true
unfolding is_allowed_update_url parse_https_host_from_url is_allowed_update_host same_text bytes_eq
    behind until
mistaken = refl

abbrev v1_9_0 : Triple
v1_9_0 = record { major = 1; minor = 9; patch = 0 }

abbrev v1_10_0 : Triple
v1_10_0 = record { major = 1; minor = 10; patch = 0 }

compare_versions_exact_example :
    (d : ℤ) × ((compare_versions (tag v1_9_0) (tag v1_10_0) ≡ some d)
      × ((is_negative d ≡ true) × (eqz d (pos 0) ≡ false)))
compare_versions_exact_example =
    compare_versions_exact v1_9_0 v1_10_0 (omega arith, (omega arith, omega arith))
      (omega arith, (omega arith, omega arith))
