-- ===== src/SyncDaemon/Tests.antt =====
-- Examples for services/sync-daemon.
use magpie.Prelude.{Bool, false, none, some, [], ◌∷◌, Text, codes, is_ascii_digit}
use magpie.Prelude.Prog.{Holds, IfOk}
use magpie.Crd.{steam_url}
use magpie.SyncDaemon.Calls.{Listing}
use magpie.SyncDaemon.Service.{publish, delete_owned}
use magpie.SyncDaemon.Ownership.{OfPublish, IsPublished, IsOwned, publish-delete_owned}
use magpie.SyncDaemon.Reconcile.{ModSource, apply}
use magpie.SyncDaemon.Statuses.{OfPass, apply-OfPass}

abbrev never : Text → Bool
never e = false

abbrev shown : Text → Text
shown s = s

abbrev listing : Listing
listing = record { title = codes "Mods"; description = []; visibility = 0 }

publish-delete_owned_example :
    Holds OfPublish
      (IsPublished never shown (some 7))
      []
      (publish never shown (some 7) listing (1 ∷ 2 ∷ []))
    × Holds OfPublish (λ h r. IfOk (λ _. IsOwned 7 h) r) [] (delete_owned never shown 7)
publish-delete_owned_example = publish-delete_owned never shown (some 7) listing (1 ∷ 2 ∷ []) 7

abbrev source : ModSource
source = record {
  name = codes "s";
  source = steam_url (codes "https://steamcommunity.com/sharedfiles/filedetails/?id=7");
  status = none;
}

apply-OfPass_example :
    Holds (OfPass source) (λ h r. Unit {0}) [] (apply is_ascii_digit never 3600 source)
apply-OfPass_example = apply-OfPass source is_ascii_digit never 3600
