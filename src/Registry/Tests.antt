-- ===== src/Registry/Tests.antt =====
-- Runs of the registry's services: services/registry/src/service.
use mathlib.Core.List.{Memᴰ}
use magpie.Prelude.{
  ◌↔◌, ℕ, ◌≡◌, refl, none, some, List, [], ◌∷◌, Text, codes, text_eq, text_lt, is_empty, trim,
  is_ascii_alphanumeric, if◌then◌else◌,
}
use magpie.Crd.{steam_url, local, synced}
use magpie.SyncDaemon.Calls.{ModSourceStatus}
use magpie.SyncDaemon.Reconcile.{ModSource}
use magpie.SteamSync.Sources.{contains}
use magpie.SteamSync.Sources.Wanted.{IsDistinct}
use magpie.Prelude.Prog.{Holds, IfOk}
use magpie.Prelude.Dict.{get, extend, last_of}
use magpie.Registry.Missions.Metadata.{metadata_map-metadata_json}
use magpie.Prelude.{decimal, Option, map, true, false}
use magpie.Registry.Calls.{Uuid, string}
use magpie.Registry.Missions.{
  UploadMissionRequest, sanitize_mission_name, metadata_json, metadata_map, upload_mission,
  delete_mission,
}
use magpie.Registry.Missions.Uploads.{OfUpload, IsUploaded, upload_mission-OfUpload}
use magpie.Registry.Missions.Deletions.{OfDelete, IsDeleted, delete_mission-OfDelete}
use magpie.Registry.LocalMods.{extract_local_mod, is_invalid}
use magpie.Registry.LocalMods.Extraction.{OfExtract, IsExtracted, extract_local_mod-OfExtract}
use magpie.Registry.PresetExport.{plan, preset_name, launcher_order}
use magpie.Registry.PresetExport.Union.{IsNamed, HasMod, plan_iff}

abbrev resolved : List ℕ → ModSourceStatus
resolved ids = record {
  phase = synced;
  kind = [];
  display_name = [];
  resolved_mod_ids = ids;
  size_bytes = 0;
  message = [];
}

abbrev cba : ModSource
cba = record {
  name = codes "cba";
  source = steam_url (codes "1");
  status = some (resolved (450814997 ∷ []));
}

abbrev ace : ModSource
ace = record {
  name = codes "ace";
  source = steam_url (codes "2");
  status = some (resolved (463939057 ∷ 450814997 ∷ []));
}

abbrev ours : ModSource
ours = record { name = codes "ours"; source = local (codes "u"); status = none }

abbrev sources : List ModSource
sources = cba ∷ ace ∷ ours ∷ []

abbrev requested : List Text
requested = codes "ace" ∷ codes "ours" ∷ codes "cba" ∷ codes "ace" ∷ codes "gone" ∷ []

plans : plan requested sources ≡ record {
  mod_ids = 463939057 ∷ 450814997 ∷ [];
  skipped_local = codes "ours" ∷ [];
  missing = codes "gone" ∷ [];
  unresolved = [];
}
unfolding plan text_eq codes
plans = refl

is_magpie : preset_name (codes "  ") ≡ codes "magpie"
unfolding preset_name codes is_empty trim
is_magpie = refl

orders :
    launcher_order (λ t. t) ((3, codes "b") ∷ (2, codes "a") ∷ (1, codes "b") ∷ [])
    ≡ ((2, codes "a") ∷ (1, codes "b") ∷ (3, codes "b") ∷ [])
unfolding launcher_order text_lt codes text_eq
orders = refl

plan_iff_example :
    ((contains 450814997 (plan requested sources).mod_ids ≡ true) ↔ (
      (name : Text) × Memᴰ name requested
      × ((source : ModSource) × IsNamed name source sources × HasMod 450814997 source)))
    × IsDistinct (plan requested sources).mod_ids
plan_iff_example = plan_iff requested sources 450814997

sanitizes : sanitize_mission_name (codes "../co op.Altis.pbo") ≡ codes ".._co_op.Altis.pbo"
unfolding sanitize_mission_name codes is_ascii_alphanumeric
sanitizes = refl

keyless_dropped :
    metadata_json ((codes "a", codes "1") ∷ ([], codes "2") ∷ (codes "a", codes "3") ∷ [])
    ≡ ((codes "a", string (codes "3")) ∷ [])
unfolding metadata_json codes text_eq is_empty extend
keyless_dropped = refl

-- a reading of UUIDs that knows one
abbrev parse_one : Text → Option Uuid
parse_one text = if text_eq text (codes "7") then some 7 else none

abbrev coop : UploadMissionRequest
coop = record {
  id = some (codes "7");
  name = codes "co op.Altis.pbo";
  pbo_content = 1 ∷ 2 ∷ [];
  metadata = [];
}

upload_mission-OfUpload_example :
    Holds
      (OfUpload decimal (codes "/content") parse_one (codes "ann") coop)
      (λ past res.
        IfOk (IsUploaded decimal (codes "/content") parse_one (codes "ann") coop past) res)
      []
      (upload_mission decimal (codes "/content") parse_one (some (codes "ann")) coop)
upload_mission-OfUpload_example =
    upload_mission-OfUpload decimal (codes "/content") parse_one (codes "ann") coop

delete_mission-OfDelete_example :
    Holds
      (OfDelete decimal (codes "/content") parse_one (codes "7"))
      (λ past res. IfOk (λ _. IsDeleted decimal (codes "/content") parse_one (codes "7") past) res)
      []
      (delete_mission decimal (codes "/content") parse_one (codes "7"))
delete_mission-OfDelete_example =
    delete_mission-OfDelete decimal (codes "/content") parse_one (codes "7")

abbrev labels : List (Text × Text)
labels = (codes "map", codes "Altis") ∷ ([], codes "x") ∷ (codes "map", codes "Malden") ∷ []

metadata_map-metadata_json_example :
    get (codes "map") (metadata_map (some (metadata_json labels)))
    ≡ (if is_empty (codes "map") then none else last_of (codes "map") labels)
metadata_map-metadata_json_example = metadata_map-metadata_json labels (codes "map")

refuses_traversal :
    map is_invalid (codes ".." ∷ codes "a/b" ∷ [] ∷ codes "@ace" ∷ [])
    ≡ (true ∷ true ∷ true ∷ false ∷ [])
unfolding is_invalid codes text_eq is_empty
refuses_traversal = refl

extract_local_mod-OfExtract_example :
    Holds
      (OfExtract (codes "/content") (codes "@ours") (80 ∷ 75 ∷ []))
      (λ past res. IfOk (IsExtracted (codes "/content") (codes "@ours") (80 ∷ 75 ∷ []) past) res)
      []
      (extract_local_mod (λ s. s) (codes "/content") (codes "@ours") (80 ∷ 75 ∷ []))
extract_local_mod-OfExtract_example =
    extract_local_mod-OfExtract (codes "/content") (codes "@ours") (80 ∷ 75 ∷ []) (λ s. s)
