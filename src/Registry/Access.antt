-- ===== src/Registry/Access.antt =====
-- services/registry/src/main.rs: the scope that each RPC of the service requires. The `match` on the path is
-- a lookup in the list of its arms.
use magpie.Prelude.{Option, [], ◌∷◌, Text, codes}
use magpie.Prelude.Dict.{Dict, get}

abbrev pub procedures : Dict Text
procedures =
    (codes "/registry.v1.ModSourceService/AddModSource", codes "mod-sources:write")
    ∷ (codes "/registry.v1.ModSourceService/DeleteModSource", codes "mod-sources:write")
    ∷ (codes "/registry.v1.ModSourceService/ListModSources", codes "mod-sources:read")
    ∷ (codes "/registry.v1.ModSourceService/SetModSourceMetadata", codes "mod-sources:write")
    ∷ (codes "/registry.v1.ModSourceService/SyncModSource", codes "mod-sources:write")
    ∷ (codes "/registry.v1.ModSourceService/ListSyncedMods", codes "mod-sources:read")
    ∷ (codes "/registry.v1.ModSourceService/GetSyncedMod", codes "mod-sources:read")
    ∷ (codes "/registry.v1.ModSourceService/ExportPreset", codes "mod-sources:read")
    ∷ (codes "/registry.v1.ModSourceService/InvalidateMod", codes "mod-sources:invalidate")
    ∷ (codes "/registry.v1.MissionService/UploadMission", codes "missions:write")
    ∷ (codes "/registry.v1.MissionService/DeleteMission", codes "missions:write")
    ∷ (codes "/registry.v1.MissionService/SetMissionMetadata", codes "missions:write")
    ∷ (codes "/registry.v1.MissionService/ListMissions", codes "missions:read")
    ∷ (codes "/registry.v1.MissionService/GetMission", codes "missions:read")
    ∷ (codes "/registry.v1.AdminService/GetDiskUsage", codes "admin:disk-usage")
    ∷ (codes "/registry.v1.AdminService/RefreshSteamAuth", codes "admin:steam-auth")
    ∷ (codes "/registry.v1.AdminService/ExportState", codes "admin:export")
    ∷ (codes "/registry.v1.AdminService/ImportState", codes "admin:import")
    ∷ (codes "/registry.v1.AdminService/ListAcl", codes "admin:acl")
    ∷ (codes "/registry.v1.AdminService/SetAclScopes", codes "admin:acl")
    ∷ (codes "/registry.v1.AdminService/BeginSteamQrLogin", codes "admin:steam-auth")
    ∷ (codes "/registry.v1.AdminService/PollSteamQrLogin", codes "admin:steam-auth")
    ∷ (codes "/registry.v1.AdminService/ResolveWorkshopItems", codes "admin:steam-auth")
    ∷ (codes "/registry.v1.AdminService/ListWorkshopCollections", codes "admin:steam-auth")
    ∷ (codes "/registry.v1.AdminService/GetWorkshopCollection", codes "admin:steam-auth")
    ∷ (codes "/registry.v1.AdminService/PublishWorkshopCollection", codes "admin:steam-auth")
    ∷ (codes "/registry.v1.AdminService/DeleteWorkshopCollection", codes "admin:steam-auth")
    ∷ (codes "/registry.v1.AdminService/ListSecrets", codes "admin:secrets")
    ∷ (codes "/registry.v1.AdminService/PutSecret", codes "admin:secrets")
    ∷ (codes "/registry.v1.AdminService/DeleteSecret", codes "admin:secrets")
    ∷ []

unfoldable pub required_scope : Text → Option Text
required_scope path = get path procedures
