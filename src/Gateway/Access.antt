-- ===== src/Gateway/Access.antt =====
-- services/gateway/src/main.rs: the scope that each RPC of the service requires. The `match` on the path is
-- a lookup in the list of its arms.
use magpie.Prelude.{Option, [], ◌∷◌, Text, codes}
use magpie.Prelude.Dict.{Dict, get}

abbrev pub procedures : Dict Text
procedures =
    (codes "/controller.v1.ServerService/CreateServer", codes "servers:write")
    ∷ (codes "/controller.v1.ServerService/DeleteServer", codes "servers:write")
    ∷ (codes "/controller.v1.ServerService/UpdateServer", codes "servers:write")
    ∷ (codes "/controller.v1.ServerService/StartServer", codes "servers:write")
    ∷ (codes "/controller.v1.ServerService/StopServer", codes "servers:write")
    ∷ (codes "/controller.v1.ServerService/ListServers", codes "servers:read")
    ∷ (codes "/controller.v1.ServerService/GetServer", codes "servers:read")
    ∷ (codes "/controller.v1.ServerService/GetServerHealth", codes "servers:read")
    ∷ (codes "/controller.v1.ServerService/GetServerLogs", codes "servers:logs")
    ∷ []

unfoldable pub required_scope : Text → Option Text
required_scope path = get path procedures
