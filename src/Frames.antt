-- ===== src/Frames.antt =====
-- The frames that the server writes by hand (src/handlers/message.rs, ws.rs, http.rs).
use dendri_server.Common.{◌++◌, Text, codes}
use dendri_server.Enums.{PeerError, error_str}

-- `{"type":"ERROR","payload":{"msg":"…"}}`
unfoldable pub error_frame : Text → Text
error_frame msg = codes "{\"type\":\"ERROR\",\"payload\":{\"msg\":\"" ++ (msg ++ codes "\"}}")

unfoldable pub make_error_json : PeerError → Text
make_error_json e = error_frame (error_str e)

unfoldable pub denied_frame : Text → Text → Text
denied_frame room reason =
    codes "{\"type\":\"ROOM-JOIN-DENIED\",\"room\":\""
    ++ (room ++ (codes "\",\"reason\":\"" ++ (reason ++ codes "\"}")))

unfoldable pub peers_frame : Text → Text → Text
peers_frame room peers_json =
    codes "{\"type\":\"ROOM-PEERS\",\"room\":\""
    ++ (room ++ (codes "\",\"payload\":" ++ (peers_json ++ codes "}")))

unfoldable pub presence_frame : Text → Text → Text → Text
presence_frame src room payload =
    codes "{\"type\":\"PRESENCE-UPDATE\",\"src\":\""
    ++ (src
        ++ (codes "\",\"room\":\""
            ++ (room ++ (codes "\",\"payload\":" ++ (payload ++ codes "}")))))
