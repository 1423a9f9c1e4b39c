-- ===== src/Hwpx/Content/Api.antt =====
-- build_plan_hwpx.py, lines 1146 to 1189.
use rpi_io_t_server_project.Base.{List, [], ◌∷◌}
use rpi_io_t_server_project.Hwpx.Call.{Call, blank, chapter, section, code_block}

unfoldable pub api : List Call
api =
    chapter "Ⅹ. API 설계 (요약)"
    ∷ section "1." "Gateway API"
    ∷ code_block
        "POST   /api/gateways\nGET    /api/gateways\nGET    /api/gateways/{id}\nPATCH  /api/gateways/{id}\nDELETE /api/gateways/{id}\nGET    /api/gateways/{id}/state\nGET    /api/gateways/{id}/telemetry\nGET    /api/gateways/{id}/latest\nGET    /api/gateways/{id}/events"
    ∷ blank
    ∷ section "2." "Sensor API"
    ∷ code_block
        "POST   /api/sensor-profiles\nGET    /api/sensor-profiles\nPATCH  /api/sensor-profiles/{id}\nPOST   /api/gateways/{id}/sensor-channels\nGET    /api/gateways/{id}/sensor-channels\nPATCH  /api/sensor-channels/{id}\nDELETE /api/sensor-channels/{id}"
    ∷ blank
    ∷ section "3." "Actuator + Command API"
    ∷ code_block
        "POST   /api/actuator-profiles\nGET    /api/actuator-profiles\nPOST   /api/gateways/{id}/actuator-channels\nGET    /api/gateways/{id}/actuator-channels\nPATCH  /api/actuator-channels/{id}\nPOST   /api/gateways/{id}/commands\nGET    /api/commands/{cmd_id}"
    ∷ blank
    ∷ section "4." "Config + Admin API"
    ∷ code_block
        "POST   /api/gateways/{id}/configs/generate\nGET    /api/gateways/{id}/configs\nGET    /api/gateways/{id}/configs/latest\nPOST   /api/gateways/{id}/configs/{ver}/deploy\nPOST   /api/gateways/{id}/configs/{ver}/rollback\nPOST   /api/companies   /api/sites\nPOST   /api/users/{id}/gateway-permissions\nGET    /api/audit-logs   /api/bulk-jobs"
    ∷ blank
    ∷ []
