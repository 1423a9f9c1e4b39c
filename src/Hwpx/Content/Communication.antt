-- ===== src/Hwpx/Content/Communication.antt =====
-- build_plan_hwpx.py, lines 793 to 891.
use rpi_io_t_server_project.Base.{List, [], ◌∷◌, some}
use rpi_io_t_server_project.Hwpx.Call.{
  Call, blank, chapter, section, l1, l2, note, code_block, table,
}

unfoldable pub communication : List Call
communication =
    chapter "Ⅵ. 통신 설계 (MQTT)"
    ∷ section "1." "Topic 설계 원칙"
    ∷ l1 "비권장 (사용자 기준)"
    ∷ l2 "user/{userId}/gateway/{gatewayId}/telemetry → 사용자 변경/이전 시 topic 재구성 필요, ACL 복잡"
    ∷ l1 "권장 (Gateway 기준)"
    ∷ l2 "gw/{gatewayId}/telemetry → Gateway 단일 식별자 기준, ACL 단순, 사용자 매핑은 Backend DB"
    ∷ blank
    ∷ section "2." "Topic 권한 (publish / subscribe)"
    ∷ l1 "Gateway → Server (publish 권한)"
    ∷ table ("Topic" ∷ "용도" ∷ [])
        (("gw/{id}/telemetry" ∷ "센서 측정값" ∷ [])
          ∷ ("gw/{id}/state" ∷ "전체 상태 (cpu·mem·net)" ∷ [])
          ∷ ("gw/{id}/heartbeat" ∷ "주기 alive 신호" ∷ [])
          ∷ ("gw/{id}/event" ∷ "에러·경보·이벤트" ∷ [])
          ∷ ("gw/{id}/config/reported" ∷ "현재 적용된 config" ∷ [])
          ∷ ("gw/{id}/command/response" ∷ "명령 실행 결과" ∷ [])
          ∷ ("gw/{id}/ota/status" ∷ "OTA 진행 상황" ∷ [])
          ∷ [])
        (some (40 ∷ 60 ∷ []))
    ∷ l1 "Server → Gateway (subscribe 권한)"
    ∷ table ("Topic" ∷ "용도" ∷ [])
        (("gw/{id}/config/desired" ∷ "서버가 발행하는 설정" ∷ [])
          ∷ ("gw/{id}/command/request" ∷ "원격 제어 명령" ∷ [])
          ∷ ("gw/{id}/ota/request" ∷ "OTA 작업 지시" ∷ [])
          ∷ [])
        (some (40 ∷ 60 ∷ []))
    ∷ l1 "VerneMQ ACL 정책 (Phase 7)"
    ∷ l2 "Gateway 계정은 자기 gw/{own_id}/* 만 publish/subscribe 가능"
    ∷ l2 "Backend 계정은 모든 topic publish/subscribe 가능"
    ∷ l2 "Phase 1 : password file (gateway / admin 계정 1개씩)"
    ∷ l2 "Phase 7 : X.509 client cert + serial → topic ACL 매핑"
    ∷ blank
    ∷ section "3." "Payload 예시"
    ∷ l1 "Telemetry Payload (gw/{id}/telemetry)"
    ∷ code_block
        "{\n  \"message_id\": \"msg-20260502-000001\",\n  \"gateway_id\": \"GW-000001\",\n  \"timestamp\":  \"2026-05-02T12:00:00Z\",\n  \"values\": [\n    {\n      \"sensor_channel_id\": \"sensor-01\",\n      \"measurement_key\": \"temperature\",\n      \"value\": 24.7, \"unit\": \"degC\", \"quality\": \"good\"\n    },\n    {\n      \"sensor_channel_id\": \"sensor-01\",\n      \"measurement_key\": \"humidity\",\n      \"value\": 61.2, \"unit\": \"%\", \"quality\": \"good\"\n    }\n  ]\n}"
    ∷ l1 "Gateway State Payload (gw/{id}/state)"
    ∷ code_block
        "{\n  \"gateway_id\": \"GW-000001\",\n  \"timestamp\":  \"2026-05-02T12:00:00Z\",\n  \"status\":     \"online\",\n  \"app_version\":      \"1.0.3\",\n  \"firmware_version\": \"2026.05.02\",\n  \"config_version\":   12,\n  \"uptime_sec\":       82344,\n  \"cpu_temp\":         51.3,\n  \"memory_usage_percent\": 38.7,\n  \"disk_usage_percent\":   42.1,\n  \"network\": {\n    \"ethernet\": true,\n    \"ip\":       \"192.168.0.25\",\n    \"rtt_ms\":   34\n  }\n}"
    ∷ note
        "공통 envelope : message_id (idempotency) + gateway_id + timestamp(UTC ISO8601). 모든 메시지 QoS 1 권장."
    ∷ blank
    ∷ section "4." "원격 제어 명령 흐름 (11 step)"
    ∷ l1 "1) User → Backend API : 릴레이 ON 요청 (POST /api/.../commands)"
    ∷ l1 "2) Backend → Backend : 사용자 권한 검사 (User × Gateway)"
    ∷ l1 "3) Backend → PostgreSQL : command 생성 (status=pending)"
    ∷ l1 "4) Backend → VerneMQ : MQTT publish gw/{id}/command/request"
    ∷ l1 "5) VerneMQ → Gateway : 명령 전달"
    ∷ l1 "6) Gateway → Gateway : Local Safety Rule 체크 (interlock, max_on)"
    ∷ l1 "7) Gateway → Relay/Valve : GPIO 제어"
    ∷ l1 "8) Relay/Valve → Gateway : 실행 결과 피드백"
    ∷ l1 "9) Gateway → VerneMQ : MQTT publish gw/{id}/command/response"
    ∷ l1 "10) Worker → PostgreSQL : 응답 수신, command status 업데이트"
    ∷ l1 "11) Backend → User : 결과 표시 (executed / failed / timeout)"
    ∷ blank
    ∷ []
