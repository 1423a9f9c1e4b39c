-- ===== src/Hwpx/Content/Safety.antt =====
-- build_plan_hwpx.py, lines 894 to 957.
use rpi_io_t_server_project.Base.{List, [], ◌∷◌, some}
use rpi_io_t_server_project.Hwpx.Call.{Call, blank, chapter, section, l1, l2, code_block, table}

unfoldable pub safety : List Call
safety =
    chapter "Ⅶ. 안전 및 자동화"
    ∷ section "1." "명령 안전 조건 (8가지)"
    ∷ table ("조건" ∷ "설명" ∷ [])
        (("command_id" ∷ "중복 실행 방지 (idempotency key)" ∷ [])
          ∷ ("expires_at" ∷ "오래된 명령 자동 폐기" ∷ [])
          ∷ ("timeout_ms" ∷ "지연 명령 실패 처리" ∷ [])
          ∷ ("require_ack" ∷ "실행 결과 필수 확인" ∷ [])
          ∷ ("local_safety_check" ∷ "현장 조건 위반 시 거부" ∷ [])
          ∷ ("audit_log" ∷ "사용자·시간·대상·결과 보관" ∷ [])
          ∷ ("fail_safe" ∷ "장애 시 안전 상태로 전환" ∷ [])
          ∷ ("manual_override" ∷ "현장 수동 제어 우선" ∷ [])
          ∷ [])
        (some (25 ∷ 75 ∷ []))
    ∷ blank
    ∷ section "2." "Alarm Rule 설계"
    ∷ l1 "alarm_rules 테이블"
    ∷ code_block
        "CREATE TABLE alarm_rules (\n    id UUID PRIMARY KEY,\n    gateway_id UUID NOT NULL REFERENCES gateways(id),\n    sensor_channel_id UUID NOT NULL REFERENCES sensor_channels(id),\n    measurement_key TEXT NOT NULL,\n    condition TEXT NOT NULL,         -- '>', '<', '=', ...\n    threshold DOUBLE PRECISION,\n    duration_sec INTEGER DEFAULT 0,\n    severity TEXT NOT NULL,          -- info | warning | critical\n    enabled BOOLEAN DEFAULT true,\n    created_at TIMESTAMPTZ DEFAULT now()\n);"
    ∷ l1 "Alarm Rule 예시"
    ∷ code_block
        "{\n  \"gateway_id\":  \"GW-000001\",\n  \"sensor_channel_id\": \"sensor-01\",\n  \"measurement_key\": \"temperature\",\n  \"condition\": \">\", \"threshold\": 35.0,\n  \"duration_sec\": 60,\n  \"severity\": \"warning\",\n  \"action\": \"notify\"\n}"
    ∷ blank
    ∷ section "3." "자동 제어 Rule (서버 + Gateway 양쪽 배포)"
    ∷ l1 "배포 이유"
    ∷ l2 "통신 장애 시에도 동작해야 하므로 Gateway 로컬 Rule Engine에 함께 배포"
    ∷ l1 "자동 제어 Rule 예시"
    ∷ code_block
        "{\n  \"rule_id\": \"control-rule-001\",\n  \"if\": {\n    \"sensor_channel_id\": \"sensor-02\",\n    \"measurement_key\": \"water_level\",\n    \"condition\": \"<\", \"threshold\": 20\n  },\n  \"then\": {\n    \"actuator_channel_id\": \"relay-01\",\n    \"action\": \"ON\"\n  },\n  \"safety\": { \"max_on_duration_sec\": 300 }\n}"
    ∷ blank
    ∷ []
