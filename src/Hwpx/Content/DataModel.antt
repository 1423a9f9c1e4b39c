-- ===== src/Hwpx/Content/DataModel.antt =====
-- build_plan_hwpx.py, lines 570 to 790.
use rpi_io_t_server_project.Base.{List, [], ◌∷◌, some}
use rpi_io_t_server_project.Hwpx.Call.{
  Call, blank, chapter, section, l1, l2, note, code_block, table,
}

unfoldable pub data_model_1 : List Call
data_model_1 =
    chapter "Ⅴ. 데이터 모델 (PostgreSQL)"
    ∷ section "1." "핵심 ERD 요약"
    ∷ l1
        "Identity / Auth : users, user_company_roles, user_site_permissions, user_gateway_permissions"
    ∷ l1 "Asset 계층 : companies → sites → gateways"
    ∷ l1 "Profile : gateway_profiles, sensor_profiles, actuator_profiles"
    ∷ l1 "Channel (인스턴스) : sensor_channels, actuator_channels (gateways에 종속)"
    ∷ l1 "Telemetry : telemetry (월별 partition), telemetry_latest"
    ∷ l1 "Config : gateway_configs, gateway_config_history"
    ∷ l1 "Operations : commands, alarm_rules, audit_logs, bulk_jobs"
    ∷ blank
    ∷ section "2." "핵심 테이블 DDL (Phase 2 우선)"
    ∷ l1 "companies"
    ∷ code_block
        "CREATE TABLE companies (\n    id UUID PRIMARY KEY,\n    name TEXT NOT NULL,\n    company_type TEXT NOT NULL,      -- 'management' | 'customer'\n    status TEXT NOT NULL DEFAULT 'active',\n    created_at TIMESTAMPTZ DEFAULT now(),\n    updated_at TIMESTAMPTZ DEFAULT now()\n);"
    ∷ l1 "sites"
    ∷ code_block
        "CREATE TABLE sites (\n    id UUID PRIMARY KEY,\n    company_id UUID NOT NULL REFERENCES companies(id),\n    name TEXT NOT NULL,\n    address TEXT,\n    latitude  DOUBLE PRECISION,\n    longitude DOUBLE PRECISION,\n    created_at TIMESTAMPTZ DEFAULT now()\n);"
    ∷ l1 "users"
    ∷ code_block
        "CREATE TABLE users (\n    id UUID PRIMARY KEY,\n    keycloak_user_id TEXT UNIQUE NOT NULL,\n    email TEXT UNIQUE NOT NULL,\n    name TEXT NOT NULL,\n    status TEXT NOT NULL DEFAULT 'active',\n    created_at TIMESTAMPTZ DEFAULT now()\n);"
    ∷ l1 "gateways"
    ∷ code_block
        "CREATE TABLE gateways (\n    id UUID PRIMARY KEY,\n    serial_number TEXT UNIQUE NOT NULL,\n    name TEXT NOT NULL,\n    company_id UUID NOT NULL REFERENCES companies(id),\n    site_id UUID REFERENCES sites(id),\n    gateway_profile_id UUID REFERENCES gateway_profiles(id),\n    status TEXT NOT NULL DEFAULT 'offline',\n    firmware_version TEXT,\n    app_version TEXT,\n    config_version INTEGER DEFAULT 0,\n    last_seen_at TIMESTAMPTZ,\n    registered_at TIMESTAMPTZ DEFAULT now()\n);"
    ∷ l1 "user_gateway_permissions"
    ∷ code_block
        "CREATE TABLE user_gateway_permissions (\n    id UUID PRIMARY KEY,\n    user_id UUID NOT NULL REFERENCES users(id),\n    gateway_id UUID NOT NULL,\n    permission TEXT NOT NULL,\n        -- view | control | configure | maintain | admin\n    UNIQUE(user_id, gateway_id, permission)\n);"
    ∷ blank
    ∷ section "3." "Sensor Profile / Sensor Channel 분리"
    ∷ l1 "sensor_profiles : 센서 모델 정의 (재사용)"
    ∷ l2 "벤더 / 모델 / 통신 프로토콜 / interface_type"
    ∷ l2 "측정 항목 (key, display_name, unit, data_type)"
    ∷ l2 "scale / offset / min / max / quality"
    ∷ l2 "register map (Modbus function_code, register, length)"
    ∷ l2 "default_polling_interval_sec"
    ∷ l2 "visualization (line_chart / gauge / map)"
    ∷ l1 "예시 : RS485 Temperature Humidity Sensor"
    ∷ code_block
        "{\n  \"name\": \"RS485 Temperature Humidity Sensor\",\n  \"vendor\": \"Generic\", \"model\": \"TH-RS485-01\",\n  \"protocol\": \"modbus_rtu\", \"interface_type\": \"rs485\",\n  \"default_polling_interval_sec\": 10,\n  \"measurements\": [\n    {\"key\": \"temperature\", \"unit\": \"degC\",\n     \"modbus\": {\"function_code\": 3, \"register\": 0, \"length\": 1},\n     \"scale\": 0.1, \"visualization\": \"line_chart\"},\n    {\"key\": \"humidity\", \"unit\": \"%\",\n     \"modbus\": {\"function_code\": 3, \"register\": 1, \"length\": 1},\n     \"scale\": 0.1, \"visualization\": \"line_chart\"}\n  ]\n}"
    ∷ l1 "sensor_channels : Gateway에 실제 연결된 인스턴스"
    ∷ l2 "어떤 Gateway에 (gateway_id)"
    ∷ l2 "어떤 Sensor Profile을 (sensor_profile_id)"
    ∷ l2 "어떤 인터페이스/포트로 (interface_name)"
    ∷ l2 "Modbus slave_id / address"
    ∷ l2 "polling_interval_sec / enabled / display_name"
    ∷ l2 "override 가능한 config JSONB"
    ∷ l1 "예시 : GW-000001의 1번 RS-485에 슬레이브 1로 연결"
    ∷ code_block
        "{\n  \"gateway_id\":         \"GW-000001\",\n  \"sensor_channel_id\":  \"sensor-01\",\n  \"sensor_profile_id\":  \"profile-rs485-temp-humi-001\",\n  \"display_name\":       \"1번 온습도 센서\",\n  \"interface\":          \"rs485_1\",\n  \"protocol\":           \"modbus_rtu\",\n  \"slave_id\":           1,\n  \"polling_interval_sec\": 10,\n  \"enabled\":            true\n}"
    ∷ blank
    ∷ []

unfoldable pub data_model_2 : List Call
data_model_2 =
    section "4." "Telemetry 저장 모델"
    ∷ l1 "저장 전략"
    ∷ l2 "센서마다 컬럼이 다르므로 measurement_key + value_* 다중 컬럼 패턴"
    ∷ l2 "월별 partition으로 retention 정책 (drop partition으로 빠른 정리)"
    ∷ l2 "대시보드는 telemetry_latest 단일 테이블 → O(1) 조회"
    ∷ l2 "Worker에서 INSERT + UPSERT 동시 수행"
    ∷ l1 "DDL"
    ∷ code_block
        "CREATE TABLE telemetry (\n    id BIGSERIAL,\n    company_id UUID NOT NULL,\n    site_id UUID,\n    gateway_id UUID NOT NULL REFERENCES gateways(id),\n    sensor_channel_id UUID NOT NULL REFERENCES sensor_channels(id),\n    measurement_key TEXT NOT NULL,\n    ts TIMESTAMPTZ NOT NULL,\n    value_double DOUBLE PRECISION,\n    value_text TEXT, value_bool BOOLEAN, value_json JSONB,\n    unit TEXT, quality TEXT, raw JSONB,\n    PRIMARY KEY (id, ts)\n) PARTITION BY RANGE (ts);\n\nCREATE TABLE telemetry_2026_05 PARTITION OF telemetry\n    FOR VALUES FROM ('2026-05-01') TO ('2026-06-01');\n\nCREATE TABLE telemetry_latest (\n    gateway_id UUID, sensor_channel_id UUID,\n    measurement_key TEXT, ts TIMESTAMPTZ,\n    value_double DOUBLE PRECISION,\n    value_text TEXT, value_bool BOOLEAN, value_json JSONB,\n    unit TEXT, quality TEXT,\n    PRIMARY KEY (gateway_id, sensor_channel_id, measurement_key)\n);"
    ∷ l1 "예시 데이터"
    ∷ table ("gateway_id" ∷ "sensor_channel_id" ∷ "measurement_key" ∷ "value_double" ∷ "unit" ∷ [])
        (("GW-001" ∷ "sensor-01" ∷ "temperature" ∷ "24.7" ∷ "degC" ∷ [])
          ∷ ("GW-001" ∷ "sensor-01" ∷ "humidity" ∷ "61.2" ∷ "%" ∷ [])
          ∷ ("GW-002" ∷ "sensor-02" ∷ "tilt_x" ∷ "3.2" ∷ "deg" ∷ [])
          ∷ [])
        (some (18 ∷ 24 ∷ 25 ∷ 18 ∷ 15 ∷ []))
    ∷ note "향후 TimescaleDB Community 기능 검토 가능. 단 Timescale License 혼재 주의."
    ∷ blank
    ∷ section "5." "Gateway Config 버전 관리"
    ∷ l1 "처리 흐름 (6단계)"
    ∷ l2 "1) Web Portal에서 관리자 변경 → 2) Backend DB에 config 저장"
    ∷ l2 "3) Config Generator가 version + hash 생성"
    ∷ l2 "4) MQTT publish gw/{id}/config/desired → 5) Gateway 설정 적용"
    ∷ l2 "6) MQTT report gw/{id}/config/reported (적용 결과 보고)"
    ∷ l1 "DDL"
    ∷ code_block
        "CREATE TABLE gateway_configs (\n    id UUID PRIMARY KEY,\n    gateway_id UUID NOT NULL REFERENCES gateways(id),\n    config_version INTEGER NOT NULL,\n    config_hash TEXT NOT NULL,\n    desired_config JSONB NOT NULL,\n    status TEXT NOT NULL DEFAULT 'pending',\n    created_by UUID REFERENCES users(id),\n    created_at TIMESTAMPTZ DEFAULT now(),\n    applied_at TIMESTAMPTZ,\n    UNIQUE(gateway_id, config_version)\n);\n\nCREATE TABLE gateway_config_history (\n    id UUID PRIMARY KEY,\n    gateway_id UUID NOT NULL REFERENCES gateways(id),\n    config_version INTEGER NOT NULL,\n    config_snapshot JSONB NOT NULL,\n    change_reason TEXT,\n    changed_by UUID REFERENCES users(id),\n    changed_at TIMESTAMPTZ DEFAULT now()\n);"
    ∷ l1 "desired_config 예시 (서버)"
    ∷ code_block
        "{\n  \"gateway_id\": \"GW-000001\",\n  \"config_version\": 12,\n  \"config_hash\": \"a83f2e9d\",\n  \"interfaces\": [...],\n  \"sensors\":    [...],\n  \"actuators\":  [...],\n  \"rules\":      [...]\n}"
    ∷ l1 "reported_config 예시 (Gateway)"
    ∷ code_block
        "{\n  \"gateway_id\": \"GW-000001\",\n  \"applied_config_version\": 12,\n  \"config_hash\": \"a83f2e9d\",\n  \"status\": \"applied\",\n  \"applied_at\": \"2026-05-02T12:00:00Z\",\n  \"errors\": []\n}"
    ∷ blank
    ∷ []
