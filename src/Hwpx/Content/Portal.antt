-- ===== src/Hwpx/Content/Portal.antt =====
-- build_plan_hwpx.py, lines 960 to 1063.
use rpi_io_t_server_project.Base.{List, [], ◌∷◌, some}
use rpi_io_t_server_project.Hwpx.Call.{Call, blank, chapter, section, l1, l2, l3, code_block, table}

unfoldable pub portal : List Call
portal =
    chapter "Ⅷ. Web Portal"
    ∷ section "1." "권한별 화면 구성"
    ∷ l1 "일반 사용자 화면"
    ∷ l2 "내 Gateway 목록"
    ∷ l3 "이름 / 설치 위치"
    ∷ l3 "Online·Offline 상태"
    ∷ l3 "알람 상태"
    ∷ l3 "주요 센서 최신값"
    ∷ l3 "제어 가능 액추에이터"
    ∷ l3 "최근 이벤트"
    ∷ l1 "Gateway 상세 화면"
    ∷ l2 "기본 정보 / 네트워크 상태"
    ∷ l2 "센서 채널 목록"
    ∷ l2 "최신 센서값 (telemetry_latest)"
    ∷ l2 "시계열 그래프 (Apache ECharts)"
    ∷ l2 "제어 채널 (Toggle / Slider)"
    ∷ l2 "알람 이력 / 명령 이력"
    ∷ l2 "설정 버전 / 유지보수 로그"
    ∷ l1 "관리자 화면"
    ∷ l2 "사용자 · 고객사 · 현장 관리"
    ∷ l2 "Gateway 등록 / 소유권 할당"
    ∷ l2 "Gateway Profile 관리"
    ∷ l2 "Sensor Profile 관리"
    ∷ l2 "Sensor / Actuator Channel 설정"
    ∷ l2 "Gateway Template 관리"
    ∷ l2 "Bulk Operation / OTA"
    ∷ l2 "Audit Log 조회"
    ∷ blank
    ∷ section "2." "Sensor 추가 Wizard (8단계)"
    ∷ table ("단계" ∷ "이름" ∷ "설명" ∷ [])
        (("1" ∷ "Gateway 선택" ∷ "어떤 장비에 추가하나" ∷ [])
          ∷ ("2" ∷ "인터페이스 선택" ∷ "RS-485 #1/2 · AI · DI · I2C · UART" ∷ [])
          ∷ ("3" ∷ "Sensor Profile 선택" ∷ "온습도 · 미세먼지 · 기울기 · 수위 · pH ..." ∷ [])
          ∷ ("4" ∷ "통신 설정" ∷ "Modbus slave_id · baudrate · parity" ∷ [])
          ∷ ("5" ∷ "측정 주기" ∷ "polling_interval_sec" ∷ [])
          ∷ ("6" ∷ "표시 이름" ∷ "사용자에게 보여줄 이름" ∷ [])
          ∷ ("7" ∷ "저장" ∷ "sensor_channels 테이블에 INSERT" ∷ [])
          ∷ ("8" ∷ "Config 배포" ∷ "config_version + 1, MQTT desired publish" ∷ [])
          ∷ [])
        (some (8 ∷ 22 ∷ 70 ∷ []))
    ∷ blank
    ∷ section "3." "동적 Dashboard 자동 생성"
    ∷ l1 "측정 키 → Widget 매핑"
    ∷ table ("measurement_key" ∷ "Widget" ∷ [])
        (("temperature" ∷ "Line Chart + Current Value Card" ∷ [])
          ∷ ("humidity" ∷ "Line Chart + Gauge" ∷ [])
          ∷ ("pressure" ∷ "Line Chart" ∷ [])
          ∷ ("pm2_5" ∷ "Gauge + Line Chart" ∷ [])
          ∷ ("tilt_x, tilt_y" ∷ "2-axis Tilt View + Line" ∷ [])
          ∷ ("water_level" ∷ "Gauge" ∷ [])
          ∷ ("relay_state" ∷ "Toggle + Status Card" ∷ [])
          ∷ ("valve_state" ∷ "Toggle + Status Card" ∷ [])
          ∷ ("gps" ∷ "Map" ∷ [])
          ∷ [])
        (some (35 ∷ 65 ∷ []))
    ∷ l1 "Sensor Profile의 visualization 설정 예"
    ∷ code_block
        "{\n  \"key\": \"temperature\",\n  \"display_name\": \"Temperature\",\n  \"unit\": \"degC\",\n  \"visualization\": \"line_chart\",\n  \"display_group\": \"environment\",\n  \"order\": 1\n}"
    ∷ l1 "효과"
    ∷ l2 "새 센서 추가 시 frontend 수정 0줄"
    ∷ l2 "Gateway별 다른 대시보드 자동 생성"
    ∷ l2 "사용자별 widget 순서 커스텀 가능"
    ∷ blank
    ∷ section "4." "Bulk Operation"
    ∷ l1 "지원 작업 (8종)"
    ∷ l2 "Gateway 일괄 현장 배정 — company/site 매핑 변경"
    ∷ l2 "사용자 권한 일괄 부여 — 특정 group → 다수 Gateway"
    ∷ l2 "센서 polling 일괄 변경 — sensor_channels.polling_interval_sec"
    ∷ l2 "알람 기준 일괄 변경 — alarm_rules.threshold"
    ∷ l2 "OTA 일괄 업데이트 — 타겟 필터 + 점진 배포"
    ∷ l2 "Gateway 일괄 재시작 — command publish (reboot)"
    ∷ l2 "설정 일괄 배포 — Template 기반 desired_config 발행"
    ∷ l2 "로그 일괄 수집 — log/upload topic 트리거"
    ∷ l1 "bulk_jobs 테이블"
    ∷ code_block
        "CREATE TABLE bulk_jobs (\n    id UUID PRIMARY KEY,\n    job_type TEXT NOT NULL,\n    target_filter JSONB NOT NULL,    -- {\"company_id\": \"...\", \"site_id\": \"...\", \"tags\": [...]}\n    payload JSONB NOT NULL,          -- 작업별 파라미터\n    status TEXT NOT NULL DEFAULT 'pending',\n    created_by UUID REFERENCES users(id),\n    created_at TIMESTAMPTZ DEFAULT now(),\n    completed_at TIMESTAMPTZ\n);"
    ∷ blank
    ∷ []
