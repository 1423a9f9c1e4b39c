-- ===== src/Hwpx/Content/Agent.antt =====
-- build_plan_hwpx.py, lines 1066 to 1143.
use rpi_io_t_server_project.Base.{List, [], ◌∷◌, some}
use rpi_io_t_server_project.Hwpx.Call.{Call, blank, chapter, section, l1, l2, note, table}

unfoldable pub agent : List Call
agent =
    chapter "Ⅸ. Gateway Agent"
    ∷ section "1." "내부 구성 (/opt/iot-gateway/)"
    ∷ l1 "gateway-agent — 메인 루프"
    ∷ l1 "sensor-service — Modbus / AI / DI polling"
    ∷ l1 "actuator-service — GPIO / Relay 제어"
    ∷ l1 "rule-engine — Local Rule (오프라인 가용)"
    ∷ l1 "mqtt-client — TLS pub/sub"
    ∷ l1 "local-db — SQLite (queue·log)"
    ∷ l1 "ota-agent — 이미지 검증·적용"
    ∷ l1 "health-agent — heartbeat 송신"
    ∷ l1 "config/ — 설정 파일"
    ∷ l1 "logs/ — 회전 로그"
    ∷ blank
    ∷ section "2." "부팅 흐름 (14단계)"
    ∷ l1 "01. Gateway ID 확인"
    ∷ l1 "02. 인증서·설정 파일 확인"
    ∷ l1 "03. 네트워크 확인"
    ∷ l1 "04. MQTT Broker 연결"
    ∷ l1 "05. 현재 config_version 보고"
    ∷ l1 "06. 서버 desired_config 확인"
    ∷ l1 "07. 버전이 다르면 다운로드"
    ∷ l1 "08. 설정 유효성 검사"
    ∷ l1 "09. Sensor driver 구성"
    ∷ l1 "10. Actuator driver 구성"
    ∷ l1 "11. Rule engine 구성"
    ∷ l1 "12. reported_config 전송"
    ∷ l1 "13. 센서 polling 시작"
    ∷ l1 "14. 주기 heartbeat 전송"
    ∷ blank
    ∷ section "3." "Local Buffer 정책 (SQLite)"
    ∷ table ("항목" ∷ "정책" ∷ [])
        (("저장 대상" ∷ "telemetry · event · command response" ∷ [])
          ∷ ("재전송 순서" ∷ "timestamp 오름차순" ∷ [])
          ∷ ("중복 방지" ∷ "message_id 기반" ∷ [])
          ∷ ("보존 기간" ∷ "7~30일 (정책 가능)" ∷ [])
          ∷ ("저장공간 초과" ∷ "오래된 telemetry부터 삭제" ∷ [])
          ∷ ("우선순위" ∷ "event > command_response > telemetry" ∷ [])
          ∷ [])
        (some (25 ∷ 75 ∷ []))
    ∷ blank
    ∷ section "4." "Safety MCU 설계 (CM4 + STM32 이중 구조)"
    ∷ l1 "CM4 Linux 책임"
    ∷ l2 "클라우드 통신 (MQTT TLS)"
    ∷ l2 "데이터 저장 (SQLite local buffer)"
    ∷ l2 "고수준 명령 처리 / Rule engine"
    ∷ l2 "OTA / 진단 / 로그 수집"
    ∷ l1 "STM32 / NXP Safety MCU 책임"
    ∷ l2 "릴레이 / 밸브 직접 제어 (low-level)"
    ∷ l2 "Local Interlock — 센서 조건 위반 시 차단"
    ∷ l2 "Watchdog — Linux 행 시 자동 fail-safe"
    ∷ l2 "Fail-safe state 강제 전환"
    ∷ l2 "물리적 비상 정지 입력 처리"
    ∷ l1 "필수 안전 기능 8가지"
    ∷ table ("기능" ∷ "설명" ∷ [])
        (("Fail-safe state" ∷ "장애 시 릴레이/밸브 기본 안전 상태" ∷ [])
          ∷ ("Max ON duration" ∷ "릴레이가 너무 오래 켜지지 않도록 제한" ∷ [])
          ∷ ("Command expiry" ∷ "오래된 명령 실행 금지" ∷ [])
          ∷ ("Manual override" ∷ "현장 수동 제어 우선" ∷ [])
          ∷ ("Interlock" ∷ "센서 조건 위반 시 제어 차단" ∷ [])
          ∷ ("Watchdog" ∷ "프로세스 / OS 장애 감지" ∷ [])
          ∷ ("Output feedback" ∷ "실제 릴레이 상태 피드백" ∷ [])
          ∷ ("Emergency stop" ∷ "물리적 비상 정지" ∷ [])
          ∷ [])
        (some (25 ∷ 75 ∷ []))
    ∷ note "Safety MCU는 Phase 4-7에 점진 도입. Phase 1-3는 CM4 단독."
    ∷ blank
    ∷ []
