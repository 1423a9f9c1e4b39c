-- ===== src/Hwpx/Content/Architecture.antt =====
-- build_plan_hwpx.py, lines 372 to 514.
use rpi_io_t_server_project.Base.{List, [], ◌∷◌, some}
use rpi_io_t_server_project.Hwpx.Call.{Call, blank, chapter, section, l1, l2, l3, note, table}

unfoldable pub architecture_1 : List Call
architecture_1 =
    chapter "Ⅲ. 시스템 아키텍처"
    ∷ section "1." "전체 시스템 개념도 (Concept Architecture)"
    ∷ l1 "계층 구성 (Top-Down)"
    ∷ l2 "USER LAYER — 일반 사용자, 고객사 관리자, 관리회사 관리자"
    ∷ l2 "WEB PORTAL — React + Vite SPA + Apache ECharts (Nginx 정적 파일)"
    ∷ l2 "SELF-HOSTED SERVER — Ubuntu 24.04 LTS · systemd 기반 7종 서비스"
    ∷ l3 "Nginx (HTTPS reverse proxy)"
    ∷ l3 "Keycloak (OIDC/OAuth2)"
    ∷ l3 "Backend API (FastAPI)"
    ∷ l3 "Worker (MQTT 처리)"
    ∷ l3 "Scheduler (주기 작업)"
    ∷ l3 "PostgreSQL (관계형 DB)"
    ∷ l3 "VerneMQ (MQTT broker)"
    ∷ l2 "STORAGE — 펌웨어 저장소, Gateway 설정, 백업, 로그 번들"
    ∷ l2 "GATEWAY LAYER — N대의 CM4 Gateway + Safety MCU"
    ∷ l1 "주요 데이터 흐름"
    ∷ l2 "HTTPS : User ↔ Web Portal ↔ Backend API"
    ∷ l2 "MQTT : VerneMQ ↔ Gateway (telemetry · command · config · OTA)"
    ∷ l2 "내부 IPC : Backend ↔ PostgreSQL, Worker ↔ PostgreSQL, Backend ↔ VerneMQ"
    ∷ blank
    ∷ section "2." "상세 시스템 구성도 (Detailed Architecture)"
    ∷ l1 "서버 측 (Ubuntu 24.04 · systemd)"
    ∷ l2 "Nginx 443/80 — HTTPS reverse proxy + 정적 파일"
    ∷ l3 "/ → frontend 정적 파일"
    ∷ l3 "/api/ → 127.0.0.1:8000 (Backend)"
    ∷ l3 "/auth/ → 127.0.0.1:8080 (Keycloak)"
    ∷ l2 "Application Service 3종"
    ∷ l3 "iot-backend.service : FastAPI :8000 — REST API, 권한 검사, Command publish, Config 생성"
    ∷ l3 "iot-worker.service : Python — MQTT subscribe, telemetry 수신, latest upsert, alarm eval"
    ∷ l3 "iot-scheduler.service : Python — offline 판정, command timeout, partition 정리, report 생성"
    ∷ l2 "Infra Service 3종"
    ∷ l3 "Keycloak :8080 — OIDC/OAuth2, realm: iot-platform, role 7종"
    ∷ l3 "PostgreSQL :5432 — iot_platform DB + keycloak DB (RLS 검토)"
    ∷ l3 "VerneMQ :1883/:8883 — MQTT broker, password→X.509(Phase 7)"
    ∷ l2 "Storage 디렉터리"
    ∷ l3 "/var/lib/iot-platform/firmware/ — OTA 이미지"
    ∷ l3 "/var/lib/iot-platform/gateway-configs/ — desired/reported snapshot"
    ∷ l3 "/var/lib/iot-platform/backups/ — pg_dump 결과"
    ∷ l3 "/var/lib/iot-platform/log-bundles/ — 장비 로그 수집"
    ∷ l1 "Gateway 측 (CM4 Linux + Safety MCU)"
    ∷ l2 "CM4 Linux User Space (/opt/iot-gateway/)"
    ∷ l3 "gateway-agent — 메인 루프, 부팅 흐름"
    ∷ l3 "sensor-service — Modbus/AI/DI polling"
    ∷ l3 "actuator-service — GPIO/Relay 제어"
    ∷ l3 "rule-engine — Local Rule (오프라인에서도 동작)"
    ∷ l3 "mqtt-client — Telemetry/Command/Config publish·subscribe"
    ∷ l3 "local-db (SQLite) — telemetry queue, command log"
    ∷ l3 "ota-agent — 이미지 검증·적용"
    ∷ l3 "health-agent — CPU/MEM/Net heartbeat"
    ∷ l2 "STM32 / NXP Safety MCU"
    ∷ l3 "릴레이/밸브 직접 제어 (low-level)"
    ∷ l3 "Local Interlock — 센서 조건 위반 시 차단"
    ∷ l3 "Watchdog — Linux 행 시 자동 fail-safe"
    ∷ l3 "Fail-safe state 강제 전환"
    ∷ l3 "물리적 비상 정지 입력 처리"
    ∷ l2 "Field I/O — RS-485(Modbus RTU), GPIO Relay, Analog 0-10V/4-20mA, GPS, Digital Input"
    ∷ blank
    ∷ section "3." "서버 구성 — systemd 서비스 7+종"
    ∷ table ("서비스" ∷ "분류" ∷ "역할" ∷ [])
        (("nginx.service" ∷ "필수" ∷ "HTTPS reverse proxy, 정적 파일 제공" ∷ [])
          ∷ ("vernemq.service" ∷ "필수" ∷ "MQTT Broker (Phase 1: 1883 plain, Phase 7: 8883 TLS)" ∷ [])
          ∷ ("postgresql.service" ∷ "필수" ∷ "관계형 DB · 센서 데이터 · keycloak DB 공유" ∷ [])
          ∷ ("keycloak.service" ∷ "필수" ∷ "사용자 인증 · OIDC/OAuth2 토큰 발급" ∷ [])
          ∷ ("iot-backend.service" ∷ "필수" ∷ "REST API · 권한 검사 · Gateway 관리 · 명령 발행" ∷ [])
          ∷ ("iot-worker.service" ∷ "필수" ∷ "MQTT subscribe · telemetry ingestion · alarm eval" ∷ [])
          ∷ ("iot-scheduler.service" ∷ "필수" ∷ "offline 판단 · timeout 처리 · 백업 · OTA 상태 확인" ∷ [])
          ∷ ("prometheus.service" ∷ "선택" ∷ "내부 metric 수집 (Phase 7+)" ∷ [])
          ∷ ("opensearch.service" ∷ "선택" ∷ "로그 검색 (필요 시)" ∷ [])
          ∷ [])
        (some (25 ∷ 12 ∷ 63 ∷ []))
    ∷ note
        "모든 서비스는 EnvironmentFile=/etc/iot-platform/{name}.env 로 환경 변수 분리. Restart=always · After=network.target."
    ∷ blank
    ∷ section "4." "권장 서버 디렉터리 구조"
    ∷ l1 "/opt/iot-platform/ — 애플리케이션 설치"
    ∷ l2 "backend/ : app/, venv/, migrations/, scripts/"
    ∷ l2 "worker/  : app/, venv/"
    ∷ l2 "scheduler/ : app/, venv/"
    ∷ l2 "frontend/ : current/, releases/"
    ∷ l2 "releases/ : backend-1.0.0/ … backend-1.0.x/"
    ∷ l2 "current → releases/backend-1.0.x (atomic switch via symlink)"
    ∷ l1 "/etc/iot-platform/ — 환경 변수 분리"
    ∷ l2 "backend.env (DATABASE_URL, KC_ISSUER, …)"
    ∷ l2 "worker.env (MQTT_HOST, MQTT_USER, …)"
    ∷ l2 "scheduler.env, mqtt.env, db.env, keycloak.env"
    ∷ l1 "/var/lib/iot-platform/ — 운영 데이터"
    ∷ l2 "firmware/ (OTA 이미지)"
    ∷ l2 "gateway-configs/ (desired/reported snapshots)"
    ∷ l2 "reports/ (정기 통계 리포트)"
    ∷ l2 "log-bundles/ (Gateway 진단 로그)"
    ∷ l2 "backups/ (pg_dump · realm export)"
    ∷ l1 "/var/log/iot-platform/ — 로그"
    ∷ l2 "backend.log, worker.log, scheduler.log, mqtt-ingestion.log"
    ∷ blank
    ∷ []

unfoldable pub architecture_2 : List Call
architecture_2 =
    section "5." "Backend / Worker / Scheduler 역할 분담"
    ∷ l1 "Backend API"
    ∷ l2 "성격 : REST · 동기 요청 처리"
    ∷ l2 "주요 책임"
    ∷ l3 "사용자 인증 연동 (Keycloak JWT 검증)"
    ∷ l3 "User · Company · Site · Gateway 권한 검사"
    ∷ l3 "Gateway 등록 / Profile / Channel 관리"
    ∷ l3 "Gateway Config 생성 · 버전 관리"
    ∷ l3 "MQTT command publish (request 발행)"
    ∷ l3 "Telemetry 조회 API · latest 조회"
    ∷ l3 "Alarm Rule 관리 · Audit Log"
    ∷ l1 "Worker"
    ∷ l2 "성격 : MQTT subscribe · 비동기 이벤트 처리"
    ∷ l2 "주요 책임"
    ∷ l3 "MQTT subscribe (gw/+/telemetry, state, …)"
    ∷ l3 "Telemetry message 검증 (schema · timestamp)"
    ∷ l3 "Telemetry 저장 (월별 partition table)"
    ∷ l3 "telemetry_latest UPSERT"
    ∷ l3 "Heartbeat / state 처리"
    ∷ l3 "Command response 처리"
    ∷ l3 "Reported_config 처리 · Alarm evaluation"
    ∷ l1 "Scheduler"
    ∷ l2 "성격 : 주기 작업 · cron 대체"
    ∷ l2 "주요 책임"
    ∷ l3 "Gateway offline 판단 (heartbeat timeout)"
    ∷ l3 "미응답 command timeout 처리"
    ∷ l3 "오래된 telemetry partition drop"
    ∷ l3 "백업 실행 (pg_dump · realm export)"
    ∷ l3 "OTA job 상태 확인 · 재시도"
    ∷ l3 "알람 재전송"
    ∷ l3 "통계 / 리포트 생성"
    ∷ blank
    ∷ []
