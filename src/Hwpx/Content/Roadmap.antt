-- ===== src/Hwpx/Content/Roadmap.antt =====
-- build_plan_hwpx.py, lines 1306 to 1408.
use rpi_io_t_server_project.Base.{List, [], ◌∷◌, some}
use rpi_io_t_server_project.Hwpx.Call.{Call, blank, chapter, section, l1, l2, l3, table}

unfoldable pub roadmap : List Call
roadmap =
    chapter "ⅩⅢ. 개발 로드맵"
    ∷ section "1." "7단계 로드맵"
    ∷ table ("단계" ∷ "이름" ∷ "기간" ∷ "핵심 산출물" ∷ [])
        (("Phase 1" ∷ "서버 기본 구축" ∷ "1주" ∷ "systemd 5종 · Keycloak realm · 코드 0줄" ∷ [])
          ∷ ("Phase 2" ∷ "다중 Gateway 권한 모델" ∷ "TBD"
              ∷ "companies/sites/users/gateways · Backend skeleton" ∷ [])
          ∷ ("Phase 3" ∷ "Sensor Profile / Channel" ∷ "TBD"
              ∷ "Sensor Wizard · Telemetry · 동적 Dashboard" ∷ [])
          ∷ ("Phase 4" ∷ "Actuator + 원격 제어" ∷ "TBD" ∷ "command 흐름 · 안전 조건 · 권한 분리" ∷ [])
          ∷ ("Phase 5" ∷ "Gateway Config Versioning" ∷ "TBD" ∷ "desired/reported · rollback" ∷ [])
          ∷ ("Phase 6" ∷ "관리 편의성 (Template/Bulk/Alarm)" ∷ "TBD" ∷ "Template · Bulk · Alarm Rule"
              ∷ [])
          ∷ ("Phase 7" ∷ "제품화" ∷ "TBD" ∷ "X.509 · ACL · OTA · Backup · Safety MCU · OSS Notice"
              ∷ [])
          ∷ [])
        (some (10 ∷ 24 ∷ 8 ∷ 58 ∷ []))
    ∷ blank
    ∷ section "2." "Phase 1 상세 spec (1주 sprint, 코드 0줄)"
    ∷ l1 "환경"
    ∷ l2 "OS : Ubuntu Server 24.04 LTS"
    ∷ l2 "호스팅 : 사내 물리 머신"
    ∷ l2 "도메인 / SSL : 발급 가능 상태"
    ∷ l2 "패키지 정책 : Ubuntu apt 기본 (PostgreSQL 16) + 공식 릴리스 (Keycloak, VerneMQ)"
    ∷ l2 "팀 : Solo + Claude Code AI Pair"
    ∷ l2 "기간 : 1주 single sprint"
    ∷ l2 "Verification : 체크리스트 + scripts/phase1_smoke.sh"
    ∷ l1 "Scope (포함)"
    ∷ l2 "OS · 보안 hardening (ufw · ssh · iot 사용자)"
    ∷ l2 "PostgreSQL 16 (apt) · iot_platform DB · keycloak DB · iot_user role"
    ∷ l2 "VerneMQ 공식 .deb · systemd · password file 인증 · 1883 plain"
    ∷ l2 "Keycloak 공식 release · systemd · Postgres backend"
    ∷ l3 "realm: iot-platform · 7 roles · test user 1명"
    ∷ l2 "Nginx + certbot Let's Encrypt → HTTPS reverse proxy"
    ∷ l3 "/auth → Keycloak (placeholder /api · /)"
    ∷ l2 "/etc/iot-platform/ · .env 템플릿"
    ∷ l2 "운영 절차서 (markdown)"
    ∷ l2 "scripts/phase1_smoke.sh (자동 점검)"
    ∷ l1 "Non-goals (Phase 2+ 이연)"
    ∷ l2 "모든 application 코드 (FastAPI · React · Worker · Scheduler)"
    ∷ l2 "비즈니스 DB schema (companies · sites · users · gateways · …)"
    ∷ l2 "Gateway 연결 · telemetry · MQTT TLS · X.509"
    ∷ l2 "OTA · Safety MCU · Backup automation · Alarm · Bulk"
    ∷ l1 "Definition of Done"
    ∷ l2 "systemctl is-active → 4개 서비스 active"
    ∷ l2 "https://<도메인>/auth/realms/iot-platform/.well-known/openid-configuration → 200"
    ∷ l2 "Keycloak admin 로그인 성공 (test user)"
    ∷ l2 "mosquitto_pub/sub → password 인증 후 1883 publish/subscribe 성공"
    ∷ l2 "psql -U iot_user -d iot_platform -c \"SELECT 1\" → 성공"
    ∷ l2 "scripts/phase1_smoke.sh → 전체 PASS"
    ∷ blank
    ∷ section "3." "Phase 1 일정 분해 (Day 1-7)"
    ∷ l1 "Day 1 — OS 베이스 + 보안"
    ∷ l2 "Ubuntu 24.04 LTS 클린 설치"
    ∷ l2 "iot 시스템 사용자 생성 · sudo 정책"
    ∷ l2 "ufw 포트 정책 (22 · 80 · 443 · 1883)"
    ∷ l2 "ssh hardening (key only · port forward 차단)"
    ∷ l2 "/opt/iot-platform · /etc/iot-platform · /var/lib/iot-platform 디렉터리"
    ∷ l1 "Day 2 — PostgreSQL + VerneMQ"
    ∷ l2 "PostgreSQL 16 apt 설치 · 권한 설정"
    ∷ l2 "iot_platform DB + keycloak DB 생성"
    ∷ l2 "iot_user role + 권한 grant"
    ∷ l2 "VerneMQ .deb 설치 · systemd"
    ∷ l2 "vmq_passwd로 gateway/admin 계정 생성"
    ∷ l1 "Day 3 — Keycloak 설치 + realm"
    ∷ l2 "Keycloak release 다운로드 → /opt/iot-platform/keycloak"
    ∷ l2 "Postgres datasource 설정 (KEYCLOAK_DATABASE_*)"
    ∷ l2 "keycloak.service systemd unit 등록"
    ∷ l2 "iot-platform realm 생성"
    ∷ l2 "7 role + test user 1명 생성"
    ∷ l1 "Day 4 — Nginx + HTTPS"
    ∷ l2 "Nginx 설치 · iot-platform.conf 작성"
    ∷ l2 "/auth → 8080 reverse proxy"
    ∷ l2 "/api · / placeholder location 정의"
    ∷ l2 "certbot --nginx 으로 Let's Encrypt 발급"
    ∷ l2 "systemd timer로 인증서 자동 갱신 확인"
    ∷ l1 "Day 5 — 환경 분리 + 절차서"
    ∷ l2 "/etc/iot-platform/{backend,worker,scheduler,mqtt,db,keycloak}.env 템플릿"
    ∷ l2 "운영 절차서 (PHASE1_OPS.md) 작성 — 설치 명령 단계별"
    ∷ l2 "장애 대응 절차 (서비스 재시작 · 로그 위치)"
    ∷ l1 "Day 6 — smoke test 자동화"
    ∷ l2 "scripts/phase1_smoke.sh 작성"
    ∷ l3 "systemctl is-active 4개 확인"
    ∷ l3 "curl /auth/.well-known/openid-configuration"
    ∷ l3 "psql SELECT 1"
    ∷ l3 "mosquitto_pub/sub 인증 테스트"
    ∷ l1 "Day 7 — 검증 + 문서 정리"
    ∷ l2 "smoke test 전체 실행 → PASS 확인"
    ∷ l2 "체크리스트 마크다운 결과 commit"
    ∷ l2 "Phase 2 인터뷰 준비 (남은 트랙: Gateway OS · scale · PoC 산업 등)"
    ∷ blank
    ∷ []
