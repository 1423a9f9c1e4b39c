-- ===== src/Hwpx/Content/Premises.antt =====
-- build_plan_hwpx.py, lines 307 to 369.
use rpi_io_t_server_project.Base.{List, [], ◌∷◌, some}
use rpi_io_t_server_project.Hwpx.Call.{Call, blank, chapter, section, l1, l2, table}

unfoldable pub premises : List Call
premises =
    chapter "Ⅱ. 전제 조건 및 설계 철학"
    ∷ section "1." "사업 및 운영 전제"
    ∷ table ("항목" ∷ "전제" ∷ [])
        (("서비스 운영" ∷ "자체 서버 운영 (퍼블릭 IoT 플랫폼 미사용)" ∷ [])
          ∷ ("퍼블릭 IoT 플랫폼" ∷ "AWS IoT, Azure IoT, GCP IoT 미사용" ∷ [])
          ∷ ("컨테이너" ∷ "Docker 미사용" ∷ [])
          ∷ ("서버 OS" ∷ "Ubuntu Server 24.04 LTS · 사내 물리 머신" ∷ [])
          ∷ ("사용자 구조" ∷ "한 사용자가 여러 Gateway 보유 가능" ∷ [])
          ∷ ("센서 구성" ∷ "Gateway마다 종류·수량 상이" ∷ [])
          ∷ ("제어 구성" ∷ "Gateway마다 릴레이·밸브·펌프 구성 상이" ∷ [])
          ∷ ("관리회사" ∷ "전체 사용자·Gateway 통합 관리" ∷ [])
          ∷ ("일반 사용자" ∷ "본인에게 할당된 Gateway만 접근" ∷ [])
          ∷ ("라이선스" ∷ "무료 OSS 중심 (AGPL/BSL/GPL 리스크 최소화)" ∷ [])
          ∷ [])
        (some (25 ∷ 75 ∷ []))
    ∷ blank
    ∷ section "2." "기술 스택 (확정)"
    ∷ table ("계층" ∷ "기술 / 버전" ∷ "비고" ∷ [])
        (("MQTT Broker" ∷ "VerneMQ" ∷ "Apache 2.0" ∷ [])
          ∷ ("DB" ∷ "PostgreSQL 16" ∷ "Ubuntu apt 기본 제공" ∷ [])
          ∷ ("인증" ∷ "Keycloak (latest stable)" ∷ "PostgreSQL backend 공유" ∷ [])
          ∷ ("Backend" ∷ "FastAPI (Python 3.12)" ∷ "asyncio · pydantic v2" ∷ [])
          ∷ ("Frontend" ∷ "React + Vite (SPA)" ∷ "TypeScript · MIT" ∷ [])
          ∷ ("Chart" ∷ "Apache ECharts" ∷ "Apache 2.0" ∷ [])
          ∷ ("Reverse Proxy" ∷ "Nginx + certbot" ∷ "Let's Encrypt 자동 발급" ∷ [])
          ∷ ("서비스 관리" ∷ "systemd" ∷ "Restart=always" ∷ [])
          ∷ ("Gateway OS" ∷ "Pi OS Lite / Ubuntu ARM64 (Phase 2 결정)" ∷ "Yocto는 옵션" ∷ [])
          ∷ ("Gateway 통신" ∷ "MQTT (Phase 1: plain · Phase 7: TLS)" ∷ "QoS 1 권장" ∷ [])
          ∷ ("Gateway 설정" ∷ "서버 desired/reported 구조" ∷ "config_version + hash" ∷ [])
          ∷ [])
        (some (18 ∷ 42 ∷ 40 ∷ []))
    ∷ blank
    ∷ section "3." "핵심 설계 철학 4원칙"
    ∷ l1 "원칙 1 : Gateway 중심 엔티티"
    ∷ l2 "배경 : 한 사용자가 여러 Gateway를 보유하고, 하나의 Gateway가 특정 회사·현장에 배정될 수 있음."
    ∷ l2 "적용 : 권한 판단을 User × Company × Gateway 3축으로 결합."
    ∷ l2 "결과 : 사용자 변경/이전 시에도 Gateway 단위 권한·통계가 안정적으로 유지."
    ∷ l1 "원칙 2 : 센서 종류는 코드가 아니라 Profile"
    ∷ l2 "배경 : 센서가 늘 때마다 schema·Gateway 코드를 수정하면 유지보수가 어렵다."
    ∷ l2 "적용 : 센서 모델 정보는 Sensor Profile(JSON), Gateway 연결 인스턴스는 Sensor Channel로 분리."
    ∷ l2 "결과 : 새 센서 추가 시 Backend·Gateway 코드 무수정 (Profile JSON만 추가)."
    ∷ l1 "원칙 3 : Gateway Config 중앙 버전 관리"
    ∷ l2 "배경 : Gateway마다 센서 구성이 달라 고정 설정으로 동작하면 안 됨."
    ∷ l2 "적용 : 서버가 Gateway별 desired_config 발행 → Gateway가 reported_config로 보고."
    ∷ l2 "결과 : 어떤 Gateway가 어떤 버전의 설정을 적용 중인지 100% 추적 가능, rollback 용이."
    ∷ l1 "원칙 4 : Docker 대신 systemd"
    ∷ l2 "배경 : 산업용 서버 운영 환경에서 컨테이너 의존성 제거, OS 서비스 단위 관리 필요."
    ∷ l2
        "적용 : nginx, vernemq, postgresql, keycloak, iot-backend, iot-worker, iot-scheduler 7종 unit 등록."
    ∷ l2 "결과 : 단일 OS 안에서 명확한 책임 분리·로그 위치·재시작 정책 일관 관리."
    ∷ blank
    ∷ []
