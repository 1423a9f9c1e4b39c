-- ===== src/Hwpx/Content/Overview.antt =====
-- build_plan_hwpx.py, lines 275 to 304.
use rpi_io_t_server_project.Base.{List, [], ◌∷◌}
use rpi_io_t_server_project.Hwpx.Call.{Call, blank, chapter, section, l1, l2}

unfoldable pub overview : List Call
overview =
    chapter "Ⅰ. 문서 개요"
    ∷ section "1." "작성 목적"
    ∷ l1
        "본 계획서는 산업용 Raspberry Pi Compute Module 4(CM4) 기반 IoT Gateway 제품을 자체 호스팅 서버와 연동하여 상용화하기 위한 상세 구현 계획서이다."
    ∷ l1
        "여러 사용자가 각자 하나 이상의 IoT Gateway를 보유하고, Gateway마다 서로 다른 종류의 센서·제어 장치를 연결할 수 있다는 점을 기본 전제로 한다."
    ∷ l1 "따라서 본 시스템은 단순 데이터 수집기가 아니라, IoT Gateway Fleet Management Platform으로 설계한다."
    ∷ blank
    ∷ section "2." "10가지 핵심 요구사항"
    ∷ l1 "사용자별 여러 Gateway 관리"
    ∷ l2 "한 사용자가 N개의 Gateway를 보유 가능하며, 권한에 따라 조회·제어 범위가 달라진다."
    ∷ l1 "Gateway별 서로 다른 센서 구성 관리"
    ∷ l2 "Gateway A는 온습도 센서 2개 + 수위 센서 1개, Gateway B는 기울기 센서 + GPS 등 자유 조합."
    ∷ l1 "릴레이·밸브·펌프 등 제어 채널 관리"
    ∷ l2 "Gateway별 액추에이터 채널 수와 종류가 상이하며, 각각 안전 정책을 가진다."
    ∷ l1 "센서 종류 추가 시 코드 수정 최소화"
    ∷ l2 "새 센서 모델은 Sensor Profile JSON 추가만으로 동작하도록 설계."
    ∷ l1 "Gateway 설정 중앙 관리 및 원격 반영"
    ∷ l2 "desired/reported 패턴으로 서버에서 발행한 설정을 Gateway가 다운로드·적용·보고."
    ∷ l1 "사용자·고객사·현장·장비 단위 권한"
    ∷ l2 "System Admin → 관리회사 → 고객사 → 현장 → 장비 5계층 + Maintenance Engineer 별도 축."
    ∷ l1 "원격 제어 명령의 안전성 확보"
    ∷ l2 "8가지 안전 조건(idempotency, expires, timeout, ack, local safety, audit, fail-safe, override)."
    ∷ l1 "장비 상태·센서·알람·이력 통합 관리"
    ∷ l2 "Telemetry, command 이력, config 이력, audit 로그를 단일 DB에 통합."
    ∷ l1 "Docker 없이 systemd 기반 운영"
    ∷ l2 "산업용 서버에서 컨테이너 의존성을 제거하고 OS 서비스 단위로 명확 관리."
    ∷ l1 "무료 OSS 기반 상용화 가능 구조"
    ∷ l2 "AGPL/BSL/GPL 리스크가 없는 컴포넌트만 채택. OSS Notice·SBOM 발행."
    ∷ blank
    ∷ []
