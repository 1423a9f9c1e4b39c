-- ===== src/Hwpx/Content/Conclusion.antt =====
-- build_plan_hwpx.py, lines 1483 to 1531.
use rpi_io_t_server_project.Base.{List, [], ◌∷◌}
use rpi_io_t_server_project.Hwpx.Call.{Call, para, blank, chapter, section, l1, l2}

unfoldable pub conclusion : List Call
conclusion =
    chapter "ⅩⅤ. 결론 및 Next Steps"
    ∷ section "1." "최종 결론"
    ∷ l1 "Docker를 사용하지 않더라도 자체 호스팅 IoT Gateway 플랫폼 구축에는 문제가 없다."
    ∷ l1 "산업용 서버 운영 환경에서는 systemd 기반으로 서비스 단위를 명확히 관리하는 방식이 오히려 안정적이다."
    ∷ l1 "단, 다음 7가지 조건을 반드시 설계에 반영해야 한다."
    ∷ l2 "한 사용자가 여러 IoT Gateway를 가질 수 있음"
    ∷ l2 "Gateway마다 연결된 센서 종류가 다를 수 있음"
    ∷ l2 "Gateway마다 릴레이·밸브·펌프 등 제어 구성이 다를 수 있음"
    ∷ l2 "관리회사는 전체 Gateway를 통합 관리해야 함"
    ∷ l2 "일반 사용자는 본인에게 할당된 Gateway만 접근"
    ∷ l2 "센서 종류 추가 시 코드 수정 최소화"
    ∷ l2 "Gateway 설정은 서버에서 중앙 관리하고 버전 관리되어야 함"
    ∷ blank
    ∷ section "2." "권장 최종 구조"
    ∷ l1 "VerneMQ + PostgreSQL + Keycloak + FastAPI Backend + React (Vite) Web Portal"
    ∷ l1 "systemd 기반 서비스 운영"
    ∷ l1 "Gateway Profile + Sensor Profile + Sensor Channel Mapping"
    ∷ l1 "Actuator Channel Mapping + Gateway Config Versioning"
    ∷ l1 "Dynamic Dashboard + RBAC / ABAC 권한 모델"
    ∷ l1 "CM4 Linux + Safety MCU 이중 구조 (Phase 4-7 도입)"
    ∷ blank
    ∷ section "3." "즉시 시작 가능한 4가지 (Next Steps)"
    ∷ l1 "01. Phase 1 sprint 시작"
    ∷ l2 "본 자료의 Day 1-7 일정대로 서버 인프라 1주 구축. 코드 0줄."
    ∷ l1 "02. Phase 1 산출물 commit"
    ∷ l2 "운영 절차서(PHASE1_OPS.md) + scripts/phase1_smoke.sh를 git repo로 형상 관리."
    ∷ l1 "03. Phase 2 인터뷰 준비"
    ∷ l2 "남은 미결정 트랙 결정 : Gateway OS · v1 운영 규모 · 첫 PoC 산업 · Safety MCU 시점."
    ∷ l1 "04. Hardware lab 구성"
    ∷ l2 "보유 CM4 Gateway + RS-485 온습도 센서 1개로 Phase 3 telemetry 흐름 실측 가능."
    ∷ blank
    ∷ section "4." "참고 출처"
    ∷ l1 "VerneMQ : https://github.com/vernemq/vernemq"
    ∷ l1 "PostgreSQL License : https://www.postgresql.org/about/licence/"
    ∷ l1
        "PostgreSQL Row Level Security : https://www.postgresql.org/docs/current/ddl-rowsecurity.html"
    ∷ l1 "Keycloak Documentation : https://www.keycloak.org/documentation"
    ∷ l1 "Apache ECharts : https://echarts.apache.org/"
    ∷ l1 "FastAPI : https://fastapi.tiangolo.com/"
    ∷ blank
    ∷ para "— 문서 끝 —" 20 11
    ∷ []
