-- ===== src/Hwpx/Content/Licences.antt =====
-- build_plan_hwpx.py, lines 1411 to 1480.
use rpi_io_t_server_project.Base.{List, [], ◌∷◌, some}
use rpi_io_t_server_project.Hwpx.Call.{Call, blank, chapter, section, l1, l2, table}

unfoldable pub licences : List Call
licences =
    chapter "ⅩⅣ. 라이선스 및 우선순위"
    ∷ section "1." "권장 OSS 컴포넌트"
    ∷ table ("컴포넌트" ∷ "라이선스" ∷ "판단" ∷ [])
        (("VerneMQ" ∷ "Apache 2.0" ∷ "권장" ∷ [])
          ∷ ("PostgreSQL" ∷ "PostgreSQL License" ∷ "권장" ∷ [])
          ∷ ("Keycloak" ∷ "Apache 2.0" ∷ "권장" ∷ [])
          ∷ ("Apache ECharts" ∷ "Apache 2.0" ∷ "권장" ∷ [])
          ∷ ("Nginx" ∷ "BSD-like" ∷ "권장" ∷ [])
          ∷ ("FastAPI" ∷ "MIT" ∷ "권장" ∷ [])
          ∷ ("React + Vite" ∷ "MIT" ∷ "권장" ∷ [])
          ∷ ("Prometheus" ∷ "Apache 2.0" ∷ "선택 사용 가능" ∷ [])
          ∷ ("OpenSearch" ∷ "Apache 2.0" ∷ "선택 사용 가능" ∷ [])
          ∷ [])
        (some (35 ∷ 35 ∷ 30 ∷ []))
    ∷ blank
    ∷ section "2." "피하거나 주의할 컴포넌트"
    ∷ table ("컴포넌트" ∷ "사유" ∷ [])
        (("EMQX 최신 버전" ∷ "BSL 계열 이슈 가능" ∷ [])
          ∷ ("MinIO" ∷ "AGPLv3" ∷ [])
          ∷ ("Grafana 고객용 노출" ∷ "AGPLv3" ∷ [])
          ∷ ("Loki" ∷ "AGPL" ∷ [])
          ∷ ("SWUpdate" ∷ "GPLv2" ∷ [])
          ∷ ("TimescaleDB Community 일부" ∷ "Timescale License 혼재 가능" ∷ [])
          ∷ ("Docker Desktop" ∷ "조직 규모/용도에 따라 구독 이슈" ∷ [])
          ∷ [])
        (some (35 ∷ 65 ∷ []))
    ∷ blank
    ∷ section "3." "제품 출시 전 준비물"
    ∷ l1 "OSS Notice — 사용한 오픈소스 목록 + 라이선스 전문"
    ∷ l1 "SBOM — 소프트웨어 자재명세서"
    ∷ l1 "GPL/LGPL 구성요소 소스 제공 절차"
    ∷ l1 "Gateway 이미지 패키지 목록"
    ∷ l1 "수정한 오픈소스 코드 공개 여부 확인"
    ∷ blank
    ∷ section "4." "최종 구현 우선순위"
    ∷ l1 "최우선 (Phase 1-5 핵심)"
    ∷ l2 "사용자별 다중 Gateway 권한 모델"
    ∷ l2 "Gateway별 Sensor Profile / Channel 구조"
    ∷ l2 "MQTT topic + Gateway 인증 구조"
    ∷ l2 "Telemetry 저장 + latest 조회"
    ∷ l2 "Gateway Config Versioning"
    ∷ l2 "Command Request / Response 구조"
    ∷ l1 "중간 우선순위 (Phase 5-6)"
    ∷ l2 "Sensor 추가 Wizard"
    ∷ l2 "Dynamic Dashboard"
    ∷ l2 "Alarm Rule"
    ∷ l2 "Actuator Channel"
    ∷ l2 "Config Rollback"
    ∷ l2 "Audit Log"
    ∷ l1 "제품화 우선순위 (Phase 7)"
    ∷ l2 "Gateway별 X.509 인증서"
    ∷ l2 "VerneMQ ACL"
    ∷ l2 "OTA"
    ∷ l2 "Backup / Restore 자동화"
    ∷ l2 "Safety MCU 연동"
    ∷ l2 "OSS Notice / SBOM"
    ∷ blank
    ∷ []
