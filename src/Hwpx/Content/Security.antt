-- ===== src/Hwpx/Content/Security.antt =====
-- build_plan_hwpx.py, lines 1192 to 1255.
use rpi_io_t_server_project.Base.{List, [], ◌∷◌, some}
use rpi_io_t_server_project.Hwpx.Call.{Call, blank, chapter, section, l1, l2, code_block, table}

unfoldable pub security : List Call
security =
    chapter "Ⅺ. 보안 설계"
    ∷ section "1." "장비 (Gateway) 보안"
    ∷ table ("항목" ∷ "정책" ∷ [])
        (("MQTT" ∷ "TLS 필수 (Phase 7)" ∷ [])
          ∷ ("Gateway 인증" ∷ "Phase 1: ID/Password · Phase 7: X.509 인증서" ∷ [])
          ∷ ("Topic ACL" ∷ "Gateway는 자기 topic만 접근 가능" ∷ [])
          ∷ ("Private Key" ∷ "TPM / Secure Element 권장" ∷ [])
          ∷ ("SSH" ∷ "기본 비활성화" ∷ [])
          ∷ ("OTA" ∷ "서명 검증 필수" ∷ [])
          ∷ ("Local Config" ∷ "config_hash 검증" ∷ [])
          ∷ ("로그" ∷ "제어 명령·설정 변경·오류 이력 보관" ∷ [])
          ∷ [])
        (some (25 ∷ 75 ∷ []))
    ∷ blank
    ∷ section "2." "서버 보안"
    ∷ table ("항목" ∷ "정책" ∷ [])
        (("인증" ∷ "Keycloak OIDC / OAuth2" ∷ [])
          ∷ ("API" ∷ "JWT 검증 (Backend)" ∷ [])
          ∷ ("권한" ∷ "RBAC + ABAC" ∷ [])
          ∷ ("DB 필터" ∷ "company_id · site_id · gateway_id 기반" ∷ [])
          ∷ ("RLS" ∷ "주요 테이블에 PostgreSQL Row Level Security 적용 검토" ∷ [])
          ∷ ("TLS" ∷ "Web · API · MQTT 전 구간" ∷ [])
          ∷ ("Audit" ∷ "사용자 명령 · 설정 변경 · 관리자 작업 기록" ∷ [])
          ∷ ("Backup" ∷ "정기 백업 + 복구 테스트" ∷ [])
          ∷ [])
        (some (25 ∷ 75 ∷ []))
    ∷ blank
    ∷ section "3." "PostgreSQL Row Level Security 검토"
    ∷ l1 "적용 대상 테이블 (7종)"
    ∷ l2 "gateways, sensor_channels, actuator_channels"
    ∷ l2 "telemetry, telemetry_latest"
    ∷ l2 "commands, audit_logs"
    ∷ l1 "정책 예시"
    ∷ code_block
        "ALTER TABLE gateways ENABLE ROW LEVEL SECURITY;\n\nCREATE POLICY gateway_access_policy ON gateways\nUSING (\n    id IN (\n        SELECT gateway_id\n          FROM user_gateway_permissions\n         WHERE user_id = current_setting('app.current_user_id')::uuid\n    )\n);"
    ∷ l1 "도입 시 고려사항"
    ∷ l2 "Backend connection pool에서 SET app.current_user_id 호출"
    ∷ l2 "service role 우회 정책 정의 필요 (worker, scheduler)"
    ∷ l2 "관리자 권한은 BYPASSRLS 별도 role"
    ∷ l2 "batch / migration 작업 시 일시 비활성화 고려"
    ∷ l1 "결론"
    ∷ l2 "Phase 1-5 동안은 application 레이어에서 권한 enforce"
    ∷ l2 "DB row-level 격리는 다중 테넌트가 본격화되는 Phase 6+에 도입"
    ∷ blank
    ∷ []
