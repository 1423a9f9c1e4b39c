-- ===== src/Hwpx/Content/Users.antt =====
-- build_plan_hwpx.py, lines 517 to 567.
use rpi_io_t_server_project.Base.{List, [], ◌∷◌, some}
use rpi_io_t_server_project.Hwpx.Call.{Call, blank, chapter, section, l1, l2, table}

unfoldable pub users : List Call
users =
    chapter "Ⅳ. 사용자 및 권한 모델"
    ∷ section "1." "권한 계층 (Top-Down)"
    ∷ l1 "System Admin — 시스템 전체 설정 · 모든 회사·Gateway 관리"
    ∷ l1 "Management Company Admin — 모든 고객사·전체 Gateway 관제·유지보수"
    ∷ l1 "Customer Company Admin — 본인 회사 사용자·현장·Gateway 관리"
    ∷ l1 "Site Manager — 특정 현장 Gateway 관리"
    ∷ l1 "Operator — 허용된 Gateway의 제어 채널 조작"
    ∷ l1 "Viewer — 센서 데이터·상태 조회만 가능"
    ∷ l1 "Maintenance Engineer (별도 축) — 진단·로그 수집·OTA·재부팅"
    ∷ blank
    ∷ section "2." "권한 테이블 3축"
    ∷ table ("테이블" ∷ "조합 키" ∷ [])
        (("user_company_roles" ∷ "user × company × role" ∷ [])
          ∷ ("user_site_permissions" ∷ "user × site × permission" ∷ [])
          ∷ ("user_gateway_permissions" ∷ "user × gateway × permission" ∷ [])
          ∷ [])
        (some (35 ∷ 65 ∷ []))
    ∷ l1 "권한 종류 (permission)"
    ∷ l2 "view — 조회만 가능"
    ∷ l2 "control — 액추에이터 제어 가능"
    ∷ l2 "configure — 설정 변경 가능"
    ∷ l2 "maintain — 유지보수·OTA·재부팅"
    ∷ l2 "admin — 모든 권한 + 권한 위임"
    ∷ blank
    ∷ section "3." "Keycloak 구성"
    ∷ l1 "Realm : iot-platform"
    ∷ l1 "DB Backend : PostgreSQL 공유 인스턴스 안 별도 db (db=keycloak)"
    ∷ l1 "Groups (Company 매핑)"
    ∷ l2 "management-company"
    ∷ l2 "customer-company-a / customer-company-b / customer-company-c …"
    ∷ l1 "Roles (7종, Phase 1에서 모두 생성)"
    ∷ l2
        "system_admin · management_admin · company_admin · site_manager · operator · viewer · maintenance_engineer"
    ∷ blank
    ∷ section "4." "Keycloak ↔ Backend 책임 분리"
    ∷ l1 "Keycloak 책임"
    ∷ l2 "사용자 인증, 비밀번호 정책, OTP/2FA, 비밀번호 reset"
    ∷ l2 "OIDC/OAuth2 토큰 발급, role claim 제공"
    ∷ l1 "Backend 책임"
    ∷ l2 "company_id · site_id · gateway_id 기반 실 접근 권한 판단"
    ∷ l2 "Keycloak claim만 신뢰하지 않고 DB 권한 매핑으로 최종 검증"
    ∷ l1 "토큰 검증 흐름"
    ∷ l2 "React → Keycloak OIDC 로그인 → Bearer token → /api/* 요청"
    ∷ l2 "Backend가 JWT 검증 → DB 권한 매핑 → 응답"
    ∷ blank
    ∷ []
