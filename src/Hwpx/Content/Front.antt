-- ===== src/Hwpx/Content/Front.antt =====
-- build_plan_hwpx.py, lines 265 to 272.
use rpi_io_t_server_project.Base.{List, [], ◌∷◌}
use rpi_io_t_server_project.Hwpx.Call.{Call, para, blank, title_main}

unfoldable pub front : List Call
front =
    title_main "산업용 CM4 기반 IoT Gateway 자체 호스팅 플랫폼"
    ∷ title_main "상세 구현 계획서"
    ∷ blank
    ∷ para "작성일 : 2026-05-03" 20 0
    ∷ para "구축 방식 : Docker 미사용 · systemd 기반 자체 호스팅" 20 0
    ∷ para "핵심 구성 : VerneMQ + PostgreSQL + Keycloak + FastAPI + React (Vite)" 20 0
    ∷ para "작성 주체 : Solo + Claude Code AI Pair" 20 0
    ∷ blank
    ∷ blank
    ∷ []
