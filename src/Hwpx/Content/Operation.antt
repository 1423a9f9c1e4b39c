-- ===== src/Hwpx/Content/Operation.antt =====
-- build_plan_hwpx.py, lines 1258 to 1303.
use rpi_io_t_server_project.Base.{List, [], ◌∷◌, some}
use rpi_io_t_server_project.Hwpx.Call.{Call, blank, chapter, section, table}

unfoldable pub operation : List Call
operation =
    chapter "Ⅻ. 운영 관리"
    ∷ section "1." "백업 정책"
    ∷ table ("대상" ∷ "주기" ∷ "방식" ∷ [])
        (("PostgreSQL" ∷ "매일" ∷ "pg_dump / pg_basebackup" ∷ [])
          ∷ ("Gateway Config" ∷ "매일" ∷ "파일 / DB 백업" ∷ [])
          ∷ ("펌웨어" ∷ "변경 시" ∷ "rsync" ∷ [])
          ∷ ("로그" ∷ "정책 기반" ∷ "압축 / 보관" ∷ [])
          ∷ ("Keycloak realm" ∷ "변경 시" ∷ "kc.sh export" ∷ [])
          ∷ [])
        (some (25 ∷ 20 ∷ 55 ∷ []))
    ∷ blank
    ∷ section "2." "모니터링 지표"
    ∷ table ("대상" ∷ "지표" ∷ [])
        (("Gateway" ∷ "online · heartbeat · CPU · mem · disk · temperature" ∷ [])
          ∷ ("VerneMQ" ∷ "connected clients · message rate · dropped" ∷ [])
          ∷ ("Backend" ∷ "API latency · error rate" ∷ [])
          ∷ ("DB" ∷ "connections · slow query · disk usage" ∷ [])
          ∷ ("Command" ∷ "success · timeout · rejected rate" ∷ [])
          ∷ ("Config" ∷ "pending · applied · failed" ∷ [])
          ∷ ("OTA" ∷ "success · failed · rollback" ∷ [])
          ∷ [])
        (some (20 ∷ 80 ∷ []))
    ∷ blank
    ∷ section "3." "장애 대응"
    ∷ table ("장애" ∷ "대응" ∷ [])
        (("Gateway offline" ∷ "알람 발생 + 마지막 상태 표시" ∷ [])
          ∷ ("센서 미수신" ∷ "sensor_channel 상태 = degraded" ∷ [])
          ∷ ("명령 timeout" ∷ "command failed 처리" ∷ [])
          ∷ ("config 적용 실패" ∷ "이전 config 유지 + 관리자 알림" ∷ [])
          ∷ ("DB 용량 증가" ∷ "partition retention 적용" ∷ [])
          ∷ ("서버 장애" ∷ "백업 복구 절차 실행" ∷ [])
          ∷ [])
        (some (30 ∷ 70 ∷ []))
    ∷ blank
    ∷ []
