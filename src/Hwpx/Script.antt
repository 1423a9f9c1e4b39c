-- ===== src/Hwpx/Script.antt =====
-- The script of build_plan_hwpx.py as a whole.
use rpi_io_t_server_project.Base.{ℕ, ◌≡◌, refl, true, all, arith}
use rpi_io_t_server_project.Base.Exec.{Result, ok, raised}
use rpi_io_t_server_project.Hwpx.{Plan, first_pid, empty_plan}
use rpi_io_t_server_project.Hwpx.Call.{perform_all}
use rpi_io_t_server_project.Hwpx.Content.{document}
use rpi_io_t_server_project.Hwpx.Content.Front.{front}
use rpi_io_t_server_project.Hwpx.Content.Overview.{overview}
use rpi_io_t_server_project.Hwpx.Content.Premises.{premises}
use rpi_io_t_server_project.Hwpx.Content.Architecture.{architecture_1, architecture_2}
use rpi_io_t_server_project.Hwpx.Content.Users.{users}
use rpi_io_t_server_project.Hwpx.Content.DataModel.{data_model_1, data_model_2}
use rpi_io_t_server_project.Hwpx.Content.Communication.{communication}
use rpi_io_t_server_project.Hwpx.Content.Safety.{safety}
use rpi_io_t_server_project.Hwpx.Content.Portal.{portal}
use rpi_io_t_server_project.Hwpx.Content.Agent.{agent}
use rpi_io_t_server_project.Hwpx.Content.Api.{api}
use rpi_io_t_server_project.Hwpx.Content.Security.{security}
use rpi_io_t_server_project.Hwpx.Content.Operation.{operation}
use rpi_io_t_server_project.Hwpx.Content.Roadmap.{roadmap}
use rpi_io_t_server_project.Hwpx.Content.Licences.{licences}
use rpi_io_t_server_project.Hwpx.Content.Conclusion.{conclusion}
use rpi_io_t_server_project.Hwpx.Rows.{count_from}
use rpi_io_t_server_project.Hwpx.Numbering.{ids, perform_all-count_from}
use rpi_io_t_server_project.Hwpx.Total.{call_fits, rows_fit, perform_all_total}
use rpi_io_t_server_project.Hwpx.Render.{script, finish, section_file}

pub document_fits : all call_fits document ≡ true
unfolding all call_fits rows_fit document front overview premises architecture_1 architecture_2
    users data_model_1 data_model_2 communication safety portal agent api security operation roadmap
    licences conclusion
document_fits = refl

finish_done :
    (r : Result (Unit {0}) × Plan) → r.0 ≡ ok tt → finish r ≡ ok (section_file r.1.paragraphs)
unfolding finish
finish_done (ok done, s) h = refl
finish_done (raised e, s) h = absurd (ground arith)

module _ (even : ℕ → ℕ) where
  -- The script writes its file, and the ids in it are consecutive.
  pub script_writes :
      let s = (perform_all even document empty_plan).1 in
      (script even ≡ ok (section_file s.paragraphs))
      × ((n : ℕ) × (ids s.paragraphs ≡ count_from first_pid n))
  unfolding script ids
  script_writes =
      let done = perform_all_total even document empty_plan document_fits in
      let (n, counted, numbered) = perform_all-count_from even document empty_plan done in
      (finish_done (perform_all even document empty_plan) done, (n, numbered))
