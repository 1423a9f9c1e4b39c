-- ===== src/Tests/Documents.antt =====
-- The theorems on the planning document at concrete inputs.
use rpi_io_t_server_project.Base.{ℕ, ◌+◌, String, ◌≡◌, refl, List, [], ◌∷◌, ◌++◌, Option, some}
use rpi_io_t_server_project.Base.Exec.{ok}
use rpi_io_t_server_project.Hwpx.{empty_plan}
use rpi_io_t_server_project.Hwpx.Helpers.{
  table, col_widths, raw_widths, correct, build_row, build_rows, next_pid, next_tid, append, sum,
}
use rpi_io_t_server_project.Hwpx.Call.{perform_all}
use rpi_io_t_server_project.Hwpx.Content.{document}
use rpi_io_t_server_project.Hwpx.Rows.{count_from}
use rpi_io_t_server_project.Hwpx.Numbering.{ids, perform_all-count_from}
use rpi_io_t_server_project.Hwpx.Widths.{IsFilled, table-IsFilled}
use rpi_io_t_server_project.Hwpx.Total.{perform_all_total}
use rpi_io_t_server_project.Hwpx.Script.{document_fits}

-- The width of each of `n` equal columns.
abbrev equal : ℕ → ℕ
equal n = 100

document_done : (perform_all equal document empty_plan).0 ≡ ok tt
document_done = perform_all_total equal document empty_plan document_fits

perform_all_total_example : (perform_all equal document empty_plan).0 ≡ ok tt
perform_all_total_example = perform_all_total equal document empty_plan document_fits

perform_all-count_from_example :
    let after = (perform_all equal document empty_plan).1 in
    (n : ℕ) × (after.pid ≡ empty_plan.pid + n)
    × (ids after.paragraphs ≡ ids empty_plan.paragraphs ++ count_from empty_plan.pid n)
perform_all-count_from_example = perform_all-count_from equal document empty_plan document_done

-- A table of two columns, as the body of the script makes them.
abbrev head : List String
head = "항목" ∷ "전제" ∷ []

abbrev lines : List (List String)
lines = ("컨테이너" ∷ "Docker 미사용" ∷ []) ∷ []

abbrev percents : Option (List ℕ)
percents = some (25 ∷ 75 ∷ [])

table_done : (table equal head lines percents empty_plan).0 ≡ ok tt
unfolding table col_widths raw_widths correct build_row build_rows next_pid next_tid append sum
table_done = refl

table-IsFilled_example :
    IsFilled head lines empty_plan (table equal head lines percents empty_plan).1
table-IsFilled_example = table-IsFilled equal head lines percents empty_plan refl table_done
