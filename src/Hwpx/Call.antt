-- ===== src/Hwpx/Call.antt =====
-- The calls that the body of build_plan_hwpx.py makes, as a list that is performed in order.
use rpi_io_t_server_project.Base.{ℕ, String, Option, List, [], ◌∷◌}
use rpi_io_t_server_project.Base.Exec.{Exec, ◌>>◌, pure}
use rpi_io_t_server_project.Hwpx.{Plan}
use rpi_io_t_server_project.Hwpx.Helpers

pub data Call : Type 0 where
  para : (text : String) (para_ref char_ref : ℕ) → Call
  blank : Call
  title_main chapter l1 l2 l3 note code_block : (text : String) → Call
  section : (num text : String) → Call
  kv : (key value : String) (level : ℕ) → Call
  table :
      (headers : List String) (rows : List (List String)) (col_widths_pct : Option (List ℕ)) → Call

module _ (even : ℕ → ℕ) where
  unfoldable pub perform : Call → Exec Plan (Unit {0})
  perform (para text para_ref char_ref) = Helpers.p text para_ref char_ref
  perform blank = Helpers.blank
  perform (title_main text) = Helpers.title_main text
  perform (chapter text) = Helpers.chapter text
  perform (l1 text) = Helpers.level1 text "□"
  perform (l2 text) = Helpers.level2 text "○"
  perform (l3 text) = Helpers.level3 text "-"
  perform (note text) = Helpers.note text
  perform (code_block text) = Helpers.code_block text
  perform (section num text) = Helpers.section num text
  perform (kv key value level) = Helpers.kv key value level
  perform (table headers rows col_widths_pct) = Helpers.table even headers rows col_widths_pct

  unfoldable pub perform_all : List Call → Exec Plan (Unit {0})
  perform_all [] = pure tt
  perform_all (c ∷ calls) = do perform c; perform_all calls
