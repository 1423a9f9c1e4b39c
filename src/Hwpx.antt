-- ===== src/Hwpx.antt =====
-- build_plan_hwpx.py: the helpers that write the planning document, and the script. The script keeps a
-- list of XML texts; here it is a list of what is filled into them, and Hwpx.Render has the texts.
pub mod Escape
pub mod Helpers
pub mod Call
pub mod Rows
pub mod Tables
pub mod Numbering
pub mod Widths
pub mod Total
pub mod Render
pub mod Content
pub mod Script
use rpi_io_t_server_project.Base.{ℕ, String, List, [], Option}
use rpi_io_t_server_project.Base.Int.{ℤ}

-- A cell of a table.
pub record Cell : Type 0 where
  pub id : ℕ
  pub row_addr : ℕ
  pub col_addr : ℕ
  pub width : ℤ
  pub border_ref : ℕ
  pub char_ref : ℕ
  pub para_ref : ℕ
  pub text : String

-- One piece of the list: a paragraph with a text or none, or a paragraph around a table.
pub data Chunk : Type 0 where
  paragraph : (id para_ref char_ref : ℕ) (text : Option String) → Chunk
  framed : (wrap_id tbl_id n_rows n_cols total_h : ℕ) (rows : List (List Cell)) → Chunk

-- The two counters and the list.
pub record Plan : Type 0 where
  pub pid : ℕ
  pub tid : ℕ
  pub paragraphs : List Chunk

abbrev pub first_pid : ℕ
first_pid = 1_000_000_010

abbrev pub empty_plan : Plan
empty_plan = record { pid = first_pid; tid = 2_000_000_001; paragraphs = [] }

-- A4, between the margins.
abbrev pub txt_width : ℕ
txt_width = 42520
