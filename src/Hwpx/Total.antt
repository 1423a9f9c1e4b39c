-- ===== src/Hwpx/Total.antt =====
-- When the calls end without an exception.
use rpi_io_t_server_project.Base.{
  ℕ, ◌+◌, ◌*◌, ◌/◌, String, ◌≡◌, ◌≤◌, refl, ◌∙◌, Bool, true, false, ◌&&◌, leb, all, List, [], ◌∷◌,
  map, length, Option, none, some, Bool-cases, inl, inr, arith, ◌==◌, nat_eq, if◌then◌else◌,
}
use rpi_io_t_server_project.Base.Int.{ℤ}
use rpi_io_t_server_project.Base.Exec.{Exec, ok, ◌>>◌}
use rpi_io_t_server_project.Hwpx.{Cell, Plan, txt_width}
use rpi_io_t_server_project.Hwpx.Helpers.{
  next_pid, next_tid, append, line, sum, correct, repeat, code_line, code_lines, code_block, kv,
  raw_widths, col_widths, build_row, build_rows, table,
}
use rpi_io_t_server_project.Hwpx.Helpers
use rpi_io_t_server_project.Hwpx.Call.{Call, perform, perform_all}
use rpi_io_t_server_project.Hwpx.Widths.{length-correct, length-map, length-repeat}

-- A row has no more cells than the table has columns, and there is a column.
unfoldable pub rows_fit : ℕ → List (List String) → Bool
rows_fit n rows = leb 1 n && all (λ r. leb (length r) n) rows

unfoldable pub call_fits : Call → Bool
unfolding rows_fit
call_fits (Call.table headers rows (some pcts)) = rows_fit (length pcts) (headers ∷ rows)
call_fits (Call.table headers rows none) = rows_fit (length headers) rows
call_fits (Call.kv key value level) = leb 1 level && leb level 3
call_fits _ = true

build_row_total :
    (widths : List ℤ) (row_addr col_addr : ℕ) (is_header : Bool) (texts : List String) (s : Plan)
    → length texts ≤ length widths
    → (cells : List Cell) × ((build_row widths row_addr col_addr is_header texts s).0 ≡ ok cells)
unfolding build_row next_pid
build_row_total widths row_addr col_addr is_header [] s h = ([], refl)
build_row_total [] row_addr col_addr is_header (t ∷ texts) s h = absurd (ground arith)
build_row_total (w ∷ widths) row_addr col_addr is_header (t ∷ texts) s h =
    let (cells, e) =
      build_row_total widths row_addr (col_addr + 1) is_header texts (record s { pid = s.pid + 1 })
        (ground arith) in
    let cell : Cell = record {
      id = s.pid;
      row_addr = row_addr;
      col_addr = col_addr;
      width = w;
      border_ref = if is_header then 4 else 3;
      char_ref = if is_header then 9 else 0;
      para_ref = if is_header then 21 else 22;
      text = t;
    } in
    (cell ∷ cells, rw e refl)

build_rows_total :
    (widths : List ℤ) (row_addr : ℕ) (rows : List (List String)) (s : Plan)
    → all (λ r. leb (length r) (length widths)) rows ≡ true
    → (body : List (List Cell)) × ((build_rows widths row_addr rows s).0 ≡ ok body)
unfolding build_rows all
build_rows_total widths row_addr [] s h = ([], refl)
build_rows_total widths row_addr (r ∷ rows) s h =
    let (cells, e) = build_row_total widths row_addr 0 false r s (ground arith) in
    let (body, f) =
      build_rows_total widths (row_addr + 1) rows (build_row widths row_addr 0 false r s).1
        (ground arith) in
    (cells ∷ body, rw (e, f) refl)

module _ (even : ℕ → ℕ) where
  -- The columns of a table.
  columns : List String → Option (List ℕ) → ℕ
  columns headers (some pcts) = length pcts
  columns headers none = length headers

  col_widths_total :
      (headers : List String) (pcts : Option (List ℕ))
      → 1 ≤ columns headers pcts
      → (ws : List ℤ) × (col_widths even headers pcts ≡ ok ws) × (length ws ≡ columns headers pcts)
  unfolding col_widths raw_widths columns repeat
  col_widths_total headers (some []) h = absurd (ground arith)
  col_widths_total headers (some (w ∷ pcts)) h = (
    _,
    refl,
    length-correct _ (map (λ w. txt_width * w / 100) (w ∷ pcts)) ∙ length-map _ (w ∷ pcts),
  )
  col_widths_total [] none h = absurd (ground arith)
  col_widths_total (t ∷ ts) none h =
      let n = length (t ∷ ts) in
      (_, refl, length-correct _ (repeat n (even n)) ∙ length-repeat n (even n))

  table_total :
      (headers : List String) (rows : List (List String)) (pcts : Option (List ℕ)) (s : Plan)
      → 1 ≤ columns headers pcts
      → length headers ≤ columns headers pcts
      → all (λ r. leb (length r) (columns headers pcts)) rows ≡ true
      → (table even headers rows pcts s).0 ≡ ok tt
  unfolding table next_pid next_tid append
  table_total headers rows pcts s one fit fits =
      let started : Plan = record s { pid = s.pid + 1; tid = s.tid + 1 } in
      let (ws, given, size) = col_widths_total headers pcts one in
      let (header, e) = build_row_total ws 0 0 true headers started (rw size fit) in
      let (body, f) =
        build_rows_total ws 1 rows (build_row ws 0 0 true headers started).1 (rw size fits) in
      rw (given, e, f) refl

-- Code that always ends well.
record IsTotal (m : Exec Plan (Unit {0})) : Type 0 where
  at : (s : Plan) → (m s).0 ≡ ok tt

then-IsTotal : (m n : Exec Plan (Unit {0})) → IsTotal m → IsTotal n → IsTotal (m >> n)
then-IsTotal m n h k = record { at = λ s. rw (h.at s) (k.at (m s).1) }

line-IsTotal :
    (para_ref char_ref : ℕ) (text : Option String) → IsTotal (line para_ref char_ref text)
unfolding line next_pid append
line-IsTotal para_ref char_ref text = record { at = λ s. refl }

code_lines-IsTotal : (lines : List String) → IsTotal (code_lines lines)
unfolding code_lines code_line
code_lines-IsTotal [] = record { at = λ s. refl }
code_lines-IsTotal (s ∷ rest) =
    then-IsTotal (code_line s) (code_lines rest)
      (elim (Bool-cases (Helpers.is_blank s)) [
        | inl empty ↦ rw empty (line-IsTotal 25 11 none)
        | inr full ↦ rw full (line-IsTotal 25 11 (some s))
      ])
      (code_lines-IsTotal rest)

kv-IsTotal : (key value : String) (level : ℕ) → 1 ≤ level → level ≤ 3 → IsTotal (kv key value level)
unfolding kv Helpers.p
kv-IsTotal key value level low high = elim (Bool-cases (level == 1)) [
  | inl one ↦ rw one (line-IsTotal 24 0 _)
  | inr n1 ↦ elim (Bool-cases (level == 2)) [
    | inl two ↦ rw (n1, two) (line-IsTotal 25 0 _)
    | inr n2 ↦
        let three : (level == 3) ≡ true = ground arith in rw (n1, n2, three) (line-IsTotal 26 0 _)
  ]
]

module _ (even : ℕ → ℕ) where
  perform-IsTotal : (c : Call) → call_fits c ≡ true → IsTotal (perform even c)
  unfolding call_fits rows_fit columns all perform Helpers.p Helpers.blank Helpers.title_main
      Helpers.chapter Helpers.level1 Helpers.level2 Helpers.level3 Helpers.note Helpers.section
      code_block
  perform-IsTotal (Call.para text para_ref char_ref) h = line-IsTotal para_ref char_ref (some text)
  perform-IsTotal Call.blank h = line-IsTotal 0 0 none
  perform-IsTotal (Call.title_main text) h = line-IsTotal 20 12 (some text)
  perform-IsTotal (Call.chapter text) h = line-IsTotal 27 13 (some text)
  perform-IsTotal (Call.l1 text) h = line-IsTotal 24 0 _
  perform-IsTotal (Call.l2 text) h = line-IsTotal 25 0 _
  perform-IsTotal (Call.l3 text) h = line-IsTotal 26 0 _
  perform-IsTotal (Call.note text) h = line-IsTotal 24 11 _
  perform-IsTotal (Call.code_block text) h = code_lines-IsTotal _
  perform-IsTotal (Call.section num text) h = line-IsTotal 24 9 _
  perform-IsTotal (Call.kv key value level) h =
      kv-IsTotal key value level (ground arith) (ground arith)
  perform-IsTotal (Call.table headers rows (some pcts)) h = record {
    at = λ s.
        table_total even headers rows (some pcts) s (ground arith) (ground arith) (ground arith);
  }
  perform-IsTotal (Call.table headers rows none) h = record {
    at = λ s. table_total even headers rows none s (ground arith) (omega arith) (ground arith);
  }

  all-IsTotal : (calls : List Call) → all call_fits calls ≡ true → IsTotal (perform_all even calls)
  unfolding perform_all all
  all-IsTotal [] h = record { at = λ s. refl }
  all-IsTotal (c ∷ calls) h =
      then-IsTotal (perform even c) (perform_all even calls) (perform-IsTotal c (ground arith))
        (all-IsTotal calls (ground arith))

  -- For every list of calls of the document's helpers whose tables have a column and no row with
  -- more cells than columns, and whose levels of `kv` are 1 to 3, and for every state and every
  -- width of equal columns: performing the calls ends without an exception.
  pub perform_all_total :
      (calls : List Call) (s : Plan)
      → all call_fits calls ≡ true
      → (perform_all even calls s).0 ≡ ok tt
  perform_all_total calls s h = (all-IsTotal calls h).at s
