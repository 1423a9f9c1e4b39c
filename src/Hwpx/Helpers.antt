-- ===== src/Hwpx/Helpers.antt =====
-- The helpers of build_plan_hwpx.py.
use rpi_io_t_server_project.Base.{
  ℕ, zero, suc, ◌+◌, ◌*◌, ◌/◌, String, ◌<>◌, Bool, true, false, ◌&&◌, ◌||◌, leb, Option, none, some,
  List, [], ◌∷◌, ◌++◌, map, length, ◌==◌, nat_eq, if◌then◌else◌,
}
use rpi_io_t_server_project.Base.Int.{ℤ, pos, diff}
use rpi_io_t_server_project.Base.Exec.{
  Exec, Result, ok, raised, ◌>>=◌, ◌>>◌, pure, raise, lift, modify, index_error, key_error,
  zero_division_error,
}
use Prim.Native.Char.{Char, code}
use rpi_io_t_server_project.Hwpx.{Cell, Chunk, Plan, paragraph, framed, txt_width}

-- `pid.next()`
unfoldable pub next_pid : Exec Plan ℕ
next_pid s = (ok s.pid, record s { pid = s.pid + 1 })

-- `tid.next()`
unfoldable pub next_tid : Exec Plan ℕ
next_tid s = (ok s.tid, record s { tid = s.tid + 1 })

-- `paragraphs.append(...)`
unfoldable pub append : Chunk → Exec Plan (Unit {0})
append c = modify (λ s. record s { paragraphs = s.paragraphs ++ c ∷ [] })

-- The paragraph of `p`, `blank`, `chapter`, `section` and `code_block`.
unfoldable pub line : ℕ → ℕ → Option String → Exec Plan (Unit {0})
unfolding next_pid append
line para_ref char_ref text = do id ← next_pid; append (paragraph id para_ref char_ref text)

unfoldable pub p : String → ℕ → ℕ → Exec Plan (Unit {0})
p text para_ref char_ref = line para_ref char_ref (some text)

unfoldable pub blank : Exec Plan (Unit {0})
blank = line 0 0 none

unfoldable pub title_main : String → Exec Plan (Unit {0})
title_main text = p text 20 12

unfoldable pub chapter : String → Exec Plan (Unit {0})
chapter text = line 27 13 (some text)

unfoldable pub section : String → String → Exec Plan (Unit {0})
section num text = line 24 9 (some (num <> (" " <> text)))

-- `L1`, `L2` and `L3`.
unfoldable pub level1 : String → String → Exec Plan (Unit {0})
level1 text marker = p (marker <> (" " <> text)) 24 0

unfoldable pub level2 : String → String → Exec Plan (Unit {0})
level2 text marker = p (marker <> (" " <> text)) 25 0

unfoldable pub level3 : String → String → Exec Plan (Unit {0})
level3 text marker = p (marker <> (" " <> text)) 26 0

unfoldable pub note : String → Exec Plan (Unit {0})
note text = p ("※ " <> text) 24 11

-- The dicts of `kv` have the levels 1 to 3.
unfoldable pub kv : String → String → ℕ → Exec Plan (Unit {0})
kv key value level =
    let text = key <> (" : " <> value) in
    if level == 1
    then p ("□ " <> text) 24 0
    else if level == 2
    then p ("○ " <> text) 25 0
    else if level == 3
    then p ("- " <> text) 26 0
    else raise key_error

-- `text.split("\n")`: the first line, and the others.
unfoldable pub split_lines : String → String × List String
split_lines String.[] = ("", [])
split_lines (String.◌∷◌ c s) =
    let (first, rest) = split_lines s in
    if code c == 10 then ("", first ∷ rest) else (String.◌∷◌ c first, rest)

-- `c.isspace()`
unfoldable pub is_space : Char → Bool
is_space c =
    let n = code c in
    (leb 9 n && leb n 13)
    || (leb 28 n && leb n 32)
    || n == 133
    || n == 160
    || n == 5760
    || (leb 8192 n && leb n 8202)
    || n == 8232
    || n == 8233
    || n == 8239
    || n == 8287
    || n == 12288

-- `not line.strip()`
unfoldable pub is_blank : String → Bool
unfolding is_space
is_blank String.[] = true
is_blank (String.◌∷◌ c s) = is_space c && is_blank s

unfoldable pub code_line : String → Exec Plan (Unit {0})
code_line s = if is_blank s then line 25 11 none else line 25 11 (some s)

unfoldable pub code_lines : List String → Exec Plan (Unit {0})
unfolding code_line
code_lines [] = pure tt
code_lines (s ∷ rest) = do code_line s; code_lines rest

unfoldable pub code_block : String → Exec Plan (Unit {0})
code_block text = let (first, rest) = split_lines text in code_lines (first ∷ rest)

unfoldable pub sum : List ℕ → ℕ
sum [] = 0
sum (x ∷ xs) = x + sum xs

-- `col_widths[-1] += diff`
unfoldable pub correct : ℕ → List ℕ → List ℤ
correct total [] = []
correct total (w ∷ []) = diff (w + txt_width) total ∷ []
correct total (w ∷ v ∷ ws) = pos w ∷ correct total (v ∷ ws)

unfoldable pub repeat : ℕ → ℕ → List ℕ
repeat zero x = []
repeat (suc n) x = x ∷ repeat n x

-- `build_row`, from a column on.
unfoldable pub build_row : List ℤ → ℕ → ℕ → Bool → List String → Exec Plan (List Cell)
unfolding next_pid
build_row widths row_addr col_addr is_header [] = pure []
build_row [] row_addr col_addr is_header (txt ∷ cells) = raise index_error
build_row (cw ∷ widths) row_addr col_addr is_header (txt ∷ cells) = do
  cell_p_id ← next_pid
  rest ← build_row widths row_addr (col_addr + 1) is_header cells
  pure (
      record {
        id = cell_p_id;
        row_addr = row_addr;
        col_addr = col_addr;
        width = cw;
        border_ref = if is_header then 4 else 3;
        char_ref = if is_header then 9 else 0;
        para_ref = if is_header then 21 else 22;
        text = txt;
      }
      ∷ rest)

unfoldable pub build_rows : List ℤ → ℕ → List (List String) → Exec Plan (List (List Cell))
build_rows widths row_addr [] = pure []
build_rows widths row_addr (r ∷ rows) = do
  cells ← build_row widths row_addr 0 false r
  rest ← build_rows widths (row_addr + 1) rows
  pure (cells ∷ rest)

-- `even n` is the width that floating point gives to each of `n` equal columns.
module _ (even : ℕ → ℕ) where
  unfoldable pub raw_widths : List String → Option (List ℕ) → Result (List ℕ)
  raw_widths headers (some pcts) = ok (map (λ w. txt_width * w / 100) pcts)
  raw_widths [] none = raised zero_division_error
  raw_widths (h ∷ hs) none = ok (repeat (length (h ∷ hs)) (even (length (h ∷ hs))))

  unfoldable pub col_widths : List String → Option (List ℕ) → Result (List ℤ)
  unfolding raw_widths
  col_widths headers pcts = elim (raw_widths headers pcts) [
    | raised e ↦ raised e
    | ok [] ↦ raised index_error
    | ok (w ∷ ws) ↦ ok (correct (sum (w ∷ ws)) (w ∷ ws))
  ]

  unfoldable pub table : List String → List (List String) → Option (List ℕ) → Exec Plan (Unit {0})
  unfolding next_pid next_tid append
  table headers rows pcts = do
    widths ← lift (col_widths headers pcts)
    wrap_id ← next_pid
    tbl_id ← next_tid
    header ← build_row widths 0 0 true headers
    body ← build_rows widths 1 rows
    append (
        framed wrap_id tbl_id (length rows + 1) (length headers) (2400 * (length rows + 1))
          (header ∷ body))
