-- ===== src/Hwpx/Widths.antt =====
-- The widths of the columns of a table.
use rpi_io_t_server_project.Base.{
  ℕ, zero, suc, ◌+◌, ◌*◌, ◌/◌, String, ◌≡◌, refl, ap, ◌∙◌, List, [], ◌∷◌, ◌++◌, map, length, Option,
  none, some, arith,
}
use rpi_io_t_server_project.Base.Int.{ℤ, pos, diff, sum_int, pos-diff, diff_self, zero-diff}
use rpi_io_t_server_project.Base.Exec.{Exc, Result, ok, raised}
use rpi_io_t_server_project.Hwpx.{Cell, Plan, framed, txt_width}
use rpi_io_t_server_project.Hwpx.Helpers.{sum, correct, repeat, raw_widths, col_widths, table}
use rpi_io_t_server_project.Hwpx.Rows.{first_widths}
use rpi_io_t_server_project.Hwpx.Tables.{table-IsFramed}

sum-correct :
    (total w : ℕ) (ws : List ℕ)
    → sum_int (correct total (w ∷ ws)) ≡ diff (sum (w ∷ ws) + txt_width) total
unfolding sum_int correct sum
sum-correct total w [] =
    let e : w + 0 + txt_width ≡ w + txt_width = omega arith in
    rw (e, zero-diff (w + txt_width) total)
sum-correct total w (v ∷ ws) =
    let e : w + (sum (v ∷ ws) + txt_width) ≡ w + sum (v ∷ ws) + txt_width = omega arith in
    rw (sum-correct total v ws, pos-diff w (sum (v ∷ ws) + txt_width) total, e)

pub length-correct : (total : ℕ) (ws : List ℕ) → length (correct total ws) ≡ length ws
unfolding correct
length-correct total [] = refl
length-correct total (w ∷ []) = refl
length-correct total (w ∷ v ∷ ws) = ap suc (length-correct total (v ∷ ws))

pub length-map : {A B : Type 0} (f : A → B) (xs : List A) → length (map f xs) ≡ length xs
length-map f [] = refl
length-map f (x ∷ xs) = ap suc (length-map f xs)

pub length-repeat : (n x : ℕ) → length (repeat n x) ≡ n
unfolding repeat
length-repeat zero x = refl
length-repeat (suc n) x = ap suc (length-repeat n x)

first_widths-all :
    (ts : List String) (ws : List ℤ) → length ts ≡ length ws → first_widths ts ws ≡ ws
unfolding first_widths
first_widths-all [] [] h = refl
first_widths-all [] (w ∷ ws) h = absurd (ground arith)
first_widths-all (t ∷ ts) [] h = absurd (ground arith)
first_widths-all (t ∷ ts) (w ∷ ws) h = ap (λ l. w ∷ l) (first_widths-all ts ws (ground arith))

-- One percentage for each header, or none given.
abbrev pub IsAligned : List String → Option (List ℕ) → Type 0
IsAligned headers none = Unit
IsAligned headers (some pcts) = length pcts ≡ length headers

module _ (even : ℕ → ℕ) where
  length-raw_widths :
      (headers : List String) (pcts : Option (List ℕ)) (ws : List ℕ)
      → raw_widths even headers pcts ≡ ok ws
      → IsAligned headers pcts
      → length ws ≡ length headers
  unfolding raw_widths
  length-raw_widths headers (some pcts) ws e h =
      ground (arith, length-map (λ w. txt_width * w / 100) pcts)
  length-raw_widths [] none ws e h = absurd (ground arith)
  length-raw_widths (t ∷ ts) none ws e h =
      ground (arith, length-repeat (length (t ∷ ts)) (even (length (t ∷ ts))))

  corrected :
      (raw : Result (List ℕ)) (ws : List ℤ) (n : ℕ)
      → (elim raw [
        | raised e ↦ raised e
        | ok [] ↦ raised Exc.index_error
        | ok (w ∷ ws) ↦ ok (correct (sum (w ∷ ws)) (w ∷ ws))
      ])
        ≡ ok ws
      → ((r : List ℕ) → raw ≡ ok r → length r ≡ n)
      → (sum_int ws ≡ pos txt_width) × (length ws ≡ n)
  corrected (raised x) ws n e h = absurd (ground arith)
  corrected (ok []) ws n e h = absurd (ground arith)
  corrected (ok (w ∷ r)) ws n e h = (
    ground (arith, sum-correct (sum (w ∷ r)) w r, diff_self (sum (w ∷ r)) txt_width),
    ground (arith, length-correct (sum (w ∷ r)) (w ∷ r), h (w ∷ r) refl),
  )

-- The table that a call has appended.
pub record IsFilled (headers : List String) (rows : List (List String)) (s after : Plan)
    : Type 0 where
  pub widths : List ℤ
  pub header : List Cell
  pub body : List (List Cell)
  pub appended :
      after.paragraphs
      ≡ s.paragraphs
        ++ framed s.pid s.tid
            (length rows + 1)
            (length headers)
            (2400 * (length rows + 1))
            (header ∷ body)
          ∷ []
  pub headers_kept : map (λ (c : Cell). c.text) header ≡ headers
  pub rows_kept : map (map (λ (c : Cell). c.text)) body ≡ rows
  pub header_widths : map (λ (c : Cell). c.width) header ≡ widths
  pub row_widths : map (map (λ (c : Cell). c.width)) body ≡ map (λ r. first_widths r widths) rows
  pub full : sum_int widths ≡ pos txt_width

module _ (even : ℕ → ℕ) (headers : List String) (rows : List (List String))
    (pcts : Option (List ℕ)) where
  -- If a table has one percentage for each header, or none at all, and its call ends without an
  -- exception, then it appends one table whose header cells and rows have exactly the texts given,
  -- whose header cells have widths that sum to the width of the text, 42520, and whose other rows
  -- have these widths column by column.
  pub table-IsFilled :
      (s : Plan)
      → IsAligned headers pcts
      → (table even headers rows pcts s).0 ≡ ok tt
      → IsFilled headers rows s (table even headers rows pcts s).1
  unfolding col_widths
  table-IsFilled s h e =
      let f = table-IsFramed even headers rows pcts s e in
      let (full, size) =
        corrected even (raw_widths even headers pcts) f.widths (length headers) f.given
          (λ r given. length-raw_widths even headers pcts r given h) in
      record {
        widths = f.widths;
        header = f.header;
        body = f.body;
        appended = f.paragraphs;
        headers_kept = f.top.texts_kept;
        rows_kept = f.rest.texts_kept;
        header_widths = f.top.widths_kept ∙ first_widths-all headers f.widths (ground arith);
        row_widths = f.rest.widths_kept;
        full = full;
      }
