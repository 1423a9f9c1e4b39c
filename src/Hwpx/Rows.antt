-- ===== src/Hwpx/Rows.antt =====
-- What the rows of a table are filled with.
use rpi_io_t_server_project.Base.{
  ℕ, zero, suc, ◌+◌, String, ◌≡◌, refl, Bool, false, List, [], ◌∷◌, ◌++◌, map, length, inl, inr,
  arith, ◌≤◌,
}
use rpi_io_t_server_project.Base.Int.{ℤ}
use rpi_io_t_server_project.Base.Exec.{ok}
use rpi_io_t_server_project.Base.Outcome.{Result-cases}
use rpi_io_t_server_project.Hwpx.{Cell, Plan}
use rpi_io_t_server_project.Hwpx.Helpers.{next_pid, build_row, build_rows}

-- `n` numbers from `first` on.
unfoldable pub count_from : ℕ → ℕ → List ℕ
count_from first zero = []
count_from first (suc n) = first ∷ count_from (first + 1) n

pub count_from-add :
    (first m n : ℕ) → count_from first (m + n) ≡ count_from first m ++ count_from (first + m) n
unfolding count_from
count_from-add first zero n =
    let same : first + 0 ≡ first = omega arith in
    let none_more : 0 + n ≡ n = omega arith in rw (same, none_more)
count_from-add first (suc m) n =
    let one_more : suc m + n ≡ suc (m + n) = omega arith in
    let later : first + suc m ≡ first + 1 + m = omega arith in
    rw (one_more, later, count_from-add (first + 1) m n)

-- The first widths, one for each text.
unfoldable pub first_widths : List String → List ℤ → List ℤ
first_widths [] ws = []
first_widths (t ∷ ts) [] = []
first_widths (t ∷ ts) (w ∷ ws) = w ∷ first_widths ts ws

pub record IsRow (widths : List ℤ) (texts : List String) (s after : Plan) (cells : List Cell)
    : Type 0 where
  pub texts_kept : map (λ (c : Cell). c.text) cells ≡ texts
  pub widths_kept : map (λ (c : Cell). c.width) cells ≡ first_widths texts widths
  pub numbered : map (λ (c : Cell). c.id) cells ≡ count_from s.pid (length texts)
  pub fits : length texts ≤ length widths
  pub counted : after.pid ≡ s.pid + length texts
  pub tables : after.tid ≡ s.tid
  pub earlier : after.paragraphs ≡ s.paragraphs

pub build_row-IsRow :
    (widths : List ℤ) (row_addr col_addr : ℕ) (is_header : Bool) (texts : List String) (s : Plan)
    (cells : List Cell)
    → (build_row widths row_addr col_addr is_header texts s).0 ≡ ok cells
    → IsRow widths texts s (build_row widths row_addr col_addr is_header texts s).1 cells
unfolding build_row next_pid first_widths count_from
build_row-IsRow widths row_addr col_addr is_header [] s cells e = record {
  texts_kept = ground arith;
  widths_kept = ground arith;
  numbered = ground arith;
  fits = omega arith;
  counted = omega arith;
  tables = refl;
  earlier = refl;
}
build_row-IsRow [] row_addr col_addr is_header (t ∷ texts) s cells e = ground arith
build_row-IsRow (w ∷ widths) row_addr col_addr is_header (t ∷ texts) s cells e =
    let later : Plan = record s { pid = s.pid + 1 } in
    let r = build_row widths row_addr (col_addr + 1) is_header texts later in
    elim (Result-cases r.0) [
      | inl (x, refused) ↦ ground arith
      | inr (rest, built) ↦
          let k = build_row-IsRow widths row_addr (col_addr + 1) is_header texts later rest built in
          record {
            texts_kept = ground (arith, k.texts_kept);
            widths_kept = ground (arith, k.widths_kept);
            numbered = ground (arith, k.numbered);
            fits = ground (arith, k.fits);
            counted = ground (arith, k.counted);
            tables = ground (arith, k.tables);
            earlier = ground (arith, k.earlier);
          }
    ]

-- The ids of the cells, row by row.
unfoldable pub cell_ids : List (List Cell) → List ℕ
cell_ids [] = []
cell_ids (r ∷ rows) = map (λ (c : Cell). c.id) r ++ cell_ids rows

pub record IsBody (widths : List ℤ) (rows : List (List String)) (s after : Plan)
    (body : List (List Cell)) : Type 0 where
  pub size : ℕ
  pub texts_kept : map (map (λ (c : Cell). c.text)) body ≡ rows
  pub widths_kept : map (map (λ (c : Cell). c.width)) body ≡ map (λ r. first_widths r widths) rows
  pub numbered : cell_ids body ≡ count_from s.pid size
  pub counted : after.pid ≡ s.pid + size
  pub tables : after.tid ≡ s.tid
  pub earlier : after.paragraphs ≡ s.paragraphs

pub build_rows-IsBody :
    (widths : List ℤ) (row_addr : ℕ) (rows : List (List String)) (s : Plan)
    (body : List (List Cell))
    → (build_rows widths row_addr rows s).0 ≡ ok body
    → IsBody widths rows s (build_rows widths row_addr rows s).1 body
unfolding build_rows cell_ids count_from
build_rows-IsBody widths row_addr [] s body e = record {
  size = 0;
  texts_kept = ground arith;
  widths_kept = ground arith;
  numbered = ground arith;
  counted = omega arith;
  tables = refl;
  earlier = refl;
}
build_rows-IsBody widths row_addr (r ∷ rows) s body e =
    let built = build_row widths row_addr 0 false r s in
    elim (Result-cases built.0) [
      | inl (x, refused) ↦ absurd (ground arith)
      | inr (cells, done) ↦
          let others = build_rows widths (row_addr + 1) rows built.1 in
          elim (Result-cases others.0) [
            | inl (x, refused) ↦ absurd (ground arith)
            | inr (rest, finished) ↦
                let h = build_row-IsRow widths row_addr 0 false r s cells done in
                let k = build_rows-IsBody widths (row_addr + 1) rows built.1 rest finished in
                record {
                  size = length r + k.size;
                  texts_kept = ground (arith, h.texts_kept, k.texts_kept);
                  widths_kept = ground (arith, h.widths_kept, k.widths_kept);
                  numbered = ground (
                    arith,
                    h.numbered,
                    k.numbered,
                    h.counted,
                    count_from-add s.pid (length r) k.size,
                  );
                  counted = ground (arith, h.counted, k.counted);
                  tables = ground (arith, h.tables, k.tables);
                  earlier = ground (arith, h.earlier, k.earlier);
                }
          ]
    ]
