-- ===== src/Hwpx/Tables.antt =====
-- What a call of `table` appends.
use rpi_io_t_server_project.Base.{
  ℕ, ◌+◌, ◌*◌, String, ◌≡◌, true, List, [], ◌∷◌, ◌++◌, length, Option, inl, inr, arith,
}
use rpi_io_t_server_project.Base.Int.{ℤ}
use rpi_io_t_server_project.Base.Exec.{ok}
use rpi_io_t_server_project.Base.Outcome.{Result-cases}
use rpi_io_t_server_project.Hwpx.{Cell, Plan, framed}
use rpi_io_t_server_project.Hwpx.Helpers.{
  next_pid, next_tid, append, col_widths, build_row, build_rows, table,
}
use rpi_io_t_server_project.Hwpx.Rows.{IsRow, build_row-IsRow, IsBody, build_rows-IsBody}

module _ (even : ℕ → ℕ) (headers : List String) (rows : List (List String))
    (pcts : Option (List ℕ)) where
  pub record IsFramed (s after : Plan) : Type 0 where
    pub widths : List ℤ
    pub header : List Cell
    pub body : List (List Cell)
    pub between : Plan
    pub last : Plan
    pub given : col_widths even headers pcts ≡ ok widths
    pub top : IsRow widths headers (record s { pid = s.pid + 1; tid = s.tid + 1 }) between header
    pub rest : IsBody widths rows between last body
    pub pid : after.pid ≡ last.pid
    pub paragraphs :
        after.paragraphs
        ≡ s.paragraphs
          ++ framed s.pid s.tid
              (length rows + 1)
              (length headers)
              (2400 * (length rows + 1))
              (header ∷ body)
            ∷ []

  pub table-IsFramed :
      (s : Plan)
      → (table even headers rows pcts s).0 ≡ ok tt
      → IsFramed s (table even headers rows pcts s).1
  unfolding table next_pid next_tid append
  table-IsFramed s e = elim (Result-cases (col_widths even headers pcts)) [
    | inl (x, refused) ↦ absurd (ground arith)
    | inr (widths, given) ↦
        let started : Plan = record s { pid = s.pid + 1; tid = s.tid + 1 } in
        let top = build_row widths 0 0 true headers started in
        elim (Result-cases top.0) [
          | inl (x, refused) ↦ absurd (ground arith)
          | inr (header, done) ↦
              let others = build_rows widths 1 rows top.1 in
              elim (Result-cases others.0) [
                | inl (x, refused) ↦ absurd (ground arith)
                | inr (body, finished) ↦
                    let h = build_row-IsRow widths 0 0 true headers started header done in
                    let k = build_rows-IsBody widths 1 rows top.1 body finished in
                    record {
                      widths = widths;
                      header = header;
                      body = body;
                      between = top.1;
                      last = others.1;
                      given = given;
                      top = h;
                      rest = k;
                      pid = ground (arith, given, done, finished);
                      paragraphs = ground (arith, given, done, finished, h.earlier, k.earlier);
                    }
              ]
        ]
  ]
