-- ===== src/Hwpx/Numbering.antt =====
-- The ids of the document: in the order of the document they are consecutive numbers.
use rpi_io_t_server_project.Base.{
  ℕ, suc, ◌+◌, ◌*◌, ◌==◌, nat_eq, String, ◌≡◌, refl, ap, sym, List, [], ◌∷◌, ◌++◌, length, Option,
  none, some, Bool-cases, inl, inr, arith,
}
use rpi_io_t_server_project.Base.Exec.{Exec, Result, ok, raised, continue, ◌>>◌}
use rpi_io_t_server_project.Hwpx.{Chunk, Plan, paragraph, framed}
use rpi_io_t_server_project.Hwpx.Helpers.{
  next_pid, next_tid, append, line, code_line, code_lines, code_block, kv, col_widths, build_row,
  build_rows, table,
}
use rpi_io_t_server_project.Hwpx.Helpers
use rpi_io_t_server_project.Hwpx.Call.{Call, perform, perform_all}
use rpi_io_t_server_project.Hwpx.Tables.{table-IsFramed}
use rpi_io_t_server_project.Hwpx.Rows.{count_from, count_from-add, cell_ids}

-- A table is in a paragraph of its own, which comes first.
unfoldable pub chunk_ids : Chunk → List ℕ
chunk_ids (paragraph id para_ref char_ref text) = id ∷ []
chunk_ids (framed wrap_id tbl_id n_rows n_cols total_h rows) = wrap_id ∷ cell_ids rows

unfoldable pub ids : List Chunk → List ℕ
ids [] = []
ids (c ∷ chunks) = chunk_ids c ++ ids chunks

append_assoc : {A : Type 0} (xs ys zs : List A) → (xs ++ ys) ++ zs ≡ xs ++ (ys ++ zs)
append_assoc [] ys zs = refl
append_assoc (x ∷ xs) ys zs = ap (λ l. x ∷ l) (append_assoc xs ys zs)

append_nil : {A : Type 0} (xs : List A) → xs ++ [] ≡ xs
append_nil [] = refl
append_nil (x ∷ xs) = ap (λ l. x ∷ l) (append_nil xs)

ids-append : (chunks : List Chunk) (c : Chunk) → ids (chunks ++ c ∷ []) ≡ ids chunks ++ chunk_ids c
unfolding ids
ids-append [] c = append_nil (chunk_ids c)
ids-append (d ∷ chunks) c =
    rw (ids-append chunks c, append_assoc (chunk_ids d) (ids chunks) (chunk_ids c))

-- What a call adds: so many ids, each the next number.
record Extends (s after : Plan) : Type 0 where
  size : ℕ
  counted : after.pid ≡ s.pid + size
  numbered : ids after.paragraphs ≡ ids s.paragraphs ++ count_from s.pid size

Extends-trans : {s t u : Plan} → Extends s t → Extends t u → Extends s u
Extends-trans {s} {t} {u} h k = record {
  size = h.size + k.size;
  counted = ground (arith, h.counted, k.counted);
  numbered = ground (
    arith,
    h.counted,
    h.numbered,
    k.numbered,
    count_from-add s.pid h.size k.size,
    append_assoc (ids s.paragraphs) (count_from s.pid h.size) (count_from (s.pid + h.size) k.size),
  );
}

Extends-none : (s : Plan) → Extends s s
unfolding count_from
Extends-none s = record {
  size = 0;
  counted = omega arith;
  numbered = sym (append_nil (ids s.paragraphs));
}

line-Extends :
    (para_ref char_ref : ℕ) (text : Option String) (s : Plan)
    → Extends s (line para_ref char_ref text s).1
unfolding line next_pid append count_from chunk_ids
line-Extends para_ref char_ref text s = record {
  size = 1;
  counted = refl;
  numbered = ids-append s.paragraphs (paragraph s.pid para_ref char_ref text);
}

-- Code that adds ids in this way when it ends well.
record IsNumbering (m : Exec Plan (Unit {0})) : Type 0 where
  at : (s : Plan) → (m s).0 ≡ ok tt → Extends s (m s).1

then-Extends :
    (r : Result (Unit {0})) (s t : Plan) (n : Exec Plan (Unit {0}))
    → (r ≡ ok tt → Extends s t)
    → IsNumbering n
    → (continue r (λ _. n) t).0 ≡ ok tt
    → Extends s (continue r (λ _. n) t).1
then-Extends (ok tt) s t n h k e = Extends-trans (h refl) (k.at t e)
then-Extends (raised x) s t n h k e = absurd (ground arith)

IsNumbering-then :
    (m n : Exec Plan (Unit {0})) → IsNumbering m → IsNumbering n → IsNumbering (m >> n)
IsNumbering-then m n h k = record { at = λ s. then-Extends (m s).0 s (m s).1 n (h.at s) k }

line-IsNumbering :
    (para_ref char_ref : ℕ) (text : Option String) → IsNumbering (line para_ref char_ref text)
line-IsNumbering para_ref char_ref text = record {
  at = λ s e. line-Extends para_ref char_ref text s;
}

code_line-IsNumbering : (s : String) → IsNumbering (code_line s)
unfolding code_line
code_line-IsNumbering s = elim (Bool-cases (Helpers.is_blank s)) [
  | inl empty ↦ rw empty (line-IsNumbering 25 11 none)
  | inr full ↦ rw full (line-IsNumbering 25 11 (some s))
]

code_lines-IsNumbering : (lines : List String) → IsNumbering (code_lines lines)
unfolding code_lines
code_lines-IsNumbering [] = record { at = λ s e. Extends-none s }
code_lines-IsNumbering (s ∷ rest) =
    IsNumbering-then (code_line s) (code_lines rest) (code_line-IsNumbering s)
      (code_lines-IsNumbering rest)

kv-IsNumbering : (key value : String) (level : ℕ) → IsNumbering (kv key value level)
unfolding kv Helpers.p
kv-IsNumbering key value level = elim (Bool-cases (level == 1)) [
  | inl one ↦ rw one (line-IsNumbering 24 0 _)
  | inr n1 ↦ elim (Bool-cases (level == 2)) [
    | inl two ↦ rw (n1, two) (line-IsNumbering 25 0 _)
    | inr n2 ↦ elim (Bool-cases (level == 3)) [
      | inl three ↦ rw (n1, n2, three) (line-IsNumbering 26 0 _)
      | inr n3 ↦ rw (n1, n2, n3) (record { at = λ s e. absurd (ground arith) })
    ]
  ]
]

module _ (even : ℕ → ℕ) where
  table-IsNumbering :
      (headers : List String) (rows : List (List String)) (pcts : Option (List ℕ))
      → IsNumbering (table even headers rows pcts)
  unfolding chunk_ids cell_ids count_from
  table-IsNumbering headers rows pcts = record {
    at = λ s e.
        let f = table-IsFramed even headers rows pcts s e in
        let started : Plan = record s { pid = s.pid + 1; tid = s.tid + 1 } in
        record {
          size = suc (length headers + f.rest.size);
          counted = ground (arith, f.pid, f.rest.counted, f.top.counted);
          numbered = ground (
            arith,
            f.paragraphs,
            ids-append s.paragraphs (
                framed s.pid s.tid (length rows + 1) (length headers) (2400 * (length rows + 1))
                  (f.header ∷ f.body)),
            f.top.numbered,
            f.rest.numbered,
            f.top.counted,
            count_from-add (s.pid + 1) (length headers) f.rest.size,
          );
        };
  }

  perform-IsNumbering : (c : Call) → IsNumbering (perform even c)
  unfolding perform Helpers.p Helpers.blank Helpers.title_main Helpers.chapter Helpers.level1
      Helpers.level2 Helpers.level3 Helpers.note Helpers.section code_block
  perform-IsNumbering (Call.para text para_ref char_ref) =
      line-IsNumbering para_ref char_ref (some text)
  perform-IsNumbering Call.blank = line-IsNumbering 0 0 none
  perform-IsNumbering (Call.title_main text) = line-IsNumbering 20 12 (some text)
  perform-IsNumbering (Call.chapter text) = line-IsNumbering 27 13 (some text)
  perform-IsNumbering (Call.l1 text) = line-IsNumbering 24 0 _
  perform-IsNumbering (Call.l2 text) = line-IsNumbering 25 0 _
  perform-IsNumbering (Call.l3 text) = line-IsNumbering 26 0 _
  perform-IsNumbering (Call.note text) = line-IsNumbering 24 11 _
  perform-IsNumbering (Call.code_block text) = code_lines-IsNumbering _
  perform-IsNumbering (Call.section num text) = line-IsNumbering 24 9 _
  perform-IsNumbering (Call.kv key value level) = kv-IsNumbering key value level
  perform-IsNumbering (Call.table headers rows pcts) = table-IsNumbering headers rows pcts

  all-IsNumbering : (calls : List Call) → IsNumbering (perform_all even calls)
  unfolding perform_all
  all-IsNumbering [] = record { at = λ s e. Extends-none s }
  all-IsNumbering (c ∷ calls) =
      IsNumbering-then (perform even c) (perform_all even calls) (perform-IsNumbering c)
        (all-IsNumbering calls)

  -- If a list of calls of the document's helpers ends without an exception, the ids of the
  -- paragraphs, tables' paragraphs and cells that it adds are, in the order of the document,
  -- consecutive numbers from the counter on, and the counter stands behind the last of them.
  pub perform_all-count_from :
      (calls : List Call) (s : Plan)
      → (perform_all even calls s).0 ≡ ok tt
      → let after = (perform_all even calls s).1 in
        (n : ℕ) × (after.pid ≡ s.pid + n)
        × (ids after.paragraphs ≡ ids s.paragraphs ++ count_from s.pid n)
  perform_all-count_from calls s e =
      let x = (all-IsNumbering calls).at s e in (x.size, x.counted, x.numbered)
