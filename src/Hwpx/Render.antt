-- ===== src/Hwpx/Render.antt =====
-- The XML texts of build_plan_hwpx.py, and the file that it writes.
use rpi_io_t_server_project.Base.{ℕ, String, ◌<>◌, Option, none, some, List, [], ◌∷◌}
use rpi_io_t_server_project.Base.Exec.{Result, ok, raised}
use rpi_io_t_server_project.Base.Decimal.{nat_text, int_text}
use rpi_io_t_server_project.Hwpx.{Cell, Chunk, Plan, paragraph, framed, empty_plan}
use rpi_io_t_server_project.Hwpx.Escape.{escape}
use rpi_io_t_server_project.Hwpx.Call.{perform_all}
use rpi_io_t_server_project.Hwpx.Content.{document}

-- The start of a paragraph, and its end.
para_head : ℕ → ℕ → String
para_head id para_ref =
    "  <hp:p id=\""
    <> (nat_text id
        <> ("\" paraPrIDRef=\""
            <> (nat_text para_ref
                <> "\" styleIDRef=\"0\" pageBreak=\"0\" columnBreak=\"0\" merged=\"0\">\n")))

text_of : Option String → String
text_of none = "<hp:t/>"
text_of (some text) = "<hp:t>" <> (escape text <> "</hp:t>")

run_text : ℕ → Option String → String
unfolding text_of
run_text char_ref text =
    "<hp:run charPrIDRef=\"" <> (nat_text char_ref <> ("\">" <> (text_of text <> "</hp:run>")))

unfoldable pub cell_text : Cell → String
unfolding run_text
cell_text c =
    "        <hp:tc name=\"\" header=\"0\" hasMargin=\"0\" protect=\"0\" editable=\"0\" dirty=\"1\" borderFillIDRef=\""
    <> (nat_text c.border_ref
        <> ("\"><hp:subList id=\"\" textDirection=\"HORIZONTAL\" lineWrap=\"BREAK\" vertAlign=\"CENTER\" linkListIDRef=\"0\" linkListNextIDRef=\"0\" textWidth=\"0\" textHeight=\"0\" hasTextRef=\"0\" hasNumRef=\"0\"><hp:p paraPrIDRef=\""
            <> (nat_text c.para_ref
                <> ("\" styleIDRef=\"0\" pageBreak=\"0\" columnBreak=\"0\" merged=\"0\" id=\""
                    <> (nat_text c.id
                        <> ("\">"
                            <> (run_text c.char_ref (some c.text)
                                <> ("</hp:p></hp:subList><hp:cellAddr colAddr=\""
                                    <> (nat_text c.col_addr
                                        <> ("\" rowAddr=\""
                                            <> (nat_text c.row_addr
                                                <> ("\"/><hp:cellSpan colSpan=\"1\" rowSpan=\"1\"/><hp:cellSz width=\""
                                                    <> (int_text c.width
                                                        <> "\" height=\"2400\"/><hp:cellMargin left=\"141\" right=\"141\" top=\"141\" bottom=\"141\"/></hp:tc>")))))))))))))

cells_text : List Cell → String
cells_text [] = ""
cells_text (c ∷ cells) = cell_text c <> ("\n" <> cells_text cells)

-- The rows, each with a newline behind it.
unfoldable pub rows_text : List (List Cell) → String
unfolding cells_text
rows_text [] = ""
rows_text (r ∷ rows) = "      <hp:tr>\n" <> (cells_text r <> ("      </hp:tr>\n" <> rows_text rows))

unfoldable pub chunk_text : Chunk → String
unfolding para_head run_text rows_text
chunk_text (paragraph id para_ref char_ref text) =
    para_head id para_ref <> ("    " <> (run_text char_ref text <> "\n  </hp:p>\n"))
chunk_text (framed wrap_id tbl_id n_rows n_cols total_h rows) =
    para_head wrap_id 0
    <> ("    <hp:run charPrIDRef=\"0\">\n      <hp:tbl id=\""
        <> (nat_text tbl_id
            <> ("\" zOrder=\"0\" numberingType=\"TABLE\" textWrap=\"TOP_AND_BOTTOM\" textFlow=\"BOTH_SIDES\" lock=\"0\" dropcapstyle=\"None\" pageBreak=\"CELL\" repeatHeader=\"1\" rowCnt=\""
                <> (nat_text n_rows
                    <> ("\" colCnt=\""
                        <> (nat_text n_cols
                            <> ("\" cellSpacing=\"0\" borderFillIDRef=\"3\" noAdjust=\"0\">\n        <hp:sz width=\"42520\" widthRelTo=\"ABSOLUTE\" height=\""
                                <> (nat_text total_h
                                    <> ("\" heightRelTo=\"ABSOLUTE\" protect=\"0\"/>\n        <hp:pos treatAsChar=\"1\" affectLSpacing=\"0\" flowWithText=\"1\" allowOverlap=\"0\" holdAnchorAndSO=\"0\" vertRelTo=\"PARA\" horzRelTo=\"COLUMN\" vertAlign=\"TOP\" horzAlign=\"LEFT\" vertOffset=\"0\" horzOffset=\"0\"/>\n        <hp:outMargin left=\"0\" right=\"0\" top=\"0\" bottom=\"0\"/>\n        <hp:inMargin left=\"141\" right=\"141\" top=\"141\" bottom=\"141\"/>\n"
                                        <> (rows_text rows
                                            <> "      </hp:tbl>\n    </hp:run>\n  </hp:p>\n"))))))))))

chunks_text : List Chunk → String
chunks_text [] = ""
chunks_text (c ∷ chunks) = chunk_text c <> chunks_text chunks

abbrev pub xml_head : String
xml_head =
    "<?xml version='1.0' encoding='UTF-8'?>\n"
    <> ("<hs:sec xmlns:hp=\"http://www.hancom.co.kr/hwpml/2011/paragraph\" xmlns:hs=\"http://www.hancom.co.kr/hwpml/2011/section\" xmlns:ha=\"http://www.hancom.co.kr/hwpml/2011/app\" xmlns:hp10=\"http://www.hancom.co.kr/hwpml/2016/paragraph\" xmlns:hc=\"http://www.hancom.co.kr/hwpml/2011/core\" xmlns:hh=\"http://www.hancom.co.kr/hwpml/2011/head\" xmlns:hhs=\"http://www.hancom.co.kr/hwpml/2011/history\" xmlns:hm=\"http://www.hancom.co.kr/hwpml/2011/master-page\" xmlns:hpf=\"http://www.hancom.co.kr/schema/2011/hpf\" xmlns:dc=\"http://purl.org/dc/elements/1.1/\" xmlns:opf=\"http://www.idpf.org/2007/opf/\" xmlns:ooxmlchart=\"http://www.hancom.co.kr/hwpml/2016/ooxmlchart\" xmlns:hwpunitchar=\"http://www.hancom.co.kr/hwpml/2016/HwpUnitChar\" xmlns:epub=\"http://www.idpf.org/2007/ops\" xmlns:config=\"urn:oasis:names:tc:opendocument:xmlns:config:1.0\">\n")

unfoldable pub sec_first : String
sec_first =
    "  <hp:p id=\"1000000001\" paraPrIDRef=\"0\" styleIDRef=\"0\" pageBreak=\"0\" columnBreak=\"0\" merged=\"0\">\n"
    <> ("    <hp:run charPrIDRef=\"0\">\n"
        <> ("      <hp:secPr id=\"\" textDirection=\"HORIZONTAL\" spaceColumns=\"1134\" tabStop=\"8000\" tabStopVal=\"4000\" tabStopUnit=\"HWPUNIT\" outlineShapeIDRef=\"1\" memoShapeIDRef=\"0\" textVerticalWidthHead=\"0\" masterPageCnt=\"0\">\n"
            <> ("        <hp:grid lineGrid=\"0\" charGrid=\"0\" wonggojiFormat=\"0\"/>\n"
                <> ("        <hp:startNum pageStartsOn=\"BOTH\" page=\"0\" pic=\"0\" tbl=\"0\" equation=\"0\"/>\n"
                    <> ("        <hp:visibility hideFirstHeader=\"0\" hideFirstFooter=\"0\" hideFirstMasterPage=\"0\" border=\"SHOW_ALL\" fill=\"SHOW_ALL\" hideFirstPageNum=\"0\" hideFirstEmptyLine=\"0\" showLineNumber=\"0\"/>\n"
                        <> ("        <hp:lineNumberShape restartType=\"0\" countBy=\"0\" distance=\"0\" startNumber=\"0\"/>\n"
                            <> ("        <hp:pagePr landscape=\"WIDELY\" width=\"59528\" height=\"84186\" gutterType=\"LEFT_ONLY\">\n"
                                <> ("          <hp:margin header=\"4252\" footer=\"4252\" gutter=\"0\" left=\"8504\" right=\"8504\" top=\"5668\" bottom=\"4252\"/>\n"
                                    <> ("        </hp:pagePr>\n"
                                        <> ("        <hp:footNotePr>\n"
                                            <> ("          <hp:autoNumFormat type=\"DIGIT\" userChar=\"\" prefixChar=\"\" suffixChar=\")\" supscript=\"0\"/>\n"
                                                <> ("          <hp:noteLine length=\"-1\" type=\"SOLID\" width=\"0.12 mm\" color=\"#000000\"/>\n"
                                                    <> ("          <hp:noteSpacing betweenNotes=\"283\" belowLine=\"567\" aboveLine=\"850\"/>\n"
                                                        <> ("          <hp:numbering type=\"CONTINUOUS\" newNum=\"1\"/>\n"
                                                            <> ("          <hp:placement place=\"EACH_COLUMN\" beneathText=\"0\"/>\n"
                                                            <> ("        </hp:footNotePr>\n"
                                                            <> ("        <hp:endNotePr>\n"
                                                            <> ("          <hp:autoNumFormat type=\"DIGIT\" userChar=\"\" prefixChar=\"\" suffixChar=\")\" supscript=\"0\"/>\n"
                                                            <> ("          <hp:noteLine length=\"14692344\" type=\"SOLID\" width=\"0.12 mm\" color=\"#000000\"/>\n"
                                                            <> ("          <hp:noteSpacing betweenNotes=\"0\" belowLine=\"567\" aboveLine=\"850\"/>\n"
                                                            <> ("          <hp:numbering type=\"CONTINUOUS\" newNum=\"1\"/>\n"
                                                            <> ("          <hp:placement place=\"END_OF_DOCUMENT\" beneathText=\"0\"/>\n"
                                                            <> ("        </hp:endNotePr>\n"
                                                            <> ("        <hp:pageBorderFill type=\"BOTH\" borderFillIDRef=\"1\" textBorder=\"PAPER\" headerInside=\"0\" footerInside=\"0\" fillArea=\"PAPER\">\n"
                                                            <> ("          <hp:offset left=\"1417\" right=\"1417\" top=\"1417\" bottom=\"1417\"/>\n"
                                                            <> ("        </hp:pageBorderFill>\n"
                                                            <> ("        <hp:pageBorderFill type=\"EVEN\" borderFillIDRef=\"1\" textBorder=\"PAPER\" headerInside=\"0\" footerInside=\"0\" fillArea=\"PAPER\">\n"
                                                            <> ("          <hp:offset left=\"1417\" right=\"1417\" top=\"1417\" bottom=\"1417\"/>\n"
                                                            <> ("        </hp:pageBorderFill>\n"
                                                            <> ("        <hp:pageBorderFill type=\"ODD\" borderFillIDRef=\"1\" textBorder=\"PAPER\" headerInside=\"0\" footerInside=\"0\" fillArea=\"PAPER\">\n"
                                                            <> ("          <hp:offset left=\"1417\" right=\"1417\" top=\"1417\" bottom=\"1417\"/>\n"
                                                            <> ("        </hp:pageBorderFill>\n"
                                                            <> ("      </hp:secPr>\n"
                                                            <> ("      <hp:ctrl>\n"
                                                            <> ("        <hp:colPr id=\"\" type=\"NEWSPAPER\" layout=\"LEFT\" colCount=\"1\" sameSz=\"1\" sameGap=\"0\"/>\n"
                                                            <> ("      </hp:ctrl>\n"
                                                            <> ("    </hp:run>\n"
                                                            <> ("    <hp:run charPrIDRef=\"0\"><hp:t/></hp:run>\n"
                                                            <> ("  </hp:p>\n")))))))))))))))))))))))))))))))))))))))

abbrev pub xml_tail : String
xml_tail = "</hs:sec>\n"

-- `f.write(...)`: the whole file.
unfoldable pub section_file : List Chunk → String
unfolding chunks_text
section_file chunks = xml_head <> (sec_first <> (chunks_text chunks <> xml_tail))

-- The file is written if no exception has ended the script before.
unfoldable pub finish : Result (Unit {0}) × Plan → Result String
finish (ok done, s) = ok (section_file s.paragraphs)
finish (raised e, s) = raised e

-- The script: what it writes, or the exception that ends it.
unfoldable pub script : (ℕ → ℕ) → Result String
script even = finish (perform_all even document empty_plan)
