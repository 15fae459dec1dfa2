-- ===== src/Tools/Files/Formats.antt =====
-- app/tools/file_tool.py: reading and writing by the suffix of a file.
use ochestrate.Base.{Bool, ◌||◌, not, List, [], ◌∷◌, ◌==◌, keep, drop, if◌then◌else◌}
use ochestrate.Text.{Text, text_eq, codes, is_empty, strip, join}
use ochestrate.Schemas.{Value, Values, Params, Fields, nil, cons, end}
use ochestrate.Tools.Hub.{Result, ok, raised, failure}
use ochestrate.Tools.Values.{text_of}
use ochestrate.Tools.Acting.{Act, ◌>>=◌, looks, give, raise}
use ochestrate.Tools.Files.Disk.{
  FilePath, Conversion, no_program, no_output, failed, converted, FileSystem,
}

abbrev pub is_not_blank : Text → Bool
is_not_blank t = not (is_empty (strip t))

-- `"\n".join(p.text for p in doc.paragraphs if p.text.strip())`
abbrev pub paragraphs_text : List Text → Text
paragraphs_text paragraphs = join (codes "\n") (keep is_not_blank paragraphs)

abbrev pub outcome : Text → Text → Text → Text → Value → Params
outcome operation resource_type path key value =
    (codes "operation", Value.str operation)
    ∷ (codes "resource_type", Value.str resource_type)
    ∷ (codes "path", Value.str path)
    ∷ (key, value)
    ∷ []

module _ {W : Type 0} (fs : FileSystem W) where
  unfoldable pub lines_of : Values → List Text
  lines_of = elim [ nil ↦ [] | cons v (vs → rest) ↦ text_of fs.show_value v ∷ rest ]

  -- the paragraphs that are written to a `.docx` file
  unfoldable pub docx_lines : Value → List Text
  unfolding lines_of
  docx_lines (Value.arr vs) = lines_of vs
  docx_lines Value.null = [] ∷ []
  docx_lines v = text_of fs.show_value v ∷ []

  unfoldable pub plain_text : Value → Text
  plain_text (Value.str t) = t
  plain_text v = fs.dumps v

  -- the rows of the frame that is written
  unfoldable pub frame_rows : Value → Values
  frame_rows (Value.arr vs) = vs
  frame_rows (Value.obj fields) = cons (Value.obj fields) nil
  frame_rows v = cons (Value.obj (Fields.field (codes "value") v end)) nil

  unfoldable pub conversion_text : Conversion → Result Text
  conversion_text no_program = raised (failure (codes "'.doc' requires conversion tool"))
  conversion_text (failed message) = raised (failure (codes "failed to convert .doc file"))
  conversion_text no_output =
      raised (failure (codes "doc conversion finished but output file was not produced"))
  conversion_text (converted paragraphs) = ok (paragraphs_text paragraphs)

  -- `FileTool._read_doc_via_conversion`
  unfoldable pub read_doc_via_conversion : FilePath → Act W Text
  unfolding conversion_text
  read_doc_via_conversion source w =
      let (c, w') = fs.convert_doc source w in (conversion_text c, w')

  abbrev pub is_suffix : FilePath → Text → Bool
  is_suffix target s = fs.lower (fs.suffix target) == s

  -- `FileTool._read_file` behind the guard
  unfoldable pub read_by_suffix : FilePath → Act W Params
  unfolding read_doc_via_conversion
  read_by_suffix target =
      let shown = fs.show_path target in
      let read = codes "read" in
      if is_suffix target (codes ".json")
      then (looks (fs.read_json target) >>= λ data'.
          give (outcome read (codes "json") shown (codes "data") data'))
      else if is_suffix target (codes ".txt") || is_suffix target (codes ".csv")
      then (looks (fs.read_text target) >>= λ text. give (
          outcome read (drop 1 (fs.lower (fs.suffix target))) shown (codes "text")
            (Value.str text)))
      else if is_suffix target (codes ".docx")
      then (looks (fs.read_docx target) >>= λ ps.
          give (outcome read (codes "docx") shown (codes "text") (Value.str (paragraphs_text ps))))
      else if is_suffix target (codes ".doc")
      then (read_doc_via_conversion target >>= λ text.
          give (outcome read (codes "doc") shown (codes "text") (Value.str text)))
      else if is_suffix target (codes ".xlsx") || is_suffix target (codes ".xls")
      then (looks (fs.read_excel target) >>= λ rows.
          give (outcome read (codes "excel") shown (codes "rows") rows))
      else if is_suffix target (codes ".pdf")
      then (looks (fs.read_pdf target) >>= λ pages.
          give
            (outcome read (codes "pdf") shown (codes "text") (Value.str (join (codes "\n") pages))))
      else raise (failure (codes "unsupported file extension"))

  abbrev pub written : FilePath → Text → Act W Params
  written target resource_type = give (
      outcome (codes "write") resource_type (fs.show_path target) (codes "status")
        (Value.str (codes "ok")))

  unfoldable pub write_by_suffix : FilePath → Value → Act W Params
  write_by_suffix target content =
      if is_suffix target (codes ".json")
      then (fs.write_text target (fs.dumps_indented content) >>= λ _. written target (codes "json"))
      else if is_suffix target (codes ".txt") || is_suffix target (codes ".csv")
      then (fs.write_text target (plain_text content) >>= λ _.
          written target (drop 1 (fs.lower (fs.suffix target))))
      else if is_suffix target (codes ".docx")
      then (fs.write_docx target (docx_lines content) >>= λ _. written target (codes "docx"))
      else if is_suffix target (codes ".doc")
      then raise (failure (codes "writing '.doc' is not supported; write .docx instead"))
      else if is_suffix target (codes ".xlsx") || is_suffix target (codes ".xls")
      then (fs.write_excel target (frame_rows content) >>= λ _. written target (codes "excel"))
      else if is_suffix target (codes ".pdf")
      then raise (failure (codes "pdf write is not supported; export to txt or json"))
      else raise (failure (codes "unsupported file extension"))

  -- `FileTool._write_file`
  unfoldable pub write_file : FilePath → Value → Act W Params
  write_file target content = fs.make_parent target >>= λ _. write_by_suffix target content
