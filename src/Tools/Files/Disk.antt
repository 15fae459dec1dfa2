-- ===== src/Tools/Files/Disk.antt =====
-- The disk as app/tools/file_tool.py sees it. A path is the list of its parts. pathlib, json,
-- python-docx, pandas, pypdf and soffice are the fields of `FileSystem`; what they find depends on the
-- world, and writing acts on it.
use ochestrate.Base.{ℕ, Bool, List}
use ochestrate.Text.{Text, text_eq}
use ochestrate.Schemas.{Value, Values}
use ochestrate.Tools.Hub.{Result}
use ochestrate.Tools.Acting.{Act}

abbrev pub FilePath : Type 0
FilePath = List Text

-- how the conversion of a `.doc` file ended, with the paragraphs of what came out
pub data Conversion : Type 0 where
  no_program no_output : Conversion
  failed : Text → Conversion
  converted : List Text → Conversion

pub record FileSystem (W : Type 0) : Type 0 where
  pub lower : Text → Text
  pub show_value : Value → Text
  pub show_path : FilePath → Text
  pub suffix : FilePath → Text
  -- `(workspace / Path(value)).resolve()` and `path.resolve()`
  pub locate : Text → W → FilePath
  pub resolve : FilePath → W → FilePath
  pub exists : FilePath → W → Bool
  pub is_dir : FilePath → W → Bool
  pub size : FilePath → W → ℕ
  pub names : FilePath → W → Result (List Text)
  pub read_json : FilePath → W → Result Value
  pub read_text : FilePath → W → Result Text
  pub read_docx : FilePath → W → Result (List Text)
  pub read_excel : FilePath → W → Result Value
  pub read_pdf : FilePath → W → Result (List Text)
  pub convert_doc : FilePath → W → Conversion × W
  -- `path.parent.mkdir(parents=True, exist_ok=True)`, and the writers
  pub make_parent : FilePath → Act W (Unit {0})
  pub write_text : FilePath → Text → Act W (Unit {0})
  pub write_docx : FilePath → List Text → Act W (Unit {0})
  pub write_excel : FilePath → Values → Act W (Unit {0})
  pub dumps : Value → Text
  pub dumps_indented : Value → Text
