-- ===== src/Tools/Files/Tests.antt =====
-- On app/tools/file_tool.py: a disk that notes what is written, below the directory `data`.
use ochestrate.Base.{◌≡◌, ◌⊎◌, refl, true, false, List, [], ◌∷◌, ◌++◌, ◌==◌, text_beq}
use ochestrate.Text.{Text, text_eq, codes, strip}
use ochestrate.Dict.{lookup}
use ochestrate.Schemas.{Value, Params}
use ochestrate.Tools.Hub.{ok, raised, permission}
use ochestrate.Tools.Values.{text_of}
use ochestrate.Tools.Files.Disk.{FilePath, FileSystem, no_program}
use ochestrate.Tools.Files.Formats.{write_file, write_by_suffix}
use ochestrate.Tools.Files.{
  FilePolicy, run_file, path_value, is_relative_to, is_path_allowed, operate,
}
use ochestrate.Tools.Files.Confined.{Within, Touched, run_file-Confined}

-- the path `..` leads out of the directory, and every other to the file of that name
abbrev place : Text → FilePath
place name = elim (name == codes "..") [
  | true ↦ codes "etc" ∷ []
  | false ↦ codes "data" ∷ name ∷ []
]

abbrev disk : FileSystem (List FilePath)
disk = record {
  lower = λ t. t;
  show_value = λ v. [];
  show_path = λ p. [];
  suffix = λ p. codes ".txt";
  locate = λ t w. place t;
  resolve = λ p w. p;
  exists = λ p w. true;
  is_dir = λ p w. false;
  size = λ p w. 0;
  names = λ p w. ok [];
  read_json = λ p w. ok Value.null;
  read_text = λ p w. ok [];
  read_docx = λ p w. ok [];
  read_excel = λ p w. ok Value.null;
  read_pdf = λ p w. ok [];
  convert_doc = λ p w. (no_program, w);
  make_parent = λ p w. (ok tt, w);
  write_text = λ p t w. (ok tt, w ++ p ∷ []);
  write_docx = λ p ls w. (ok tt, w ++ p ∷ []);
  write_excel = λ p rows w. (ok tt, w ++ p ∷ []);
  dumps = λ v. [];
  dumps_indented = λ v. [];
}

abbrev policy : FilePolicy
policy = record { allowed_directories = (codes "data" ∷ []) ∷ []; max_file_size_mb = 10 }

abbrev write_to : Text → Params
write_to name =
    (codes "operation", Value.str (codes "write"))
    ∷ (codes "path", Value.str name)
    ∷ (codes "content", Value.str (codes "x"))
    ∷ []

writes_inside :
    (run_file disk policy (write_to (codes "a")) []).1 ≡ (codes "data" ∷ codes "a" ∷ []) ∷ []
unfolding run_file operate write_file write_by_suffix is_path_allowed is_relative_to lookup text_beq
    text_of strip
writes_inside = refl

refuses_outside :
    run_file disk policy (write_to (codes "..")) []
    ≡ (raised (permission (codes "path is outside allowed directories")), [])
unfolding run_file is_path_allowed is_relative_to lookup text_beq text_of strip
refuses_outside = refl

run_file-Confined_example :
    let target = disk.locate (path_value disk (write_to (codes "a"))) [] in
    ((run_file disk policy (write_to (codes "a")) []).1 ≡ [])
    ⊎ (Within disk policy target []
        × Touched disk target [] ((run_file disk policy (write_to (codes "a")) []).1))
run_file-Confined_example = run_file-Confined disk policy (write_to (codes "a")) []
