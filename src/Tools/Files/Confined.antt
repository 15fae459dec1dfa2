-- ===== src/Tools/Files/Confined.antt =====
-- On app/tools/file_tool.py: which files `FileTool` touches.
use ochestrate.Base.{
  ◌≡◌, ◌⊎◌, inl, inr, refl, sym, ap, ◌∙◌, arith, true, ◌&&◌, ◌||◌, ◌==◌, Bool-cases, List, [], ◌∷◌,
  ◌++◌, text_beq_iff,
}
use ochestrate.Text.{Text, text_eq, codes, is_empty}
use ochestrate.Schemas.{Value, Values, Params}
use ochestrate.Tools.Acting.{continue-kept, if-kept, looks}
use ochestrate.Tools.Security.Admission.{Among, any-Among}
use ochestrate.Tools.Files.Disk.{FilePath, FileSystem}
use ochestrate.Tools.Files.Formats.{
  is_suffix, read_doc_via_conversion, read_by_suffix, write_by_suffix, write_file,
}
use ochestrate.Tools.Files.{
  FilePolicy, is_relative_to, is_path_allowed, guard_file_size, read_file, operate,
  operate_if_allowed, path_value, run_file,
}

is_relative_to-parts :
    (path directory : FilePath)
    → is_relative_to path directory ≡ true
    → (rest : FilePath) × (path ≡ directory ++ rest)
unfolding is_relative_to
is_relative_to-parts path [] h = (path, refl)
is_relative_to-parts [] (d ∷ ds) h = absurd cc
is_relative_to-parts (p ∷ ps) (d ∷ ds) h = elim (Bool-cases (p == d)) [
  | inl same ↦
      let (rest, e) =
        is_relative_to-parts ps ds (sym (ap (λ b. b && is_relative_to ps ds) same) ∙ h) in
      (rest, ap (λ x. x ∷ ps) ((text_beq_iff p d).0 same) ∙ ap (λ xs. d ∷ xs) e)
  | inr other ↦ absurd (ground arith)
]

module _ {W : Type 0} (fs : FileSystem W) where
  -- what one call of the tool does to the world, all of it at one path
  pub data Touched (target : FilePath) : W → W → Type 0 where
    done : {w : W} → Touched target w w
    made_parent : {w w' : W} → Touched target ((fs.make_parent target w).1) w' → Touched target w w'
    wrote_text :
        {w w' : W} (t : Text)
        → Touched target ((fs.write_text target t w).1) w'
        → Touched target w w'
    wrote_docx :
        {w w' : W} (ls : List Text)
        → Touched target ((fs.write_docx target ls w).1) w'
        → Touched target w w'
    wrote_excel :
        {w w' : W} (rows : Values)
        → Touched target ((fs.write_excel target rows w).1) w'
        → Touched target w w'
    converted_doc :
        {w w' : W} → Touched target ((fs.convert_doc target w).1) w' → Touched target w w'

  module _ (target : FilePath) where
    read-Touched : (w : W) → Touched target w ((read_by_suffix fs target w).1)
    unfolding read_by_suffix read_doc_via_conversion
    read-Touched w =
        let P = Touched target w in
        if-kept P (is_suffix fs target (codes ".json")) _ _ w
          (continue-kept P (looks (fs.read_json target) w) _ done (λ _ _. done))
          (if-kept P (is_suffix fs target (codes ".txt") || is_suffix fs target (codes ".csv")) _ _
            w (continue-kept P (looks (fs.read_text target) w) _ done (λ _ _. done))
            (if-kept P (is_suffix fs target (codes ".docx")) _ _ w
              (continue-kept P (looks (fs.read_docx target) w) _ done (λ _ _. done))
              (if-kept P (is_suffix fs target (codes ".doc")) _ _ w
                (continue-kept P (read_doc_via_conversion fs target w) _ (converted_doc done)
                  (λ _ _. converted_doc done))
                (if-kept P
                  (is_suffix fs target (codes ".xlsx") || is_suffix fs target (codes ".xls")) _ _ w
                  (continue-kept P (looks (fs.read_excel target) w) _ done (λ _ _. done))
                  (if-kept P (is_suffix fs target (codes ".pdf")) _ _ w
                    (continue-kept P (looks (fs.read_pdf target) w) _ done (λ _ _. done)) done)))))

    write-Touched :
        (content : Value) (w : W) → Touched target w ((write_by_suffix fs target content w).1)
    unfolding write_by_suffix
    write-Touched content w =
        let P = Touched target w in
        if-kept P (is_suffix fs target (codes ".json")) _ _ w
          (continue-kept P (fs.write_text target _ w) _ (wrote_text _ done)
            (λ _ _. wrote_text _ done))
          (if-kept P (is_suffix fs target (codes ".txt") || is_suffix fs target (codes ".csv")) _ _
            w
            (continue-kept P (fs.write_text target _ w) _ (wrote_text _ done)
              (λ _ _. wrote_text _ done))
            (if-kept P (is_suffix fs target (codes ".docx")) _ _ w
              (continue-kept P (fs.write_docx target _ w) _ (wrote_docx _ done)
                (λ _ _. wrote_docx _ done))
              (if-kept P (is_suffix fs target (codes ".doc")) _ _ w done (
                if-kept P
                  (is_suffix fs target (codes ".xlsx") || is_suffix fs target (codes ".xls")) _ _ w
                  (continue-kept P (fs.write_excel target _ w) _ (wrote_excel _ done)
                    (λ _ _. wrote_excel _ done))
                  (if-kept P (is_suffix fs target (codes ".pdf")) _ _ w done done)))))

  module _ (policy : FilePolicy) where
    -- the path resolves to one of the allowed directories, or to a place below one
    abbrev pub Within : FilePath → W → Type 0
    Within target w =
        Among (λ d. (rest : FilePath) × (fs.resolve target w ≡ d ++ rest))
          policy.allowed_directories

    operate-Touched :
        (operation : Text) (target : FilePath) (content : Value) (w : W)
        → Touched target w ((operate fs policy operation target content w).1)
    unfolding operate read_file write_file
    operate-Touched operation target content w =
        let P = Touched target w in
        if-kept P (operation == codes "list") _ _ w done (
          if-kept P (operation == codes "read") _ _ w
            (continue-kept P (looks (guard_file_size fs policy target) w) _ done
              (λ _ _. read-Touched target w))
            (if-kept P (operation == codes "write") _ _ w
              (continue-kept P (fs.make_parent target w) _ (made_parent done)
                (λ _ _. made_parent (write-Touched target content ((fs.make_parent target w).1))))
              done))

    -- A run of the file tool leaves the world alone, or all that it does is done at the path that
    -- the call names, which then resolves to an allowed directory or to a place below one: its
    -- parent is made, it is written, or it is converted.
    pub run_file-Confined :
        (params : Params) (w : W)
        → let target = fs.locate (path_value fs params) w in
          ((run_file fs policy params w).1 ≡ w)
          ⊎ (Within target w × Touched target w ((run_file fs policy params w).1))
    unfolding run_file operate_if_allowed is_path_allowed
    run_file-Confined params w =
        let target = fs.locate (path_value fs params) w in
        elim (Bool-cases (is_empty (path_value fs params))) [
          | inl empty ↦ rw (empty) (inl refl)
          | inr given ↦ elim (Bool-cases (is_path_allowed fs policy target w)) [
            | inr refused ↦ rw (given, refused) (inl refl)
            | inl allowed ↦
                rw (given, allowed)
                  (inr (
                    any-Among (is_relative_to (fs.resolve target w)) _
                        (is_relative_to-parts (fs.resolve target w)) policy.allowed_directories
                        allowed,
                    operate-Touched _ target _ w,
                  ))
          ]
        ]
