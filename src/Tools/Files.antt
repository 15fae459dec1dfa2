-- ===== src/Tools/Files.antt =====
-- app/tools/file_tool.py: `FileTool`, with `is_path_allowed` of app/tools/security.py.
pub mod Disk
pub mod Formats
pub mod Confined
mod Tests
use ochestrate.Base.{
  ℕ, ◌*◌, Bool, true, false, ◌&&◌, ◌||◌, not, Option, none, some, List, [], ◌∷◌, ◌++◌, ◌==◌, any,
  map, keep, drop, ltb, if◌then◌else◌,
}
use ochestrate.Text.{Text, text_eq, codes, is_empty, strip, join}
use ochestrate.Dict.{lookup}
use ochestrate.Schemas.{Value, Values, Params, Fields, nil, cons, end}
use ochestrate.Tools.Hub.{Tool, Result, ok, raised, permission, failure}
use ochestrate.Tools.Values.{or_next, given_or, text_or, text_or_empty, text_of}
use ochestrate.Tools.Raising
use ochestrate.Tools.Acting.{Act, ◌>>=◌, looks, give, raise}
use ochestrate.Tools.Files.Disk.{FilePath, FileSystem}
use ochestrate.Tools.Files.Formats.{read_by_suffix, write_file}

-- the fields of `ToolSecurityConfig` that are about files
pub record FilePolicy : Type 0 where
  pub allowed_directories : List FilePath
  pub max_file_size_mb : ℕ

-- whether `path.relative_to(directory)` returns
unfoldable pub is_relative_to : FilePath → FilePath → Bool
is_relative_to path [] = true
is_relative_to [] (d ∷ ds) = false
is_relative_to (p ∷ ps) (d ∷ ds) = (p == d) && is_relative_to ps ds

abbrev pub texts_to_values : List Text → Values
texts_to_values [] = nil
texts_to_values (t ∷ ts) = cons (Value.str t) (texts_to_values ts)

-- `params.get("content")`
abbrev pub or_null : Option Value → Value
or_null none = Value.null
or_null (some v) = v

module _ {W : Type 0} (fs : FileSystem W) where
  -- `str(params.get("resource_path") or params.get("path") or "").strip()`
  abbrev pub path_value : Params → Text
  path_value params = strip (
      text_or_empty fs.show_value
        (or_next (lookup (codes "resource_path") params) (lookup (codes "path") params)))

  module _ (policy : FilePolicy) where
    -- `ToolSecurityConfig.is_path_allowed`
    unfoldable pub is_path_allowed : FilePath → W → Bool
    is_path_allowed target w =
        any (λ d. is_relative_to (fs.resolve target w) d) policy.allowed_directories

    -- `FileTool._guard_file_size`
    unfoldable pub guard_file_size : FilePath → W → Result (Unit {0})
    guard_file_size target w =
        if not (fs.exists target w)
        then raised (failure (fs.show_path target))
        else if ltb (policy.max_file_size_mb * 1024 * 1024) (fs.size target w)
        then raised (failure (codes "file exceeds max size limit"))
        else ok tt

    -- `FileTool._read_file`
    unfoldable pub read_file : FilePath → Act W Params
    unfolding guard_file_size
    read_file target = looks (guard_file_size target) >>= λ _. read_by_suffix fs target

    unfoldable pub list_directory : FilePath → W → Result Params
    list_directory target w =
        if not (fs.exists target w) || not (fs.is_dir target w)
        then raised (failure (codes "list operation requires an existing directory path"))
        else (Raising.◌>>=◌ (fs.names target w) (λ entries. ok (
            (codes "operation", Value.str (codes "list"))
            ∷ (codes "path", Value.str (fs.show_path target))
            ∷ (codes "entries", Value.arr (texts_to_values entries))
            ∷ [])))

    unfoldable pub operate : Text → FilePath → Value → Act W Params
    unfolding list_directory
    operate operation target content =
        if operation == codes "list"
        then looks (list_directory target)
        else if operation == codes "read"
        then read_file target
        else if operation == codes "write"
        then write_file fs target content
        else raise (failure (codes "unsupported operation"))

    unfoldable pub operate_if_allowed : Text → FilePath → Value → Act W Params
    operate_if_allowed operation target content w =
        if is_path_allowed target w
        then operate operation target content w
        else (raised (permission (codes "path is outside allowed directories")), w)

    -- `FileTool.run`
    unfoldable pub run_file : Params → Act W Params
    unfolding operate_if_allowed
    run_file params w =
        let operation =
          fs.lower (text_or fs.show_value (codes "read") (lookup (codes "operation") params)) in
        if is_empty (path_value params)
        then (raised (failure (codes "resource_path is required for file tool")), w)
        else operate_if_allowed operation (fs.locate (path_value params) w)
            (or_null (lookup (codes "content") params)) w

    -- `FileTool`
    abbrev pub file_tool : Tool W
    file_tool = record {
      name = codes "file_tool";
      description = codes "Read, write, and list files including json/doc/docx/xlsx/pdf/txt/csv.";
      required_roles = codes "employee" ∷ codes "manager" ∷ codes "admin" ∷ [];
      idempotent = false;
      run = run_file;
    }
