-- ===== src/Tools/Policy/Defaults.antt =====
-- On `ToolSecurityConfig.from_file` of app/tools/security.py: what protects the tools where no file says
-- otherwise.
use ochestrate.Base.{◌≡◌, ◌⊎◌, refl, true, false, none, ◌++◌, inl, inr}
use ochestrate.Text.{Text, text_eq, codes}
use ochestrate.Dict.{lookup}
use ochestrate.Schemas.{Params}
use ochestrate.Tools.Hub.{raised, ok, ToolError}
use ochestrate.Tools.Values.{truthy_found}
use ochestrate.Tools.Database
use ochestrate.Tools.Database.{sql_of, is_write_sql, run_sql}
use ochestrate.Tools.Database.Guards.{run_sql-unconfirmed}
use ochestrate.Tools.Security.{Network, ParsedUrl, host_or_empty, is_url_safe}
use ochestrate.Tools.Security.Admission.{Public, is_url_safe-Admitted}
use ochestrate.Tools.Files.Disk.{FilePath, FileSystem}
use ochestrate.Tools.Files.{run_file, path_value}
use ochestrate.Tools.Files.Confined.{Touched, run_file-Confined}
use ochestrate.Tools.Policy.{config_of_keys, from_file}

module _ {W : Type 0} (fs : FileSystem W) (n : Network W) (rt : Database.Runtime W) where
  -- Where there is no policy file: a URL that is judged safe parses to a host that is an address
  -- that is not internal, or is a name that resolves, and to no internal address; SQL that counts
  -- as a write and has no `confirm_write` is refused and leaves the database alone; and a run of
  -- the file tool leaves the world alone, or acts at a path that resolves to the directory `data`
  -- of the workspace or to a place below it.
  pub from_file_protects :
      (start w : W) (url : Text) (call file_call : Params)
      → is_url_safe n (from_file fs none start).web url w ≡ ok true
      → is_write_sql (sql_of rt call) ≡ true
      → truthy_found (lookup (codes "confirm_write") call) ≡ false
      → ((parsed : ParsedUrl) × (n.urlparse url ≡ ok parsed)
          × Public n (host_or_empty parsed.hostname) w)
        × ((e : ToolError) × (run_sql rt (from_file fs none start).database call w ≡ (raised e, w)))
        × (((run_file fs (from_file fs none start).files file_call w).1 ≡ w)
            ⊎ (((rest : FilePath) × (fs.resolve (fs.locate (path_value fs file_call) w) w
                    ≡ fs.locate (codes "data") start ++ rest))
                × Touched fs
                    (fs.locate (path_value fs file_call) w)
                    w
                    ((run_file fs (from_file fs none start).files file_call w).1)))
  unfolding from_file config_of_keys
  from_file_protects start w url call file_call safe writes unconfirmed =
      let policy = from_file fs none start in
      let admitted = is_url_safe-Admitted n policy.web url w safe in
      (
        (admitted.parsed, admitted.is_parsed, admitted.is_public refl),
        run_sql-unconfirmed rt policy.database call w refl writes unconfirmed,
        elim (run_file-Confined fs policy.files file_call w) [
          | inl same ↦ inl same
          | inr (within, touched) ↦ elim within [
            | inl here ↦ inr (here, touched)
            | inr nowhere ↦ absurd nowhere
          ]
        ],
      )
