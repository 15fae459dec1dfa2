-- ===== src/Tools/Policy/Tests.antt =====
-- On `ToolSecurityConfig.from_file` of app/tools/security.py: tools in a world in which nothing is
-- there but a public host and a database.
use ochestrate.Base.{◌≡◌, ◌⊎◌, refl, false, none, some, [], ◌∷◌, ◌++◌, ℕ, suc, text_beq}
use ochestrate.Text.{text_eq, codes, strip}
use ochestrate.Dict.{lookup}
use ochestrate.Schemas.{Value, Params}
use ochestrate.Tools.Hub.{Result, ok, raised, failure, ToolError}
use ochestrate.Tools.Values.{text_of}
use ochestrate.Tools.Database
use ochestrate.Tools.Database.{run_sql, is_write_sql, keyword}
use ochestrate.Tools.Security.{
  Network, ParsedUrl, host_or_empty, is_url_safe, is_domain_allowed, is_private_host,
  resolved_private, is_internal_text,
}
use ochestrate.Tools.Security.Admission.{Public}
use ochestrate.Tools.Files.Disk.{FilePath, FileSystem, no_program}
use ochestrate.Tools.Files.{run_file, path_value}
use ochestrate.Tools.Files.Confined.{Touched}
use ochestrate.Tools.Policy.{from_file, config_of_keys}
use ochestrate.Tools.Policy.Defaults.{from_file_protects}

abbrev pub nothing {ℓ} : {A : Type ℓ} → Result A
nothing = raised (failure [])

abbrev pub disk : FileSystem ℕ
disk = record {
  lower = λ t. t;
  show_value = λ v. [];
  show_path = λ p. [];
  suffix = λ p. [];
  locate = λ t w. [];
  resolve = λ p w. p;
  exists = λ p w. false;
  is_dir = λ p w. false;
  size = λ p w. 0;
  names = λ p w. nothing;
  read_json = λ p w. nothing;
  read_text = λ p w. nothing;
  read_docx = λ p w. nothing;
  read_excel = λ p w. nothing;
  read_pdf = λ p w. nothing;
  convert_doc = λ p w. (no_program, w);
  make_parent = λ p w. (nothing, w);
  write_text = λ p t w. (nothing, w);
  write_docx = λ p ls w. (nothing, w);
  write_excel = λ p rows w. (nothing, w);
  dumps = λ v. [];
  dumps_indented = λ v. [];
}

abbrev network : Network ℕ
network = record {
  lower = λ t. t;
  urlparse = λ t. ok (record {
    scheme = codes "https";
    netloc = codes "a.example";
    hostname = some (codes "a.example");
    path = [];
    query = [];
  });
  ip_address = λ t. some (record {
    is_private = false;
    is_loopback = false;
    is_link_local = false;
    is_reserved = false;
    is_multicast = false;
  });
  getaddrinfo = λ t w. nothing;
}

abbrev database : Database.Runtime ℕ
database = record {
  show_value = λ v. [];
  lower = λ t. t;
  query = λ sql w. (ok [], w);
  execute = λ sql w. (ok [], suc w);
}

abbrev deletion : Params
deletion = (codes "sql", Value.str (codes "DELETE FROM t")) ∷ []

abbrev writing : Params
writing =
    (codes "operation", Value.str (codes "write")) ∷ (codes "path", Value.str (codes "a")) ∷ []

from_file_protects_example :
    ((parsed : ParsedUrl) × (network.urlparse (codes "https://a.example") ≡ ok parsed)
      × Public network (host_or_empty parsed.hostname) 0)
    × ((e : ToolError) × (run_sql database (from_file disk none 0).database deletion 0
          ≡ (raised e, 0)))
    × (((run_file disk (from_file disk none 0).files writing 0).1 ≡ 0)
        ⊎ (((rest : FilePath) × (disk.resolve (disk.locate (path_value disk writing) 0) 0
                ≡ disk.locate (codes "data") 0 ++ rest))
            × Touched disk
                (disk.locate (path_value disk writing) 0)
                0
                ((run_file disk (from_file disk none 0).files writing 0).1)))
unfolding lookup text_beq is_write_sql keyword text_of strip from_file config_of_keys is_url_safe
    is_domain_allowed is_private_host resolved_private is_internal_text
from_file_protects_example =
    from_file_protects disk network database 0 0 (codes "https://a.example") deletion writing refl
      refl refl
