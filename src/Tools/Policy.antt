-- ===== src/Tools/Policy.antt =====
-- `ToolSecurityConfig.from_file` of app/tools/security.py. What the YAML library reads is a record with
-- the keys of the file, each of which may be missing; its numbers are not negative.
pub mod Defaults
pub mod Tests
use ochestrate.Base.{ℕ, Bool, true, Option, none, some, List, [], ◌∷◌, map}
use ochestrate.Text.{Text, codes}
use ochestrate.Schemas.{Value}
use ochestrate.Tools.Values.{truthy, text_or}
use ochestrate.Tools.Database.{DatabasePolicy}
use ochestrate.Tools.Security.{WebPolicy}
use ochestrate.Tools.Files.Disk.{FileSystem}
use ochestrate.Tools.Files.{FilePolicy}

pub record PolicyFile : Type 0 where
  pub allowed_directories : Option (List Text)
  pub allowed_domains : Option (List Text)
  pub allowed_schemes : Option (List Value)
  pub block_private_networks : Option Value
  pub fetch_timeout_seconds : Option ℕ
  pub max_fetch_chars : Option ℕ
  pub max_redirects : Option ℕ
  pub search_provider : Option Value
  pub search_result_limit : Option ℕ
  pub db_write_protection_enabled : Option Value
  pub db_confirm_field : Option Value
  pub db_require_tenant_scope : Option Value
  pub max_file_size_mb : Option ℕ

-- `{}`, where there is no file or it is empty
abbrev pub no_keys : PolicyFile
no_keys = record {
  allowed_directories = none;
  allowed_domains = none;
  allowed_schemes = none;
  block_private_networks = none;
  fetch_timeout_seconds = none;
  max_fetch_chars = none;
  max_redirects = none;
  search_provider = none;
  search_result_limit = none;
  db_write_protection_enabled = none;
  db_confirm_field = none;
  db_require_tenant_scope = none;
  max_file_size_mb = none;
}

-- `ToolSecurityConfig`
pub record ToolSecurityConfig : Type 0 where
  pub files : FilePolicy
  pub web : WebPolicy
  pub database : DatabasePolicy
  pub fetch_timeout_seconds : ℕ

-- `raw.get(key, default)`
abbrev pub given {ℓ} : {A : Type ℓ} → A → Option A → A
given default none = default
given default (some a) = a

-- `bool(raw.get(key, True))`
abbrev pub on_unless : Option Value → Bool
on_unless none = true
on_unless (some v) = truthy v

module _ {W : Type 0} (fs : FileSystem W) where
  -- `str(x).lower()`
  abbrev pub scheme_text : Value → Text
  scheme_text v = fs.lower (text_or fs.show_value [] (some v))

  unfoldable pub config_of_keys : PolicyFile → W → ToolSecurityConfig
  config_of_keys raw w = record {
    files = record {
      allowed_directories =
          map (λ d. fs.locate d w) (given (codes "data" ∷ []) raw.allowed_directories);
      max_file_size_mb = given 10 raw.max_file_size_mb;
    };
    web = record {
      allowed_domains = given (codes "*" ∷ []) raw.allowed_domains;
      allowed_schemes = some (
          map scheme_text (
            given (Value.str (codes "https") ∷ Value.str (codes "http") ∷ []) raw.allowed_schemes));
      block_private_networks = on_unless raw.block_private_networks;
      max_fetch_chars = given 8000 raw.max_fetch_chars;
      max_redirects = given 3 raw.max_redirects;
      search_provider = text_or fs.show_value (codes "duckduckgo") raw.search_provider;
      search_result_limit = given 5 raw.search_result_limit;
    };
    database = record {
      db_write_protection_enabled = on_unless raw.db_write_protection_enabled;
      db_confirm_field = text_or fs.show_value (codes "confirm_write") raw.db_confirm_field;
      db_require_tenant_scope = on_unless raw.db_require_tenant_scope;
    };
    fetch_timeout_seconds = given 10 raw.fetch_timeout_seconds;
  }

  -- `ToolSecurityConfig.from_file`, for what has been read where the path exists
  unfoldable pub from_file : Option PolicyFile → W → ToolSecurityConfig
  unfolding config_of_keys
  from_file read w = config_of_keys (given no_keys read) w
