-- ===== src/Api/Gateway/Tests.antt =====
-- On app/api/v1/auth.py: the service of one user, to which the theorems are
-- applied, and a logout that nobody maps.
use mathlib.Core.Path.{subst}
use mathlib.Core.Option.{some-injective}
use ochestrate.Base.{◌≡◌, ◌∙◌, sym, refl, true, some, map, nat_beq, arith, if◌then◌else◌, text_beq}
use ochestrate.Text.{Text, text_eq, codes, starts_with, strip}
use ochestrate.Dict.{lookup}
use ochestrate.Auth.Repository.{AuthRepository, get_user_by_username, pair_beq}
use ochestrate.Auth.Password.{verify_password, split_dollar, from_hex, is_blank, hex_value}
use ochestrate.Auth.Service.{check_login, login, issue_tokens}
use ochestrate.Auth.Service.Tests.{lib, settings, ann, repository, renewed}
use ochestrate.Api.{returned}
use ochestrate.Api.Sessions.{post_login}
use ochestrate.Api.Gateway.{bearer, Signs, Signed, authenticate-post_login}

abbrev lower : Text → Text
lower = map (λ c. if nat_beq c 66 then 98 else c)

lowers : (t : Text) → starts_with (codes "bearer ") (lower (bearer t)) ≡ true
unfolding starts_with
lowers t = refl

Signs-ann : Signs lib lower lowers settings 1 (codes "s1") (codes "j1") 2 ann
unfolding strip text_beq
Signs-ann = record {
  access_reads = λ valid. refl;
  refresh_reads = λ valid. refl;
  access_plain = record { stripped = refl; not_empty = refl };
  refresh_plain = record { stripped = refl; not_empty = refl };
}

ann_found : get_user_by_username (codes "acme") (codes "ann") repository ≡ some ann
unfolding get_user_by_username lookup text_beq pair_beq
ann_found = refl

abbrev signed_in : AuthRepository
signed_in =
    (post_login lib settings 1 (codes "s1") (codes "j1") (codes "acme") (codes "ann") (codes "a")
      repository).1

answered :
    post_login lib settings 1
      (codes "s1")
      (codes "j1")
      (codes "acme")
      (codes "ann")
      (codes "a")
      repository
    ≡ (returned renewed, signed_in)
unfolding post_login login check_login get_user_by_username lookup pair_beq text_beq verify_password
    split_dollar from_hex is_blank hex_value issue_tokens
answered = refl

authenticate-post_login_example :
    Signed lib lower lowers settings 1
      (codes "s1")
      (codes "j1")
      2
      (codes "acme")
      (codes "ann")
      (codes "a")
      repository
      renewed
authenticate-post_login_example =
    authenticate-post_login lib lower lowers settings 1 (codes "s1") (codes "j1") 2 (omega arith)
      (omega arith) (codes "acme") (codes "ann") (codes "a") repository
      (λ user found.
        subst (Signs lib lower lowers settings 1 (codes "s1") (codes "j1") 2)
          (some-injective _ _ (sym ann_found ∙ found)) Signs-ann)
      signed_in renewed answered
