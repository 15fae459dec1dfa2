-- ===== src/Auth/Service/Access.antt =====
-- On app/auth/service.py: the two kinds of token are kept apart, and an access token says who it
-- was issued to.
use ochestrate.Base.{ℕ, ◌+◌, ◌*◌, ◌<◌, ◌≡◌, some, text_beq}
use ochestrate.Text.{Text, codes, text_eq}
use ochestrate.Dict.{lookup}
use ochestrate.Auth.Repository.{AuthRepository, UserRecord}
use ochestrate.Auth.Service.Data.{Library, Settings, ok, denied}
use ochestrate.Auth.Service.{
  access_claims, refresh_claims, issue_tokens, decode_access_token, check_refresh, refresh, is_kind,
  text_claim,
}

module _ (lib : Library) (settings : Settings) (now : ℕ) (token_id session_id : Text)
    (user : UserRecord) (s : AuthRepository) (later : ℕ)
    (access_reads : later < now + settings.access_ttl * 60
      → lib.decode later
          (lib.encode (access_claims lib user session_id (now + settings.access_ttl * 60)))
        ≡ some (access_claims lib user session_id (now + settings.access_ttl * 60)))
    (refresh_reads : later < now + settings.refresh_ttl * 86400
      → lib.decode later (
          lib.encode
            (refresh_claims lib user session_id token_id (now + settings.refresh_ttl * 86400)))
        ≡ some (refresh_claims lib user session_id token_id (now + settings.refresh_ttl * 86400)))
    (access_valid : later < now + settings.access_ttl * 60)
    (refresh_valid : later < now + settings.refresh_ttl * 86400) where
  access_decodes :
      lib.decode later
        (lib.encode (access_claims lib user session_id (now + settings.access_ttl * 60)))
      ≡ some (access_claims lib user session_id (now + settings.access_ttl * 60))
  access_decodes = access_reads access_valid

  refresh_decodes :
      lib.decode later (
        lib.encode
          (refresh_claims lib user session_id token_id (now + settings.refresh_ttl * 86400)))
      ≡ some (refresh_claims lib user session_id token_id (now + settings.refresh_ttl * 86400))
  refresh_decodes = refresh_reads refresh_valid

  -- Before they expire, and where what is signed is read back until then: the access token that is
  -- issued to a user is read back as that user, the role and the session included; the refresh
  -- token is no access token, and the access token is no refresh token.
  pub tokens_kept_apart :
      let (response, s') = issue_tokens lib settings now token_id user session_id s in
      (decode_access_token lib later response.access_token
        ≡ ok (record {
          tenant_id = user.tenant_id;
          user_id = user.user_id;
          role = user.role;
          session_id = session_id;
          token_exp = now + settings.access_ttl * 60;
        }))
      × (decode_access_token lib later response.refresh_token ≡ denied (codes "invalid token type"))
      × ((other_id : Text)
          → refresh lib settings later other_id response.access_token s'
            ≡ (denied (codes "invalid refresh token type"), s'))
  unfolding issue_tokens decode_access_token refresh check_refresh is_kind text_claim lookup
      text_beq
  tokens_kept_apart = (rw access_decodes, rw refresh_decodes, λ other_id. rw access_decodes)
