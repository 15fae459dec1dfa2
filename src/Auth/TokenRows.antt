-- ===== src/Auth/TokenRows.antt =====
-- On the refresh tokens of app/storage/repositories/auth_repo.py: the table of tokens under the
-- operations of the database mode, beside the dict of the memory mode.
use mathlib.Core.List.{map-append}
use ochestrate.Base.{
  ap, sym, ◌∙◌, ◌≡◌, refl, Option, none, some, ℕ, Bool, true, false, not, [], ◌∷◌, ◌++◌, map, keep,
  ◌==◌, inl, inr, Option-cases, Bool-cases, leb,
}
use ochestrate.Text.{Text, text_eq}
use ochestrate.Dict.{Dict, lookup}
use ochestrate.Storage.Rows.{
  first, map_option, first-map, any-none, keep-map, change_found, change_first-map, change_first,
}
use ochestrate.Storage.Keyed.{lookup-entries, insert_new, insert_old}
use ochestrate.Storage.Table.{Stored, Table, test, assign, IsLawful}
use ochestrate.Auth.Repository.{
  RefreshRow, AuthRepository, store_refresh_token, get_refresh_token, revoke_found,
  revoke_refresh_token, drop_expired, cleanup_expired_refresh_tokens,
}
use ochestrate.Auth.Database.{
  TokenRow, names_token, fits_token, same_token, set_revoked, token_fields, token_row,
  store_refresh_token_in, get_refresh_token_in, revoke_row, revoke_refresh_token_in,
  cleanup_expired_in,
}

-- the entry of the memory mode for a row
abbrev entry_of : Stored TokenRow → Text × RefreshRow
entry_of r = (r.columns.token_id, token_fields r.columns)

-- the test of a look-up
abbrev has_token : Text → Text × RefreshRow → Bool
has_token token_id p = p.0 == token_id

drop_expired-keep :
    (now : ℕ) (d : Dict Text RefreshRow)
    → drop_expired now d ≡ keep (λ p. not (leb p.1.expires_at now)) d
unfolding drop_expired
drop_expired-keep now [] = refl
drop_expired-keep now ((k, row) ∷ d) = elim (Bool-cases (leb row.expires_at now)) [
  | inl expired ↦ rw (expired, drop_expired, keep) (drop_expired-keep now d)
  | inr valid ↦
      rw (valid, drop_expired, keep) (ap (λ rest. (k, row) ∷ rest) (drop_expired-keep now d))
]

module _ {S : Type 0} (T : Table TokenRow S) where
  -- The table has the tokens of the dict, in the order of the dict.
  pub record Agrees (repo : AuthRepository) (s : S) : Type 0 where
    pub same_tokens : map entry_of (T.rows s) ≡ repo.refresh

  found_entry :
      (token_id : Text) (repo : AuthRepository) (s : S)
      → Agrees repo s
      → first (has_token token_id) repo.refresh
        ≡ map_option entry_of (first (test (names_token token_id)) (T.rows s))
  found_entry token_id repo s h =
      sym (ap (first (has_token token_id)) h.same_tokens)
      ∙ first-map entry_of (has_token token_id) (T.rows s)

  fields_of_entry :
      (o : Option (Stored TokenRow))
      → map_option (λ (p : Text × RefreshRow). p.1) (map_option entry_of o)
        ≡ map_option (λ r. token_fields r.columns) o
  fields_of_entry none = refl
  fields_of_entry (some r) = refl

  pub get_refresh_token-modes :
      (token_id : Text) (repo : AuthRepository) (s : S)
      → Agrees repo s
      → get_refresh_token_in T token_id s ≡ get_refresh_token token_id repo
  unfolding get_refresh_token_in get_refresh_token
  get_refresh_token-modes token_id repo s h = sym (
      lookup-entries token_id repo.refresh
      ∙ ap (map_option (λ (p : Text × RefreshRow). p.1)) (found_entry token_id repo s h)
      ∙ fields_of_entry _)

module _ {S : Type 0} (T : Table TokenRow S) (law : IsLawful fits_token same_token T) where
  -- A token with a new identifier, which is not revoked, is stored in both modes.
  pub store_refresh_token-Agrees :
      (now : ℕ) (token_id : Text) (fields : RefreshRow) (repo : AuthRepository) (s : S)
      → Agrees T repo s
      → get_refresh_token token_id repo ≡ none
      → fields.revoked ≡ false
      → fits_token (token_row token_id fields) ≡ true
      → (s' : S) × (store_refresh_token_in T now token_id fields s ≡ some s')
        × Agrees T (store_refresh_token token_id fields repo) s'
  unfolding store_refresh_token_in store_refresh_token get_refresh_token get_refresh_token_in
  store_refresh_token-Agrees now token_id fields repo s h fresh valid fit =
      let row = token_row token_id fields in
      let stored : Stored TokenRow = record { created_at = now; columns = row } in
      let absent =
        any-none (test (same_token row)) (T.rows s)
          (nothing_found _ (get_refresh_token-modes T token_id repo s h ∙ fresh)) in
      let (s', added, rows') = law.rows-add now row s fit absent in
      (
        s',
        added,
        record {
          same_tokens =
              ap (map entry_of) rows'
              ∙ map-append entry_of (T.rows s) (stored ∷ [])
              ∙ ap (λ xs. xs ++ (entry_of stored ∷ [])) h.same_tokens
              ∙ ap (λ b. repo.refresh ++ ((token_id, record fields { revoked = b }) ∷ []))
                  (sym valid)
              ∙ sym (insert_new token_id fields repo.refresh fresh);
        },
      )
    where
      nothing_found :
          (o : Option (Stored TokenRow))
          → map_option (λ r. token_fields r.columns) o ≡ none
          → o ≡ none
      nothing_found none e = refl
      nothing_found (some r) e = absurd cc

  -- A token is revoked in both modes, where it is there.
  pub revoke_refresh_token-Agrees :
      (token_id : Text) (repo : AuthRepository) (s : S)
      → Agrees T repo s
      → Agrees T (revoke_refresh_token token_id repo) (revoke_refresh_token_in T token_id s)
  unfolding revoke_refresh_token revoke_refresh_token_in revoke_found revoke_row fits_token
  revoke_refresh_token-Agrees token_id repo s h =
      elim (Option-cases (first (test (names_token token_id)) (T.rows s))) [
        | inl absent ↦
            let e : lookup token_id repo.refresh ≡ none =
              lookup-entries token_id repo.refresh
              ∙ ap (map_option (λ (p : Text × RefreshRow). p.1))
                  (found_entry T token_id repo s h ∙ ap (map_option entry_of) absent) in
            rw (absent, e, revoke_found, revoke_row) h
        | inr (row, it) ↦
            let there = found_entry T token_id repo s h ∙ ap (map_option entry_of) it in
            let e : lookup token_id repo.refresh ≡ some (token_fields row.columns) =
              lookup-entries token_id repo.refresh
              ∙ ap (map_option (λ (p : Text × RefreshRow). p.1)) there in
            rw (it, e, revoke_found, revoke_row)
              (record {
                same_tokens =
                    ap (map entry_of) (
                      law.rows-write (names_token token_id) set_revoked s (λ a b. refl)
                        (λ row fit. fit)
                      ∙ change_found (test (names_token token_id)) (assign set_revoked) (T.rows s)
                          it)
                    ∙ change_first-map entry_of (has_token token_id) (assign set_revoked row)
                        (T.rows s)
                    ∙ ap (change_first (has_token token_id) _) h.same_tokens
                    ∙ sym (
                        insert_old token_id (record (token_fields row.columns) { revoked = true })
                          repo.refresh there);
              })
      ]

  -- The expired tokens are deleted in both modes.
  pub cleanup-Agrees :
      (now : ℕ) (repo : AuthRepository) (s : S)
      → Agrees T repo s
      → Agrees T (cleanup_expired_refresh_tokens now repo) (cleanup_expired_in T now s)
  unfolding cleanup_expired_refresh_tokens cleanup_expired_in
  cleanup-Agrees now repo s h = record {
    same_tokens =
        ap (map entry_of) (law.rows-erase (λ row. leb row.expires_at now) s)
        ∙ sym (keep-map entry_of (λ p. not (leb p.1.expires_at now)) (T.rows s))
        ∙ ap (keep (λ p. not (leb p.1.expires_at now))) h.same_tokens
        ∙ sym (drop_expired-keep now repo.refresh);
  }
