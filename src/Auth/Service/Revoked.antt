-- ===== src/Auth/Service/Revoked.antt =====
-- A refresh token whose row of app/storage/repositories/auth_repo.py is revoked or gone stays so under
-- each operation on the rows.
use ochestrate.Base.{
  ℕ, ◌≡◌, ◌≢◌, refl, arith, Bool, true, false, Option, none, some, [], ◌∷◌, inl, inr, Bool-cases,
  if◌then◌else◌, leb,
}
use ochestrate.Text.{Text, text_eq}
use ochestrate.Dict.{Dict, lookup, lookup-insert, lookup-insert_ne, lookup-insert_self}
use ochestrate.Dict.Laws.{IsDict, insert-IsDict}
use ochestrate.Auth.Repository.{
  AuthRepository, RefreshRow, revoke_refresh_token, revoke_found, store_refresh_token, drop_expired,
  cleanup_expired_refresh_tokens,
}
use ochestrate.Auth.Service.Data.{Library, Result, ok, denied}
use ochestrate.Auth.Service.{revoke_named}

-- The row of a token is there and not revoked.
abbrev pub is_live : Option RefreshRow → Bool
is_live none = false
is_live (some row) = if row.revoked then false else true

pub record IsDead (id : Text) (s : AuthRepository) : Type 0 where
  pub distinct : IsDict s.refresh
  pub dead : is_live (lookup id s.refresh) ≡ false

-- A refused call.
abbrev pub Denied {ℓ} : {A : Type ℓ} → Result A → Type 0
Denied (ok a) = ⊥
Denied (denied reason) = Unit

pub lookup-drop_expired-none :
    (now : ℕ) (k : Text) (d : Dict Text RefreshRow)
    → lookup k d ≡ none
    → lookup k (drop_expired now d) ≡ none
unfolding drop_expired lookup
lookup-drop_expired-none now k [] h = refl
lookup-drop_expired-none now k ((j, row) ∷ d) h = ground (arith, lookup-drop_expired-none now k d)

pub drop_expired-IsDict :
    (now : ℕ) (d : Dict Text RefreshRow) → IsDict d → IsDict (drop_expired now d)
unfolding drop_expired
drop_expired-IsDict now [] h = tt
drop_expired-IsDict now ((j, row) ∷ d) h = elim (Bool-cases (leb row.expires_at now)) [
  | inl over ↦ rw (over, drop_expired) (drop_expired-IsDict now d h.1)
  | inr valid ↦
      rw (valid, drop_expired) (lookup-drop_expired-none now j d h.0, drop_expired-IsDict now d h.1)
]

pub drop_expired_dead :
    (now : ℕ) (k : Text) (d : Dict Text RefreshRow)
    → IsDict d
    → is_live (lookup k d) ≡ false
    → is_live (lookup k (drop_expired now d)) ≡ false
unfolding drop_expired lookup
drop_expired_dead now k [] h e = refl
drop_expired_dead now k ((j, row) ∷ d) h e = ground (
  arith,
  h.0,
  drop_expired_dead now k d h.1,
  lookup-drop_expired-none now j d h.0,
  text_eq.beq_iff j k,
)

pub cleanup-IsDead :
    (id : Text) (now : ℕ) (s : AuthRepository)
    → IsDead id s
    → IsDead id (cleanup_expired_refresh_tokens now s)
unfolding cleanup_expired_refresh_tokens
cleanup-IsDead id now s h = record {
  distinct = drop_expired-IsDict now s.refresh h.distinct;
  dead = drop_expired_dead now id s.refresh h.distinct h.dead;
}

pub store-IsDead :
    (id new_id : Text) (row : RefreshRow) (s : AuthRepository)
    → new_id ≢ id
    → IsDead id s
    → IsDead id (store_refresh_token new_id row s)
unfolding store_refresh_token
store-IsDead id new_id row s ne h = record {
  distinct = insert-IsDict new_id row s.refresh h.distinct;
  dead = rw (lookup-insert_ne new_id id row s.refresh ne) h.dead;
}

pub revoke_found-IsDead :
    (id other : Text) (o : Option RefreshRow) (s : AuthRepository)
    → IsDead id s
    → IsDead id (revoke_found other o s)
unfolding revoke_found
revoke_found-IsDead id other none s h = h
revoke_found-IsDead id other (some row) s h = record {
  distinct = insert-IsDict other _ s.refresh h.distinct;
  dead = rw lookup-insert (ground (arith, h.dead));
}

pub revoke_found_kills :
    (id : Text) (o : Option RefreshRow) (s : AuthRepository)
    → lookup id s.refresh ≡ o
    → IsDict s.refresh
    → IsDead id (revoke_found id o s)
unfolding revoke_found
revoke_found_kills id none s found h = record { distinct = h; dead = rw found }
revoke_found_kills id (some row) s found h = record {
  distinct = insert-IsDict id _ s.refresh h;
  dead = rw lookup-insert_self;
}

pub revoke_named_kills :
    (lib : Library) (k : Text) (s : AuthRepository)
    → k ≢ []
    → IsDict s.refresh
    → IsDead k (revoke_named lib k s)
unfolding revoke_named revoke_refresh_token
revoke_named_kills lib [] s some_id h = absurd (some_id refl)
revoke_named_kills lib (c ∷ cs) s some_id h =
    revoke_found_kills (c ∷ cs) (lookup (c ∷ cs) s.refresh) s refl h
