-- ===== src/Memory/Records.antt =====
-- On app/memory: what the search of the long-term records returns.
use ochestrate.Base.{
  ℕ, ◌+◌, ◌*◌, ◌≤◌, ◌<◌, zero, suc, ◌≡◌, ◌∙◌, refl, ap, inl, inr, Bool, true, false, Option, some,
  List, [], ◌∷◌, ◌++◌, arith, All, if◌then◌else◌, Bool-cases, keep, take, length, length-take,
  All-take, All-imp, All-keep, keep-append, ltb,
}
use mathlib.Core.List.{append-nil}
use ochestrate.Dict.{beq_refl}
use ochestrate.Text.{Text, text_eq, contains}
use ochestrate.Memory.{MemoryRecord, LongStore, is_match, search_long, add, new_record, ttl}

-- The record is the user's own and has not expired.
pub record IsVisible (now : ℕ) (tenant_id user_id : Text) (r : MemoryRecord) : Type 0 where
  pub same_tenant : r.tenant_id ≡ tenant_id
  pub same_user : r.user_id ≡ user_id
  pub alive : now < r.expires_at

keep-none {ℓ} : {A : Type ℓ} (p : A → Bool) {x : A} → p x ≡ false → keep p (x ∷ []) ≡ []
keep-none p h = rw (h, keep)

take-nil {ℓ} : {A : Type ℓ} (n : ℕ) → take {A = A} n [] ≡ []
take-nil zero = refl
take-nil (suc n) = refl

length-take-keep {ℓ} :
    {A : Type ℓ} (n : ℕ) (p : A → Bool) (x : A)
    → length (take (suc n) (keep p (x ∷ []))) ≡ (if p x then 1 else 0)
length-take-keep n p x = elim (Bool-cases (p x)) [
  | inl h ↦ rw (h, keep, take-nil n)
  | inr h ↦ rw (h, keep)
]

module _ (lower : Text → Text) (now : ℕ) (tenant_id user_id : Text) where
  is_match-IsVisible :
      (q : Text) (r : MemoryRecord)
      → is_match lower now tenant_id user_id q r ≡ true
      → IsVisible now tenant_id user_id r
  unfolding is_match
  is_match-IsVisible q r h = record {
    same_tenant = ground (arith, text_eq.beq_iff r.tenant_id tenant_id);
    same_user = ground (arith, text_eq.beq_iff r.user_id user_id);
    alive = ground arith;
  }

  -- A search returns only records of that tenant and user which have not expired, and no more of
  -- them than the limit.
  search_long-IsVisible :
      (query : Text) (limit : ℕ) (s : LongStore)
      → All
          (IsVisible now tenant_id user_id)
          (search_long lower now tenant_id user_id query limit s)
        × (length (search_long lower now tenant_id user_id query limit s) ≤ limit)
  unfolding search_long
  search_long-IsVisible query limit s =
      let p = is_match lower now tenant_id user_id (lower query) in
      (
        All-take _ limit (keep p s.records)
            (All-imp (keep p s.records) (is_match-IsVisible (lower query)) (All-keep p s.records)),
        omega (arith, length-take {0} limit (keep p s.records)),
      )

  no_match :
      (q : Text) (r : MemoryRecord)
      → ¬ ((r.tenant_id ≡ tenant_id) × (r.user_id ≡ user_id))
      → is_match lower now tenant_id user_id q r ≡ false
  no_match q r ne = elim (Bool-cases (is_match lower now tenant_id user_id q r)) [
    | inl h ↦ let v = is_match-IsVisible q r h in absurd (ne (v.same_tenant, v.same_user))
    | inr h ↦ h
  ]

  -- A record that is added for another tenant or another user changes no search of this one.
  pub search_long-add_ne :
      (added : ℕ) (t u content : Text) (tags : List Text) (ttl_days : Option ℕ) (query : Text)
      (limit : ℕ) (s : LongStore)
      → ¬ ((t ≡ tenant_id) × (u ≡ user_id))
      → search_long lower now tenant_id user_id query limit (add added t u content tags ttl_days s)
        ≡ search_long lower now tenant_id user_id query limit s
  unfolding search_long add
  search_long-add_ne added t u content tags ttl_days query limit s ne = ap (take limit) (
      keep-append _ s.records _
      ∙ ap (λ rs. keep (is_match lower now tenant_id user_id (lower query)) s.records ++ rs)
          (keep-none (is_match lower now tenant_id user_id (lower query))
            {x = new_record added t u content tags (ttl ttl_days s.default_ttl_days)}
            (no_match (lower query)
              (new_record added t u content tags (ttl ttl_days s.default_ttl_days))
              (unfold new_record in ne)))
      ∙ append-nil _)

  new_record_matches :
      (added : ℕ) (content : Text) (tags : List Text) (days : ℕ) (q : Text)
      → contains q (lower content) ≡ true
      → is_match lower now tenant_id user_id q
          (new_record added tenant_id user_id content tags days)
        ≡ ltb now (added + days * 86400)
  unfolding is_match new_record
  new_record_matches added content tags days q found =
      ground (arith, found, beq_refl tenant_id, beq_refl user_id)

  -- A record that a user adds to an empty store is found by its content, with a limit of at least
  -- one, until its days are over, and not after.
  pub search_long-add_expiry :
      (added : ℕ) (content : Text) (tags : List Text) (ttl_days : ℕ) (query : Text) (limit : ℕ)
      (s : LongStore)
      → contains (lower query) (lower content) ≡ true
      → s.records ≡ []
      → length (
          search_long lower now tenant_id user_id query
            (suc limit)
            (add added tenant_id user_id content tags (some ttl_days) s))
        ≡ (if ltb now (added + ttl_days * 86400) then 1 else 0)
  unfolding search_long add
  search_long-add_expiry added content tags ttl_days query limit s found none_yet = rw none_yet (
      length-take-keep limit (is_match lower now tenant_id user_id (lower query))
        (new_record added tenant_id user_id content tags ttl_days)
      ∙ ap (λ b. if b then 1 else 0)
          (new_record_matches added content tags ttl_days (lower query) found))
