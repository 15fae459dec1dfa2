-- ===== src/Learning/Database.antt =====
-- app/storage/repositories/feedback_repo.py in its database mode, and its agreement with the memory
-- mode.
use mathlib.Core.List.{map-append}
use ochestrate.Base.{
  ◌&&◌, All, ◌≡◌, ap, sym, refl, ◌∙◌, ℕ, zero, suc, Bool, true, false, Option, none, some, List, [],
  ◌∷◌, ◌++◌, ◌==◌, map, any, keep, count_if, length,
}
use ochestrate.Text.{Text, text_eq}
use ochestrate.Storage.Rows.{keep-map, count_if-map}
use ochestrate.Storage.Table.{within, within_if_any, text_room, Stored, Table, test, IsLawful}
use ochestrate.Learning.{
  FeedbackRequest, FeedbackStats, record_item, is_of_tenant, says_correct, stats_of, stats,
}

-- `FeedbackRecordORM`
pub record FeedbackRow : Type 0 where
  pub tenant_id : Text
  pub user_id : Text
  pub trace_id : Text
  pub is_correct : Bool
  pub score : ℕ
  pub user_edit : Option Text
  pub tags_json : List Text

-- the lengths of the columns
unfoldable pub fits_feedback : FeedbackRow → Bool
fits_feedback row =
    within 64 row.tenant_id
    && within 64 row.user_id
    && within 64 row.trace_id
    && within_if_any text_room row.user_edit

-- The table has no unique constraint.
abbrev pub never : FeedbackRow → FeedbackRow → Bool
never a b = false

-- `value or ""`
abbrev pub or_nothing : Option Text → Text
or_nothing none = []
or_nothing (some t) = t

-- the row that `record` adds
abbrev pub feedback_row : FeedbackRequest → FeedbackRow
feedback_row item = record {
  tenant_id = or_nothing item.tenant_id;
  user_id = or_nothing item.user_id;
  trace_id = item.trace_id;
  is_correct = item.is_correct;
  score = item.score;
  user_edit = item.user_edit;
  tags_json = item.tags;
}

-- the `where` of the statement
unfoldable pub is_tenant_row : Option Text → FeedbackRow → Bool
is_tenant_row none row = true
is_tenant_row (some t) row = row.tenant_id == t

abbrev pub correct_row : FeedbackRow → Bool
correct_row row = row.is_correct

-- the statistics for the two aggregates of the statement
unfoldable pub stats_for : ℕ → ℕ → FeedbackStats
stats_for zero correct = record { total = 0; correct_ratio = none }
stats_for (suc n) correct = record {
  total = suc n;
  correct_ratio = some (record { correct = correct; total = suc n });
}

module _ {S : Type 0} (T : Table FeedbackRow S) where
  -- `FeedbackRepository.record`
  unfoldable pub record_in : ℕ → FeedbackRequest → S → Option S
  record_in now item s = T.add now (feedback_row item) s

  -- `FeedbackRepository.stats`
  unfoldable pub stats_in : Option Text → S → FeedbackStats
  unfolding is_tenant_row stats_for
  stats_in tenant_id s =
      let rows =
        keep (is_tenant_row tenant_id) (map (λ (r : Stored FeedbackRow). r.columns) (T.rows s)) in
      stats_for (length rows) (count_if correct_row rows)

  -- the items one after another
  unfoldable pub record_all_in : List (ℕ × FeedbackRequest) → S → Option S
  unfolding record_in
  record_all_in [] s = some s
  record_all_in ((now, item) ∷ items) s = elim (record_in now item s) [
    | none ↦ none
    | some s' ↦ record_all_in items s'
  ]

-- the items one after another, in memory
unfoldable pub record_all : List (ℕ × FeedbackRequest) → List FeedbackRequest → List FeedbackRequest
unfolding record_item
record_all [] mem = mem
record_all ((now, item) ∷ items) mem = record_all items (record_item item mem)

-- A tenant that is asked for has a name; or no tenant is asked for.
abbrev pub IsNamed : Option Text → Type 0
IsNamed none = Unit
IsNamed (some t) = ([] == t) ≡ false

length-map : {A B : Type 0} (f : A → B) (xs : List A) → length (map f xs) ≡ length xs
length-map f [] = refl
length-map f (x ∷ xs) = ap suc (length-map f xs)

any-never : (row : FeedbackRow) (rs : List (Stored FeedbackRow)) → any (test (never row)) rs ≡ false
any-never row [] = refl
any-never row (r ∷ rs) = any-never row rs

is_tenant_row-feedback_row :
    (tenant_id : Option Text) (x : FeedbackRequest)
    → IsNamed tenant_id
    → is_tenant_row tenant_id (feedback_row x) ≡ is_of_tenant tenant_id x
unfolding is_tenant_row is_of_tenant
is_tenant_row-feedback_row none x h = refl
is_tenant_row-feedback_row (some t) x h =
    elim x.tenant_id as (λ o. (or_nothing o == t) ≡ (elim o [ none ↦ false | some u ↦ u == t ])) [
      | none ↦ h
      | some u ↦ refl
    ]

keep-same :
    (p q : FeedbackRequest → Bool) (xs : List FeedbackRequest)
    → ((x : FeedbackRequest) → p x ≡ q x)
    → keep p xs ≡ keep q xs
keep-same p q [] h = refl
keep-same p q (x ∷ xs) h =
    ap (λ b. elim b [ true ↦ x ∷ keep p xs | false ↦ keep p xs ]) (h x)
    ∙ ap (λ rest. elim (q x) [ true ↦ x ∷ rest | false ↦ rest ]) (keep-same p q xs h)

stats_of-stats_for :
    (xs : List FeedbackRequest) → stats_for (length xs) (count_if says_correct xs) ≡ stats_of xs
unfolding stats_for stats_of
stats_of-stats_for [] = refl
stats_of-stats_for (x ∷ xs) = refl

-- Each feedback is within the lengths of the columns.
abbrev pub AllFit : List (ℕ × FeedbackRequest) → Type 0
AllFit items = All (λ item. fits_feedback (feedback_row item.1) ≡ true) items

module _ {S : Type 0} (T : Table FeedbackRow S) (law : IsLawful fits_feedback never T) where
  record Agrees (mem : List FeedbackRequest) (s : S) : Type 0 where
    same_items : map (λ (r : Stored FeedbackRow). r.columns) (T.rows s) ≡ map feedback_row mem

  record_all-Agrees :
      (items : List (ℕ × FeedbackRequest)) (mem : List FeedbackRequest) (s : S)
      → AllFit items
      → Agrees mem s
      → (s' : S) × (record_all_in T items s ≡ some s') × Agrees (record_all items mem) s'
  unfolding record_all_in record_all record_in record_item
  record_all-Agrees [] mem s fit h = (s, refl, h)
  record_all-Agrees ((now, item) ∷ items) mem s fit h =
      let (s₁, added, rows₁) =
        law.rows-add now (feedback_row item) s fit.0 (any-never (feedback_row item) (T.rows s)) in
      let h₁ : Agrees (mem ++ (item ∷ [])) s₁ = record {
        same_items =
            ap (map (λ (r : Stored FeedbackRow). r.columns)) rows₁
            ∙ map-append (λ (r : Stored FeedbackRow). r.columns) (T.rows s)
                (record { created_at = now; columns = feedback_row item } ∷ [])
            ∙ ap (λ rows. rows ++ (feedback_row item ∷ [])) h.same_items
            ∙ sym (map-append feedback_row mem (item ∷ []));
      } in
      let (s', ran, h') = record_all-Agrees items (mem ++ (item ∷ [])) s₁ fit.1 h₁ in
      (s', rw (added, record_all_in) ran, h')

  stats-Agrees :
      (tenant_id : Option Text) (mem : List FeedbackRequest) (s : S)
      → IsNamed tenant_id
      → Agrees mem s
      → stats_in T tenant_id s ≡ stats tenant_id mem
  unfolding stats_in stats
  stats-Agrees tenant_id mem s named h =
      let picked = keep (is_of_tenant tenant_id) mem in
      ap (λ rows. stats_for (length rows) (count_if correct_row rows))
        (ap (keep (is_tenant_row tenant_id)) h.same_items
          ∙ keep-map feedback_row (is_tenant_row tenant_id) mem
          ∙ ap (map feedback_row) (
              keep-same _ (is_of_tenant tenant_id) mem
                (λ x. is_tenant_row-feedback_row tenant_id x named)))
      ∙ ap (λ n. stats_for n (count_if correct_row (map feedback_row picked)))
          (length-map feedback_row picked)
      ∙ ap (stats_for (length picked)) (count_if-map feedback_row correct_row picked)
      ∙ stats_of-stats_for picked

  -- Where the database compares texts exactly: whatever feedback is recorded from an empty table on,
  -- with its tenant, user and trace of at most 64 characters each and its edit of at most 16383,
  -- recording raises nothing and the
  -- statistics of the database are those of the memory mode: over all tenants, or for a tenant
  -- whose name is not the empty text.
  pub stats_in-stats :
      (items : List (ℕ × FeedbackRequest)) (s : S) (tenant_id : Option Text)
      → T.rows s ≡ []
      → AllFit items
      → IsNamed tenant_id
      → (s' : S) × (record_all_in T items s ≡ some s')
        × (stats_in T tenant_id s' ≡ stats tenant_id (record_all items []))
  stats_in-stats items s tenant_id nothing fit named =
      let start : Agrees [] s = record { same_items = ap (map _) nothing } in
      let (s', ran, h) = record_all-Agrees items [] s fit start in
      (s', ran, stats-Agrees tenant_id (record_all items []) s' named h)
