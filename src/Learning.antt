-- ===== src/Learning.antt =====
-- app/learning/pipeline.py over app/storage/repositories/feedback_repo.py in the in-memory mode. A
-- ratio is kept as its two numbers.
pub mod Database
mod Tests
use ochestrate.Base.{
  ℕ, ◌+◌, Bool, true, false, Option, none, some, List, [], ◌∷◌, ◌++◌, ◌==◌, keep, count_if, length,
  if◌then◌else◌,
}
use ochestrate.Text.{Text, text_eq}

pub record FeedbackRequest : Type 0 where
  pub tenant_id : Option Text
  pub user_id : Option Text
  pub trace_id : Text
  pub is_correct : Bool
  pub score : ℕ
  pub user_edit : Option Text
  pub tags : List Text

-- `correct / total`
pub record Ratio : Type 0 where
  pub correct : ℕ
  pub total : ℕ

pub record FeedbackStats : Type 0 where
  pub total : ℕ
  -- none for the 0.0 of no feedback
  pub correct_ratio : Option Ratio

-- the items that `FeedbackRepository` has in memory
abbrev pub FeedbackRepository : Type 0
FeedbackRepository = List FeedbackRequest

unfoldable pub record_item : FeedbackRequest → FeedbackRepository → FeedbackRepository
record_item item mem = mem ++ item ∷ []

-- `tenant_id is None or x.tenant_id == tenant_id`
unfoldable pub is_of_tenant : Option Text → FeedbackRequest → Bool
is_of_tenant none x = true
is_of_tenant (some t) x = elim x.tenant_id [ none ↦ false | some u ↦ u == t ]

abbrev pub says_correct : FeedbackRequest → Bool
says_correct x = x.is_correct

unfoldable pub stats_of : List FeedbackRequest → FeedbackStats
stats_of [] = record { total = 0; correct_ratio = none }
stats_of (x ∷ xs) = record {
  total = length (x ∷ xs);
  correct_ratio =
      some (record { correct = count_if says_correct (x ∷ xs); total = length (x ∷ xs) });
}

-- `FeedbackRepository.stats`
unfoldable pub stats : Option Text → FeedbackRepository → FeedbackStats
unfolding stats_of
stats tenant_id mem = stats_of (keep (is_of_tenant tenant_id) mem)

-- `EnterpriseLearningPipeline`; its dict of floats has a total and the ratio of a batch, and is empty
-- before the first.
pub record Pipeline : Type 0 where
  pub repository : Option FeedbackRepository
  pub buffer : List FeedbackRequest
  pub counted : Option FeedbackStats
  pub last_tenant_id : Option Text

-- `EnterpriseLearningPipeline.submit_feedback`
unfoldable pub submit_feedback : FeedbackRequest → Pipeline → Pipeline
unfolding record_item
submit_feedback item p = elim p.repository [
  | some mem ↦ record p {
    repository = some (record_item item mem);
    last_tenant_id = item.tenant_id;
  }
  | none ↦ record p { buffer = p.buffer ++ item ∷ []; last_tenant_id = item.tenant_id }
]

abbrev pub total_so_far : Option FeedbackStats → ℕ
total_so_far none = 0
total_so_far (some s) = s.total

unfoldable pub count_batch : List FeedbackRequest → Option FeedbackStats → Option FeedbackStats
count_batch [] counted = counted
count_batch (x ∷ xs) counted = some (record {
  total = total_so_far counted + length (x ∷ xs);
  correct_ratio =
      some (record { correct = count_if says_correct (x ∷ xs); total = length (x ∷ xs) });
})

-- `EnterpriseLearningPipeline.process_batch`
unfoldable pub process_batch : Pipeline → Option FeedbackStats × Pipeline
unfolding count_batch
process_batch p = elim p.repository [
  | some mem ↦ (some (stats p.last_tenant_id mem), p)
  | none ↦
      let counted = count_batch p.buffer p.counted in
      (counted, record p { buffer = []; counted = counted })
]
