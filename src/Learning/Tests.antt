-- ===== src/Learning/Tests.antt =====
-- Two batches of feedback without a repository: the total counts both, the ratio the last only.
use ochestrate.Base.{◌≡◌, refl, Bool, true, false, none, some, List, [], ◌∷◌, ℕ, text_beq}
use ochestrate.Text.{codes}
use ochestrate.Storage.Table.{Stored}
use ochestrate.Storage.Lists.{listed, listed-IsLawful}
use ochestrate.Learning.Database.{
  fits_feedback, FeedbackRow, never, record_all_in, record_all, stats_in, stats_in-stats,
}
use ochestrate.Learning.{
  FeedbackRequest, Pipeline, submit_feedback, process_batch, count_batch, stats,
}

abbrev item : Bool → FeedbackRequest
item is_correct = record {
  tenant_id = some (codes "acme");
  user_id = none;
  trace_id = codes "t1";
  is_correct = is_correct;
  score = 100;
  user_edit = none;
  tags = [];
}

abbrev idle : Pipeline
idle = record { repository = none; buffer = []; counted = none; last_tenant_id = none }

abbrev first_batch : Pipeline
first_batch = (process_batch (submit_feedback (item true) idle)).1

ratio_of_last_batch :
    (process_batch (submit_feedback (item false) first_batch)).0
    ≡ some (record { total = 2; correct_ratio = some (record { correct = 0; total = 1 }) })
unfolding process_batch submit_feedback count_batch
ratio_of_last_batch = refl

abbrev recorded : List (ℕ × FeedbackRequest)
recorded = (1, item true) ∷ (2, item false) ∷ []

stats_in-stats_example :
    (s' : List (Stored FeedbackRow)) × (record_all_in (listed fits_feedback never) recorded []
      ≡ some s')
    × (stats_in (listed fits_feedback never) (some (codes "acme")) s'
        ≡ stats (some (codes "acme")) (record_all recorded []))
unfolding fits_feedback text_beq
stats_in-stats_example =
    stats_in-stats (listed fits_feedback never) (listed-IsLawful fits_feedback never) recorded []
      (some (codes "acme")) refl (refl, (refl, tt)) refl
