-- ===== src/Posts/Tests/Analysed.antt =====
-- The theorem on analytics at concrete tables.
use enix_backend.Base.{ℤ, refl, none, some, [], ◌∷◌}
use enix_backend.Posts.Entities.{Reaction, ReactionType}
use enix_backend.Posts.Db.{Db, calm}
use enix_backend.Posts.Analytics.{get_post_analytics}
use enix_backend.Posts.Analytics.Report.{HasCounters, IsReport, get_post_analytics-IsReport}
use enix_backend.Posts.Tests.Samples.{some_tables, with_faults}

abbrev wow : Reaction
wow = record {
  id = 6;
  reaction_type = ReactionType.wow;
  user_id = 2;
  post_id = some 1;
  comment_id = none;
}

abbrev amazed : Db
amazed = record (with_faults []) { tables = record some_tables { reactions = wow ∷ [] } }

amazed-HasCounters : HasCounters amazed
amazed-HasCounters = record { likes = (refl, tt); comments = (refl, tt); shares = (refl, tt) }

get_post_analytics-IsReport_example :
    IsReport {Rate = ℤ}
      (λ a b. a)
      (ℤ.pos 0)
      1
      1
      (calm amazed)
      (get_post_analytics {Rate = ℤ} (λ a b. a) (ℤ.pos 0) 1 1 (calm amazed))
get_post_analytics-IsReport_example =
    get_post_analytics-IsReport {Rate = ℤ} (λ a b. a) (ℤ.pos 0) 1 1 amazed amazed-HasCounters
