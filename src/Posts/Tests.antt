-- ===== src/Posts/Tests.antt =====
-- The theorems on posts at concrete tables.
mod Samples
mod Paged
mod Rollback
mod Analysed
use Prim.Native.String.{String}
use enix_backend.Base.{
  ℕ, pos, ◌≡◌, ◌≢◌, refl, Bool, true, false, Option, none, some, List, [], ◌∷◌, arith, All,
}
use enix_backend.Http.{Error, internal, ok, err}
use enix_backend.Posts.Entities.{
  Post, Comment, Like, LikeType, Bookmark, Reaction, ReactionType, Collection,
}
use enix_backend.Posts.Db.{Db, Tables, get_or_set_user, threw, final, result, calm}
use enix_backend.Posts.Repo.{need_post}
use enix_backend.Posts.Likes.{like_post_or_comment, unlike_post_or_comment}
use enix_backend.Posts.Likes.Counted.{HasCountedLikes, like-counted, unlike-counted}
use enix_backend.Posts.Engage.{bookmark_post, unbookmark_post, share_post, report_post}
use enix_backend.Posts.Engage.Counted.{
  HasCountedBookmarks, HasCountedShares, HasCountedReports, bookmark-counted, unbookmark-counted,
  share-counted, report-counted,
}
use enix_backend.Posts.Engage.Bookmarks.{unbookmark-bookmark}
use enix_backend.Posts.Owner.{
  toggle_pin_post, archive_post, unarchive_post, schedule_post, delete_post,
}
use enix_backend.Posts.Create.{Tools, UpdatePostDto, edit_post}
use enix_backend.Posts.Owner.Rights.{IsRefused, foreign-IsRefused}
use enix_backend.Posts.Reactions.{react_to_post_or_comment}
use enix_backend.Posts.Reactions.Latest.{HasOnly, react-latest}
use enix_backend.Posts.Comments.{create_comment, comment_on, write_comment}
use enix_backend.Posts.Comments.Counted.{HasCountedComments}
use enix_backend.Posts.Comments.Writes.{create_comment-counted}
use enix_backend.Posts.Comments.Atomic.{create_comment_atomic}
use enix_backend.Posts.Tallies.{Request, served, IsTallied, served-IsTallied}
use enix_backend.Posts.Tests.Samples.{
  itself, a_post, a_comment, a_like, a_bookmark, a_collection, some_tables, with_faults,
}

comments-HasCounted : HasCountedComments some_tables
comments-HasCounted = record {
  on_posts = (refl, tt);
  on_comments = (refl, tt);
  keys = (tt, tt);
  fresh = (omega arith, tt);
  parents = (tt, tt);
}

-- a reply to the comment, where the call that would save it throws
create_comment-counted_example :
    HasCountedComments
      (final (create_comment itself 1 1 "thanks" (some 2) (with_faults (false ∷ true ∷ [])))).tables
create_comment-counted_example =
    create_comment-counted itself 1 1 "thanks" (some 2) (with_faults (false ∷ true ∷ []))
      comments-HasCounted

-- A reply of which everything is written but the comment count of the post, which throws.
abbrev throws_late : Db
throws_late =
    with_faults (false ∷ false ∷ false ∷ false ∷ false ∷ false ∷ false ∷ false ∷ true ∷ [])

abbrev rolled_back : Db
rolled_back = record (with_faults []) { cached_users = 1 ∷ 1 ∷ [] }

create_comment_atomic_example : rolled_back.tables ≡ throws_late.tables
unfolding create_comment need_post comment_on get_or_set_user write_comment
create_comment_atomic_example =
    create_comment_atomic itself 1 1 "thanks" (some 2) throws_late rolled_back
      (internal "Failed to create comment") refl

likes-HasCounted : HasCountedLikes (with_faults [])
likes-HasCounted = record {
  on_posts = (refl, tt);
  on_comments = (refl, tt);
  keys = (tt, tt);
  fresh = (omega arith, tt);
  of_one = (refl, tt);
}

served-IsTallied_example :
    IsTallied
      (Request.like 1 none (some 2))
      (served itself (Request.like 1 none (some 2)) (with_faults []))
served-IsTallied_example =
    served-IsTallied itself (Request.like 1 none (some 2)) (with_faults []) likes-HasCounted

abbrev bookmarked_db : Db
bookmarked_db = final (bookmark_post itself 1 1 none (calm (with_faults [])))

unbookmark-bookmark_example :
    (result (unbookmark_post 1 1 bookmarked_db) ≡ ok tt)
    × ((final (unbookmark_post 1 1 bookmarked_db)).posts ≡ a_post ∷ [])
    × ((final (unbookmark_post 1 1 bookmarked_db)).bookmarks ≡ a_bookmark ∷ [])
unfolding bookmark_post
unbookmark-bookmark_example =
    unbookmark-bookmark itself 1 1 none (with_faults []) (omega arith, tt) refl

foreign-IsRefused_example :
    IsRefused some_tables (toggle_pin_post 2 1 true (with_faults (false ∷ true ∷ [])))
    × IsRefused some_tables (archive_post 2 1 (with_faults (false ∷ true ∷ [])))
    × IsRefused some_tables (unarchive_post 2 1 (with_faults (false ∷ true ∷ [])))
    × IsRefused some_tables (schedule_post 100 2 1 200 (with_faults (false ∷ true ∷ [])))
    × IsRefused some_tables (delete_post 2 1 (with_faults (false ∷ true ∷ [])))
    × ((tools : Tools) (dto : UpdatePostDto)
        → IsRefused some_tables (edit_post tools 2 1 dto (with_faults (false ∷ true ∷ []))))
foreign-IsRefused_example =
    foreign-IsRefused 2 1 (with_faults (false ∷ true ∷ [])) a_post refl (λ e. cc e) true 100 200

abbrev a_reaction : Reaction
a_reaction = record {
  id = 6;
  reaction_type = ReactionType.love;
  user_id = 2;
  post_id = some 1;
  comment_id = none;
}

react-latest_example :
    (a_reaction.reaction_type ≡ ReactionType.love)
    × HasOnly 2
        (some 1)
        none
        a_reaction
        (final (react_to_post_or_comment 2 ReactionType.love (some 1) none (calm (with_faults []))))
unfolding react_to_post_or_comment get_or_set_user
react-latest_example =
    react-latest 2 ReactionType.love (some 1) none (with_faults []) {r = a_reaction} (omega arith)
      refl
