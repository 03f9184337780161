-- ===== src/Posts/Tallies.antt =====
-- The requests of readers that a counter of a post counts, and the counter that each moves.
use Prim.Native.String.{String}
use enix_backend.Base.{ℕ, Option}
use enix_backend.Posts.Db.{Db, calm, final}
use enix_backend.Posts.Likes.{like_post_or_comment, unlike_post_or_comment}
use enix_backend.Posts.Likes.Counted.{HasCountedLikes, like-counted, unlike-counted}
use enix_backend.Posts.Engage.{share_post, bookmark_post, unbookmark_post, report_post}
use enix_backend.Posts.Engage.Counted.{
  HasCountedShares, HasCountedBookmarks, HasCountedReports, share-counted, bookmark-counted,
  unbookmark-counted, report-counted,
}

-- of a user, on a post or, for likes, on a post or a comment
pub data Request : Type 0 where
  like unlike : ℕ → Option ℕ → Option ℕ → Request
  share bookmark : ℕ → ℕ → Option String → Request
  unbookmark : ℕ → ℕ → Request
  report : ℕ → ℕ → String → Option String → Request

-- the tables after the request, which no failing call disturbs
abbrev pub served : (String → String) → Request → Db → Db
served sanitize (Request.like user post comment) db =
    final (like_post_or_comment user post comment (calm db))
served sanitize (Request.unlike user post comment) db =
    final (unlike_post_or_comment user post comment (calm db))
served sanitize (Request.share user post comment) db =
    final (share_post sanitize user post comment (calm db))
served sanitize (Request.bookmark user post note) db =
    final (bookmark_post sanitize user post note (calm db))
served sanitize (Request.unbookmark user post) db = final (unbookmark_post user post (calm db))
served sanitize (Request.report user post reason description) db =
    final (report_post sanitize user post reason description (calm db))

-- The counter that the request moves is the number of rows, for every post and comment.
abbrev pub IsTallied : Request → Db → Type 0
IsTallied (Request.like _ _ _) db = HasCountedLikes db
IsTallied (Request.unlike _ _ _) db = HasCountedLikes db
IsTallied (Request.share _ _ _) db = HasCountedShares db
IsTallied (Request.bookmark _ _ _) db = HasCountedBookmarks db
IsTallied (Request.unbookmark _ _) db = HasCountedBookmarks db
IsTallied (Request.report _ _ _ _) db = HasCountedReports db

-- If no call fails, each request that a counter of a post counts keeps that counter equal to the
-- number of its rows, for every post and comment, whether the request returns or throws: to like and
-- to take a like back, for the likes of posts and comments; to share, to bookmark, to take a
-- bookmark off and to report, for the shares, bookmarks and reports of posts.
pub served-IsTallied :
    (sanitize : String → String) (r : Request) (db : Db)
    → IsTallied r db
    → IsTallied r (served sanitize r db)
served-IsTallied sanitize (Request.like user post comment) db h =
    like-counted user post comment db h
served-IsTallied sanitize (Request.unlike user post comment) db h =
    unlike-counted user post comment db h
served-IsTallied sanitize (Request.share user post comment) db h =
    share-counted sanitize user post comment db h
served-IsTallied sanitize (Request.bookmark user post note) db h =
    bookmark-counted sanitize user post db note h
served-IsTallied sanitize (Request.unbookmark user post) db h = unbookmark-counted user post db h
served-IsTallied sanitize (Request.report user post reason description) db h =
    report-counted sanitize user post db reason description h
