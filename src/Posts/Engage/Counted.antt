-- ===== src/Posts/Engage/Counted.antt =====
-- The counters of shares, bookmarks and reports of a post.
use Prim.Native.String.{String}
use enix_backend.Base.{ℕ, refl, inl, inr, Option, some, arith, find?, find?-passes, Option-cases}
use enix_backend.Base.Counter.{Counter, IsLinked, IsLinked-append, IsLinked-delete}
use enix_backend.Posts.Entities.{Post, Share, Bookmark, Report}
use enix_backend.Posts.Db.{Db, calm, final}
use enix_backend.Posts.Users.{get_or_set_user-calm}
use enix_backend.Posts.Engage.{
  share_post, cleaned, post_shares, post_bookmarks, post_reports, bookmark_where, bookmark_id,
  report_id, add_share, bookmark_post, unbookmark_post, report_post,
}

abbrev pub share_counter : Counter Post
share_counter = record {
  key = λ p. p.id;
  get = λ p. p.shares_count;
  bump = post_shares;
  get-bump = λ f p. refl;
  key-bump = λ f p. refl;
}

abbrev pub bookmark_counter : Counter Post
bookmark_counter = record {
  key = λ p. p.id;
  get = λ p. p.bookmarks_count;
  bump = post_bookmarks;
  get-bump = λ f p. refl;
  key-bump = λ f p. refl;
}

abbrev pub report_counter : Counter Post
report_counter = record {
  key = λ p. p.id;
  get = λ p. p.reports_count;
  bump = post_reports;
  get-bump = λ f p. refl;
  key-bump = λ f p. refl;
}

abbrev pub shared : Share → Option ℕ
shared x = some x.post_id

abbrev pub share_id : Share → ℕ
share_id x = x.id

abbrev pub bookmarked : Bookmark → Option ℕ
bookmarked x = some x.post_id

abbrev pub reported : Report → Option ℕ
reported x = some x.post_id

abbrev pub HasCountedShares : Db → Type 0
HasCountedShares db = IsLinked share_counter shared share_id db.posts db.shares db.next_id

abbrev pub HasCountedBookmarks : Db → Type 0
HasCountedBookmarks db =
    IsLinked bookmark_counter bookmarked bookmark_id db.posts db.bookmarks db.next_id

abbrev pub HasCountedReports : Db → Type 0
HasCountedReports db = IsLinked report_counter reported report_id db.posts db.reports db.next_id

module _ (sanitize : String → String) (user post : ℕ) (db : Db) where
  add_share-counted :
      (comment : Option String)
      → HasCountedShares db
      → HasCountedShares (final (add_share sanitize user post comment (calm db)))
  unfolding add_share
  add_share-counted comment h =
      let x : Share = record {
        id = db.next_id;
        comment = cleaned sanitize comment;
        post_id = post;
        user_id = user;
      } in
      IsLinked-append share_counter shared share_id h x refl

  -- If no call fails, bookmarking a post keeps the bookmark count of every post equal to the number
  -- of its bookmarks, whether the call returns or throws.
  pub bookmark-counted :
      (note : Option String)
      → HasCountedBookmarks db
      → HasCountedBookmarks (final (bookmark_post sanitize user post note (calm db)))
  unfolding bookmark_post
  bookmark-counted note h =
      let x : Bookmark = record {
        id = db.next_id;
        user_id = user;
        post_id = post;
        note = cleaned sanitize note;
      } in
      ground (arith, IsLinked-append bookmark_counter bookmarked bookmark_id h x refl)

  -- If no call fails, reporting a post keeps the report count of every post equal to the number of
  -- its reports, whether the call returns or throws.
  pub report-counted :
      (reason : String) (description : Option String)
      → HasCountedReports db
      → HasCountedReports (final (report_post sanitize user post reason description (calm db)))
  unfolding report_post
  report-counted reason description h =
      let x : Report = record {
        id = db.next_id;
        user_id = user;
        post_id = post;
        reason = reason;
        description = cleaned sanitize description;
        status = "pending";
      } in
      ground (arith, IsLinked-append report_counter reported report_id h x refl)

-- If no call fails, taking a bookmark off keeps the bookmark count of every post equal to the number
-- of its bookmarks, whether the call returns or throws.
pub unbookmark-counted :
    (user post : ℕ) (db : Db)
    → HasCountedBookmarks db
    → HasCountedBookmarks (final (unbookmark_post user post (calm db)))
unfolding unbookmark_post
unbookmark-counted user post db h =
    elim (Option-cases (find? (bookmark_where user post) db.bookmarks)) [
      | inl missing ↦ ground arith
      | inr (x, found) ↦ ground (
        find?-passes (bookmark_where user post) db.bookmarks found,
        arith,
        IsLinked-delete bookmark_counter bookmarked bookmark_id h (bookmark_where user post) x
            found,
      )
    ]

-- If no call fails, sharing a post keeps the share count of every post equal to the number of its
-- shares, whether the call returns or throws.
pub share-counted :
    (sanitize : String → String) (user post : ℕ) (comment : Option String) (db : Db)
    → HasCountedShares db
    → HasCountedShares (final (share_post sanitize user post comment (calm db)))
unfolding share_post
share-counted sanitize user post comment db h = elim (get_or_set_user-calm user db) [
  | inl missing ↦ ground arith
  | inr (cache, found, _) ↦
      ground
        (arith, add_share-counted sanitize user post (record db { cached_users = cache }) comment h)
]
