-- ===== src/Posts/Engage.antt =====
-- `sharePost`, `bookmarkPost`, `unbookmarkPost`, `reportPost` and `trackPostView`. The text functions
-- of src/utils that clean what users write are the argument `sanitize`.
pub mod Counted
pub mod Bookmarks
use Prim.Native.String.{String}
use enix_backend.Base.{
  ℕ, suc, ℤ, ⊤, Bool, not, Option, none, some, List, [], ◌∷◌, ◌++◌, find?, ◌==◌, ◌&&◌, ◌||◌,
  is_some, if◌then◌else◌, incr, decr,
}
use enix_backend.Base.Rows.{delete_key}
use enix_backend.Http.{Error, bad_request, not_found, is_not_found}
use enix_backend.Posts.Entities.{Post, Share, Bookmark, Report}
use enix_backend.Posts.Db.{
  Db, Action, Outcome, after, returned, threw, io, gets, pure, write, throw_if, or_throw, ◌>>=◌,
  ◌>>◌, catch_all, attempt, invalidate, get_or_set_user, Tag, post_of, bookmarks_by,
}
use enix_backend.Posts.Repo.{need_post, update_post, not_found_or_bad}

-- `text ? sanitize(text) : null`: an empty text counts as missing.
abbrev pub cleaned : (String → String) → Option String → Option String
cleaned sanitize none = none
cleaned sanitize (some String.[]) = none
cleaned sanitize (some (String.◌∷◌ c s)) = some (sanitize (String.◌∷◌ c s))

abbrev pub post_shares : (ℤ → ℤ) → Post → Post
post_shares f p = record p { shares_count = f p.shares_count }

abbrev pub post_bookmarks : (ℤ → ℤ) → Post → Post
post_bookmarks f p = record p { bookmarks_count = f p.bookmarks_count }

abbrev pub post_reports : (ℤ → ℤ) → Post → Post
post_reports f p = record p { reports_count = f p.reports_count }

abbrev pub post_views : (ℤ → ℤ) → Post → Post
post_views f p = record p { views_count = f p.views_count }

save_share : ℕ → ℕ → Option String → Action ⊤
unfolding io
save_share user_id post_id comment = io >> λ db.
    let share : Share = record {
      id = db.next_id;
      comment = comment;
      post_id = post_id;
      user_id = user_id;
    } in
    write (λ t. record t { shares = t.shares ++ share ∷ []; next_id = suc t.next_id }) db

unfoldable pub add_share : (String → String) → ℕ → ℕ → Option String → Action ⊤
unfolding save_share update_post invalidate
add_share sanitize user_id post_id comment = do
  save_share user_id post_id (cleaned sanitize comment)
  update_post post_id (post_shares incr)
  invalidate (Tag.post ∷ post_of post_id ∷ [])

unfoldable pub share_post : (String → String) → ℕ → ℕ → Option String → Action ⊤
unfolding need_post
share_post sanitize user_id post_id comment =
    catch_all not_found_or_bad "Failed to share post"
      do need_post post_id; get_or_set_user user_id; add_share sanitize user_id post_id comment

abbrev pub bookmark_where : ℕ → ℕ → Bookmark → Bool
bookmark_where user_id post_id b = b.user_id == user_id && b.post_id == post_id

abbrev pub bookmark_id : Bookmark → ℕ
bookmark_id b = b.id

find_bookmark : ℕ → ℕ → Action (Option Bookmark)
unfolding io
find_bookmark user_id post_id = do
  io
  gets (λ db. find? (bookmark_where user_id post_id) db.bookmarks)

save_bookmark : ℕ → ℕ → Option String → Action ⊤
unfolding io
save_bookmark user_id post_id note = io >> λ db.
    let bookmark : Bookmark = record {
      id = db.next_id;
      user_id = user_id;
      post_id = post_id;
      note = note;
    } in
    write (λ t. record t { bookmarks = t.bookmarks ++ bookmark ∷ []; next_id = suc t.next_id }) db

remove_bookmark : Bookmark → Action ⊤
unfolding io
remove_bookmark b =
    io >> write λ t. record t { bookmarks = delete_key bookmark_id b.id t.bookmarks }

unfoldable pub bookmark_post : (String → String) → ℕ → ℕ → Option String → Action ⊤
unfolding need_post find_bookmark save_bookmark update_post invalidate
bookmark_post sanitize user_id post_id note =
    catch_all not_found_or_bad "Failed to bookmark post" do
      need_post post_id
      existing_bookmark ← find_bookmark user_id post_id
      throw_if (is_some existing_bookmark) (bad_request "Post already bookmarked")
      save_bookmark user_id post_id (cleaned sanitize note)
      update_post post_id (post_bookmarks incr)
      invalidate (Tag.post ∷ post_of post_id ∷ bookmarks_by user_id ∷ [])

unfoldable pub unbookmark_post : ℕ → ℕ → Action ⊤
unfolding find_bookmark remove_bookmark update_post invalidate
unbookmark_post user_id post_id = catch_all is_not_found "Failed to unbookmark post" do
  found ← find_bookmark user_id post_id
  bookmark ← or_throw found (not_found "Bookmark not found")
  remove_bookmark bookmark
  update_post post_id (post_bookmarks decr)
  invalidate (Tag.post ∷ post_of post_id ∷ bookmarks_by user_id ∷ [])

abbrev pub report_where : ℕ → ℕ → Report → Bool
report_where user_id post_id r = r.user_id == user_id && r.post_id == post_id

abbrev pub report_id : Report → ℕ
report_id r = r.id

find_report : ℕ → ℕ → Action (Option Report)
unfolding io
find_report user_id post_id = do io; gets (λ db. find? (report_where user_id post_id) db.reports)

save_report : ℕ → ℕ → String → Option String → Action ⊤
unfolding io
save_report user_id post_id reason description = io >> λ db.
    let report : Report = record {
      id = db.next_id;
      user_id = user_id;
      post_id = post_id;
      reason = reason;
      description = description;
      status = "pending";
    } in
    write (λ t. record t { reports = t.reports ++ report ∷ []; next_id = suc t.next_id }) db

-- The `catch` block knows `NotFoundException` alone.
unfoldable pub report_post : (String → String) → ℕ → ℕ → String → Option String → Action ⊤
unfolding need_post find_report save_report update_post invalidate
report_post sanitize user_id post_id reason description =
    catch_all is_not_found "Failed to report post" do
      post ← need_post post_id
      throw_if (post.user_id == user_id) (bad_request "You cannot report your own post")
      existing_report ← find_report user_id post_id
      throw_if (is_some existing_report) (bad_request "You have already reported this post")
      save_report user_id post_id reason (cleaned sanitize description)
      update_post post_id (post_reports incr)
      invalidate (Tag.post ∷ post_of post_id ∷ [])

count_view : ℕ → Action ⊤
unfolding update_post invalidate
count_view post_id = do
  update_post post_id (post_views incr)
  invalidate (Tag.post ∷ post_of post_id ∷ [])

-- Only `NotFoundException` is thrown on; any other error is logged and dropped.
abbrev pub dropped : Outcome ⊤ → Outcome ⊤
dropped (returned a db) = returned a db
dropped (threw e db) = if is_not_found e then threw e db else returned tt db

unfoldable pub track_post_view : ℕ → Action ⊤
unfolding need_post count_view
track_post_view post_id db = dropped (
    after (need_post post_id db)
      λ post. if not post.is_public || post.is_draft then pure tt else count_view post_id)
