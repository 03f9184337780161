-- ===== src/Posts/Owner.antt =====
-- `deletePost`, `togglePinPost`, `archivePost`, `unarchivePost` and `schedulePost`: what only the author
-- of a post may do. The clock that `schedulePost` reads is the argument `now`.
pub mod Rights
pub mod Deleted
use Prim.Native.String.{String}
use enix_backend.Base.{
  ℕ, ⊤, Bool, true, false, not, Option, none, some, List, [], ◌∷◌, ◌==◌, ◌&&◌, ◌||◌, leb,
  if◌then◌else◌, keep,
}
use enix_backend.Http.{Error, forbidden, bad_request, is_not_found, is_forbidden, is_bad_request}
use enix_backend.Posts.Entities.{Post, Comment, Like, Share, Bookmark, Report, Reaction, Collection}
use enix_backend.Posts.Db.{
  Db, Tables, Action, io, pure, write, throw_if, ◌>>=◌, ◌>>◌, catch_all, invalidate, Tag, post_of,
  posts_by, contains,
}
use enix_backend.Posts.Repo.{need_post, update_post, not_found_or_forbidden}
use enix_backend.Posts.Comments.{is_dead, thread}

-- The post, if the caller wrote it.
unfoldable pub own_post : ℕ → ℕ → String → Action Post
unfolding need_post
own_post user_id post_id message = do
  post ← need_post post_id
  throw_if (not (post.user_id == user_id)) (forbidden message)
  pure post

-- `save` of the changed post, and the tags that every change of it drops
unfoldable pub change_post : ℕ → ℕ → (Post → Post) → Action ⊤
unfolding update_post invalidate
change_post user_id post_id f = do
  update_post post_id f
  invalidate (Tag.post ∷ post_of post_id ∷ posts_by user_id ∷ [])

abbrev pub pinned : Bool → Post → Post
pinned b p = record p { is_pinned = b }

abbrev pub archived : Bool → Post → Post
archived b p = record p { is_archived = b }

abbrev pub scheduled : ℕ → Post → Post
scheduled date p = record p { scheduled_date = some date; is_draft = true }

unfoldable pub toggle_pin_post : ℕ → ℕ → Bool → Action Post
unfolding own_post change_post
toggle_pin_post user_id post_id is_pinned =
    catch_all not_found_or_forbidden "Failed to toggle post pin status" do
      post ← own_post user_id post_id "You can only pin/unpin your own posts"
      change_post user_id post_id (pinned is_pinned)
      pure (pinned is_pinned post)

unfoldable pub archive_post : ℕ → ℕ → Action Post
unfolding own_post change_post
archive_post user_id post_id = catch_all not_found_or_forbidden "Failed to archive post" do
  post ← own_post user_id post_id "You can only archive your own posts"
  change_post user_id post_id (archived true)
  pure (archived true post)

unfoldable pub unarchive_post : ℕ → ℕ → Action Post
unfolding own_post change_post
unarchive_post user_id post_id = catch_all not_found_or_forbidden "Failed to unarchive post" do
  post ← own_post user_id post_id "You can only unarchive your own posts"
  change_post user_id post_id (archived false)
  pure (archived false post)

abbrev pub not_found_forbidden_or_bad : Error → Bool
not_found_forbidden_or_bad e = is_not_found e || is_forbidden e || is_bad_request e

unfoldable pub schedule_post : ℕ → ℕ → ℕ → ℕ → Action Post
unfolding own_post change_post
schedule_post now user_id post_id scheduled_date =
    catch_all not_found_forbidden_or_bad "Failed to schedule post" do
      post ← own_post user_id post_id "You can only schedule your own posts"
      throw_if (leb scheduled_date now) (bad_request "Scheduled date must be in the future")
      change_post user_id post_id (scheduled scheduled_date)
      pure (scheduled scheduled_date post)

-- What the foreign keys delete along with a post: the posts that answer it, theirs and so on. As with
-- comments, an answer stands behind what it answers.
unfoldable pub post_thread : List ℕ → List Post → List ℕ
post_thread dead [] = dead
post_thread dead (p ∷ ps) =
    post_thread (if is_dead p.parent_post_id dead then p.id ∷ dead else dead) ps

-- the comments of those posts, and the replies to them
unfoldable pub comment_thread : List ℕ → List ℕ → List Comment → List ℕ
comment_thread posts dead [] = dead
comment_thread posts dead (c ∷ cs) =
    comment_thread posts
      (if contains c.post_id posts || is_dead c.parent_comment_id dead then c.id ∷ dead else dead)
      cs

abbrev pub delete_rows : List ℕ → List ℕ → Tables → Tables
delete_rows posts comments t = record t {
  posts = keep (λ p. not (contains p.id posts)) t.posts;
  comments = keep (λ c. not (contains c.post_id posts) && not (contains c.id comments)) t.comments;
  likes = keep (λ l. not (is_dead l.post_id posts) && not (is_dead l.comment_id comments)) t.likes;
  shares = keep (λ s. not (contains s.post_id posts)) t.shares;
  bookmarks = keep (λ b. not (contains b.post_id posts)) t.bookmarks;
  reports = keep (λ r. not (contains r.post_id posts)) t.reports;
  reactions =
      keep (λ r. not (is_dead r.post_id posts) && not (is_dead r.comment_id comments)) t.reactions;
}

-- `postRepository.remove`, with `onDelete: 'CASCADE'` of all that belongs to the post
unfoldable pub delete_posts : List ℕ → Tables → Tables
unfolding comment_thread
delete_posts posts t = delete_rows posts (comment_thread posts [] t.comments) t

unfoldable pub remove_post : ℕ → Action ⊤
unfolding io delete_posts post_thread
remove_post post_id = io >> write λ t. delete_posts (post_thread (post_id ∷ []) t.posts) t

unfoldable pub delete_post : ℕ → ℕ → Action ⊤
unfolding own_post remove_post invalidate
delete_post user_id post_id = catch_all not_found_or_forbidden "Failed to delete post" do
  own_post user_id post_id "You can only delete your own posts"
  remove_post post_id
  invalidate (Tag.post ∷ post_of post_id ∷ posts_by user_id ∷ [])
