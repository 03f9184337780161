-- ===== src/Posts/Comments.antt =====
-- `createComment`, `updateComment` and `deleteComment`. The text functions of src/utils that clean
-- what users write are the argument `sanitize`.
pub mod Counted
pub mod Atomic
pub mod Steps
pub mod Writes
use Prim.Native.String.{String}
use enix_backend.Base.{
  ℕ, suc, ℤ, pos, ⊤, Bool, true, false, not, Option, none, some, List, [], ◌∷◌, ◌++◌, find?, ◌==◌,
  ◌&&◌, ◌||◌, is_some, if◌then◌else◌, incr, decr, is_id, keep,
}
use enix_backend.Base.Rows.{update_where, by_key}
use enix_backend.Http.{Error, forbidden, not_found, is_not_found, is_bad_request, is_forbidden}
use enix_backend.Posts.Entities.{Post, Comment, Like, Reaction}
use enix_backend.Posts.Db.{
  Db, Tables, Action, returned, io, gets, pure, write, throw_if, or_throw, ◌>>=◌, ◌>>◌, catch_all,
  invalidate, transaction, get_or_set_user, Tag, post_of, comment_of, comments_of, contains,
}
use enix_backend.Posts.Repo.{
  need_post, need_comment, update_post, update_comment, for_some, comment_id_of,
  not_found_or_forbidden,
}

abbrev pub post_comments : (ℤ → ℤ) → Post → Post
post_comments f p = record p { comments_count = f p.comments_count }

abbrev pub comment_replies : (ℤ → ℤ) → Comment → Comment
comment_replies f c = record c { replies_count = f c.replies_count }

-- `findOne(Comment, { where: { id: parentCommentId, postId } })`
abbrev pub parent_where : ℕ → ℕ → Comment → Bool
parent_where parent_id post_id c = c.id == parent_id && c.post_id == post_id

find_parent : ℕ → ℕ → Action (Option Comment)
unfolding io
find_parent parent_id post_id = do
  io
  gets (λ db. find? (parent_where parent_id post_id) db.comments)

count_reply : ℕ → ℕ → Action ⊤
unfolding find_parent update_comment
count_reply post_id parent_id = do
  found ← find_parent parent_id post_id
  or_throw found (not_found "Parent comment not found")
  update_comment parent_id (comment_replies incr)

-- `create` and `save`
save_comment : String → ℕ → ℕ → Option ℕ → Action Comment
unfolding io
save_comment content post_id user_id parent_id = io >> λ db.
    let comment : Comment = record {
      id = db.next_id;
      content = content;
      is_edited = false;
      likes_count = pos 0;
      replies_count = pos 0;
      post_id = post_id;
      user_id = user_id;
      parent_comment_id = parent_id;
    } in
    (write (λ t. record t { comments = t.comments ++ comment ∷ []; next_id = suc t.next_id })
        >> pure comment)
      db

-- the body of the transaction
unfoldable pub write_comment : String → ℕ → ℕ → Option ℕ → Action Comment
unfolding count_reply save_comment update_post
write_comment content post_id user_id parent_id = do
  for_some parent_id λ k. count_reply post_id k
  saved_comment ← save_comment content post_id user_id parent_id
  update_post post_id (post_comments incr)
  pure saved_comment

abbrev pub known_errors : Error → Bool
known_errors e = is_not_found e || is_forbidden e || is_bad_request e

comment_tags : ℕ → ℕ → List Tag
comment_tags comment_id post_id =
    Tag.comment ∷ comment_of comment_id ∷ post_of post_id ∷ comments_of post_id ∷ []

-- what follows once the post is found
unfoldable pub comment_on : (String → String) → ℕ → ℕ → String → Option ℕ → Action Comment
unfolding transaction invalidate comment_tags
comment_on sanitize user_id post_id content parent_id = do
  get_or_set_user user_id
  saved_comment ← transaction (write_comment (sanitize content) post_id user_id parent_id)
  invalidate (comment_tags saved_comment.id post_id)
  pure saved_comment

unfoldable pub create_comment : (String → String) → ℕ → ℕ → String → Option ℕ → Action Comment
create_comment sanitize user_id post_id content parent_id =
    catch_all known_errors "Failed to create comment" do
      post ← need_post post_id
      throw_if (not post.allow_comments) (forbidden "Comments are disabled for this post")
      comment_on sanitize user_id post_id content parent_id

abbrev pub edited : (String → String) → Option String → Comment → Comment
edited sanitize none c = record c { is_edited = true }
edited sanitize (some content) c = record c { content = sanitize content; is_edited = true }

unfoldable pub update_own_comment : (String → String) → ℕ → ℕ → Option String → Action ⊤
unfolding need_comment update_comment invalidate comment_tags
update_own_comment sanitize user_id comment_id content =
    catch_all not_found_or_forbidden "Failed to update comment" do
      comment ← need_comment comment_id
      throw_if (not (comment.user_id == user_id))
          (forbidden "You can only update your own comments")
      update_comment comment_id (edited sanitize content)
      invalidate (comment_tags comment_id comment.post_id)

abbrev pub is_dead : Option ℕ → List ℕ → Bool
is_dead none dead = false
is_dead (some k) dead = contains k dead

-- What the foreign keys of the tables delete along with a comment: its replies, their replies and so
-- on. A reply stands behind the comment that it answers, so one pass finds them all.
unfoldable pub thread : List ℕ → List Comment → List ℕ
thread dead [] = dead
thread dead (c ∷ cs) = thread (if is_dead c.parent_comment_id dead then c.id ∷ dead else dead) cs

-- `commentRepository.remove`, with `onDelete: 'CASCADE'` of replies, likes and reactions
unfoldable pub delete_comments : List ℕ → Tables → Tables
delete_comments dead t = record t {
  comments = keep (λ c. not (contains c.id dead)) t.comments;
  likes = keep (λ l. not (is_dead l.comment_id dead)) t.likes;
  reactions = keep (λ r. not (is_dead r.comment_id dead)) t.reactions;
}

remove_comment : ℕ → Action ⊤
unfolding io
remove_comment comment_id = io >> write λ t. delete_comments (thread (comment_id ∷ []) t.comments) t

unfoldable pub delete_comment : ℕ → ℕ → Action ⊤
unfolding need_comment remove_comment update_comment update_post invalidate comment_tags
delete_comment user_id comment_id = catch_all not_found_or_forbidden "Failed to delete comment" do
  comment ← need_comment comment_id
  throw_if (not (comment.user_id == user_id)) (forbidden "You can only delete your own comments")
  remove_comment comment_id
  for_some comment.parent_comment_id λ k. update_comment k (comment_replies decr)
  update_post comment.post_id (post_comments decr)
  invalidate (comment_tags comment_id comment.post_id)
