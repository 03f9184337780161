-- ===== src/Posts/Likes.antt =====
-- `likePostOrComment` and `unlikePostOrComment`.
pub mod Counted
use enix_backend.Base.{
  ℕ, suc, ⊤, Bool, not, Option, none, some, List, [], ◌∷◌, ◌++◌, find?, ◌==◌, ◌&&◌, ◌||◌, is_some,
  if◌then◌else◌, incr, decr, ℤ,
}
use enix_backend.Base.Rows.{delete_key}
use enix_backend.Http.{bad_request, not_found, ok}
use enix_backend.Posts.Entities.{Post, Comment, Like, LikeType}
use enix_backend.Posts.Db.{
  Db, Action, returned, io, gets, pure, write, throw_if, or_throw, ◌>>=◌, ◌>>◌, catch_all,
  invalidate, get_or_set_user, Tag, post_of, comment_of,
}
use enix_backend.Posts.Repo.{
  need_post, need_comment, update_post, update_comment, for_some, where_id, not_found_or_bad,
}

abbrev pub like_id : Like → ℕ
like_id l = l.id

abbrev pub like_where : ℕ → Option ℕ → Option ℕ → Like → Bool
like_where user_id post_id comment_id l =
    l.user_id == user_id && where_id post_id l.post_id && where_id comment_id l.comment_id

find_like : ℕ → Option ℕ → Option ℕ → Action (Option Like)
unfolding io
find_like user_id post_id comment_id = do
  io
  gets (λ db. find? (like_where user_id post_id comment_id) db.likes)

-- `likeRepository.create` and `save`
save_like : ℕ → Option ℕ → Option ℕ → Action Like
unfolding io
save_like user_id post_id comment_id = io >> λ db.
    let like : Like = record {
      id = db.next_id;
      like_type = if is_some post_id then LikeType.post else LikeType.comment;
      user_id = user_id;
      post_id = post_id;
      comment_id = comment_id;
    } in
    (write (λ t. record t { likes = t.likes ++ like ∷ []; next_id = suc t.next_id }) >> pure like)
      db

-- `likeRepository.remove`
remove_like : Like → Action ⊤
unfolding io
remove_like l = io >> write λ t. record t { likes = delete_key like_id l.id t.likes }

abbrev pub post_likes : (ℤ → ℤ) → Post → Post
post_likes f p = record p { likes_count = f p.likes_count }

abbrev pub comment_likes : (ℤ → ℤ) → Comment → Comment
comment_likes f c = record c { likes_count = f c.likes_count }

-- The counts follow, and the caches of what was liked are dropped.
count_like : (ℤ → ℤ) → Option ℕ → Option ℕ → Action ⊤
unfolding update_post update_comment invalidate
count_like f post_id comment_id = do
  for_some post_id λ k. do update_post k (post_likes f); invalidate (Tag.post ∷ post_of k ∷ [])
  for_some comment_id
      λ k. do update_comment k (comment_likes f); invalidate (Tag.comment ∷ comment_of k ∷ [])

-- what follows once the user is known
unfoldable pub add_like : ℕ → Option ℕ → Option ℕ → Action Like
unfolding find_like save_like count_like need_post need_comment
add_like user_id post_id comment_id = do
  existing_like ← find_like user_id post_id comment_id
  throw_if (is_some existing_like) (bad_request "Already liked")
  for_some post_id λ k. need_post k
  for_some comment_id λ k. need_comment k
  saved_like ← save_like user_id post_id comment_id
  count_like incr post_id comment_id
  pure saved_like

unfoldable pub like_post_or_comment : ℕ → Option ℕ → Option ℕ → Action Like
like_post_or_comment user_id post_id comment_id =
    catch_all not_found_or_bad "Failed to like post/comment" do
      throw_if (not (is_some post_id) && not (is_some comment_id))
          (bad_request "Either postId or commentId must be provided")
      throw_if (is_some post_id && is_some comment_id)
          (bad_request "Cannot like both post and comment simultaneously")
      get_or_set_user user_id
      add_like user_id post_id comment_id

unfoldable pub unlike_post_or_comment : ℕ → Option ℕ → Option ℕ → Action ⊤
unfolding find_like remove_like count_like
unlike_post_or_comment user_id post_id comment_id =
    catch_all not_found_or_bad "Failed to unlike post/comment" do
      throw_if (not (is_some post_id) && not (is_some comment_id))
          (bad_request "Either postId or commentId must be provided")
      found ← find_like user_id post_id comment_id
      like ← or_throw found (not_found "Like not found")
      remove_like like
      count_like decr post_id comment_id
