-- ===== src/Posts/Repo.antt =====
-- The calls of the repositories of posts and comments that several handlers make.
use enix_backend.Base.{ℕ, ⊤, Bool, Option, none, some, find?, ◌||◌, is_id}
use enix_backend.Base.Rows.{update_where, by_key}
use enix_backend.Http.{Error, not_found, is_not_found, is_bad_request, is_forbidden}
use enix_backend.Posts.Entities.{Post, Comment}
use enix_backend.Posts.Db.{Action, io, gets, write, pure, or_throw, ◌>>=◌, ◌>>◌}

abbrev pub post_id_of : Post → ℕ
post_id_of p = p.id

abbrev pub comment_id_of : Comment → ℕ
comment_id_of c = c.id

-- `findOne({ where: { id } })`
unfoldable pub find_post : ℕ → Action (Option Post)
unfolding io
find_post post_id = do io; gets (λ db. find? (by_key post_id_of post_id) db.posts)

unfoldable pub find_comment : ℕ → Action (Option Comment)
unfolding io
find_comment comment_id = do io; gets (λ db. find? (by_key comment_id_of comment_id) db.comments)

-- The post, or `NotFoundException`.
unfoldable pub need_post : ℕ → Action Post
unfolding find_post
need_post post_id = do found ← find_post post_id; or_throw found (not_found "Post not found")

unfoldable pub need_comment : ℕ → Action Comment
unfolding find_comment
need_comment comment_id = do
  found ← find_comment comment_id
  or_throw found (not_found "Comment not found")

-- `increment`, `decrement`, `update` and `save` of a row that is there
unfoldable pub update_post : ℕ → (Post → Post) → Action ⊤
unfolding io
update_post post_id f = do
  io
  write λ t. record t { posts = update_where (by_key post_id_of post_id) f t.posts }

unfoldable pub update_comment : ℕ → (Comment → Comment) → Action ⊤
unfolding io
update_comment comment_id f = do
  io
  write λ t. record t { comments = update_where (by_key comment_id_of comment_id) f t.comments }

-- a step that is made for an identifier that is given
abbrev pub for_some : {A : Type 0} → Option ℕ → (ℕ → Action A) → Action ⊤
for_some none f = pure tt
for_some (some k) f = f k >> pure tt

-- A condition of a `where` that is left out if there is no identifier.
abbrev pub where_id : Option ℕ → Option ℕ → Bool
where_id none column = Bool.true
where_id (some k) column = is_id column k

abbrev pub not_found_or_bad : Error → Bool
not_found_or_bad e = is_not_found e || is_bad_request e

abbrev pub not_found_or_forbidden : Error → Bool
not_found_or_forbidden e = is_not_found e || is_forbidden e
