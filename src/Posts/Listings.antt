-- ===== src/Posts/Listings.antt =====
-- The listings of posts and comments: findAll, findByUserId, findCommentsByPostId,
-- findRepliesByCommentId, getBookmarkedPosts, searchPosts, filterPostsByType.
pub mod Kept
pub mod Shown
pub mod Pages
use Prim.Native.String.{String}
use enix_backend.Base.{
  ℕ, ⊤, Bool, true, false, not, ◌&&◌, ◌||◌, Option, none, some, List, [], ◌∷◌, map, keep, length,
  find?, any, ◌==◌, is_id, is_some, if◌then◌else◌,
}
use enix_backend.Base.Rows.{by_key}
use enix_backend.Http.{Error, failure, not_found, forbidden, is_not_found, is_forbidden}
use enix_backend.Paging.{
  PaginationDto, PaginationMeta, PaginationResponse, Sorting, meta_of, slice, safe_sort_by,
  is_ascending, page_of, limit_of,
}
use enix_backend.Posts.Entities.{Post, PostType, Comment, Like, Bookmark, Collection}
use enix_backend.Posts.Db.{
  Db, Action, io, gets, pure, or_throw, throw_if, ◌>>=◌, ◌>>◌, catch_all, contains,
}
use enix_backend.Posts.Repo.{
  post_id_of, comment_id_of, find_post, need_post, find_comment, need_comment,
}

-- the columns `likes.postId` and `likes.commentId`
abbrev pub on_post : Like → Option ℕ
on_post l = l.post_id

abbrev pub on_comment : Like → Option ℕ
on_comment l = l.comment_id

-- `id IN (ids)` of a column that may be NULL
abbrev pub is_in : Option ℕ → List ℕ → Bool
is_in none ids = false
is_in (some k) ids = contains k ids

-- `likes.map((like) => like.postId).filter((id) => id !== null)`
abbrev pub targets : (Like → Option ℕ) → List Like → List (Option ℕ)
targets target likes = map target likes

abbrev pub has : List (Option ℕ) → ℕ → Bool
has ids k = any (λ o. is_id o k) ids

-- `likeRepository.find({ where: { userId, postId: In(postIds) } })`, for a user and for some rows
unfoldable pub find_likes : (Like → Option ℕ) → Option ℕ → List ℕ → Action (List (Option ℕ))
unfolding io
find_likes target none ids = pure []
find_likes target (some user_id) [] = pure []
find_likes target (some user_id) (k ∷ ids) = do
  io
  gets λ db.
      targets target (keep (λ l. (l.user_id == user_id) && is_in (target l) (k ∷ ids)) db.likes)

module _ {A : Type 0} where
  abbrev pub with_likes : (A → ℕ) → List (Option ℕ) → List A → List (A × Bool)
  with_likes id_of liked rows = map (λ a. (a, has liked (id_of a))) rows

  -- What every listing does with the rows of its table that meet its condition: it reads a page of
  -- them in order and the number of them all, and the reader's likes of that page.
  unfoldable pub list_page :
      (A → ℕ)
      → (Like → Option ℕ)
      → Option ℕ
      → PaginationDto
      → (List A → List A)
      → (Db → List A)
      → Action (PaginationResponse A)
  unfolding find_likes
  list_page id_of target user dto order_by rows = do
    io
    found ← gets rows
    liked ← find_likes target user (map id_of (slice dto (order_by found)))
    pure (record {
      items = with_likes id_of liked (slice dto (order_by found));
      meta = meta_of dto (length found);
    })

abbrev pub none_known : Error → Bool
none_known e = false

abbrev pub post_fields : List String
post_fields = "dateCreated" ∷ "likesCount" ∷ "commentsCount" ∷ "sharesCount" ∷ "viewsCount" ∷ []

abbrev comment_fields : List String
comment_fields = "dateCreated" ∷ "likesCount" ∷ []

abbrev is_top_level : Post → Bool
is_top_level p = not (is_some p.parent_post_id)

-- the conditions of the four listings of posts
abbrev pub is_listed : Post → Bool
is_listed p = p.is_public && (not p.is_draft && (not p.is_archived && is_top_level p))

abbrev pub is_by : ℕ → Option ℕ → Post → Bool
is_by target reader p =
    (p.user_id == target) && (is_top_level p && (p.is_public || is_id reader p.user_id))

abbrev pub is_found : (Post → Bool) → Post → Bool
is_found matches p = p.is_public && (not p.is_draft && (is_top_level p && matches p))

unfoldable pub find_all : Sorting Post → PaginationDto → Option ℕ → Action (PaginationResponse Post)
unfolding list_page
find_all sorting dto user = catch_all none_known "Failed to find posts" (
    list_page post_id_of on_post user dto
      (sorting (safe_sort_by post_fields dto) (is_ascending "DESC" dto))
      (λ db. keep is_listed db.posts))

unfoldable pub find_by_user_id :
    Sorting Post → ℕ → PaginationDto → Option ℕ → Action (PaginationResponse Post)
unfolding list_page
find_by_user_id sorting target dto reader = catch_all is_not_found "Failed to find user posts" do
  io
  known ← gets (λ db. contains target db.users)
  throw_if (not known) (not_found "User not found")
  list_page post_id_of on_post reader dto
      (sorting (safe_sort_by post_fields dto) (is_ascending "DESC" dto))
      (λ db. keep (is_by target reader) db.posts)

abbrev pub is_comment_of : ℕ → Comment → Bool
is_comment_of post_id c = (c.post_id == post_id) && not (is_some c.parent_comment_id)

unfoldable pub find_comments_by_post_id :
    Sorting Comment → ℕ → PaginationDto → Option ℕ → Action (PaginationResponse Comment)
unfolding list_page need_post
find_comments_by_post_id sorting post_id dto user =
    catch_all is_not_found "Failed to find comments" do
      need_post post_id
      list_page comment_id_of on_comment user dto
          (sorting (safe_sort_by comment_fields dto) (is_ascending "DESC" dto))
          (λ db. keep (is_comment_of post_id) db.comments)

abbrev pub is_reply_to : ℕ → Comment → Bool
is_reply_to comment_id c = is_id c.parent_comment_id comment_id

unfoldable pub find_replies_by_comment_id :
    Sorting Comment → ℕ → PaginationDto → Option ℕ → Action (PaginationResponse Comment)
unfolding list_page need_comment
find_replies_by_comment_id sorting comment_id dto user =
    catch_all is_not_found "Failed to find comment replies" do
      need_comment comment_id
      list_page comment_id_of on_comment user dto
          (sorting (safe_sort_by comment_fields dto) (is_ascending "ASC" dto))
          (λ db. keep (is_reply_to comment_id) db.comments)

-- `matches` is LIKE of the search term on the content, the hashtags and the mentions.
unfoldable pub search_posts :
    Sorting Post
    → (String → Post → Bool)
    → String
    → PaginationDto
    → Option ℕ
    → Action (PaginationResponse Post)
unfolding list_page
search_posts sorting matches query dto user = catch_all none_known "Failed to search posts" (
    list_page post_id_of on_post user dto (sorting "dateCreated" false)
      (λ db. keep (is_found (matches query)) db.posts))

abbrev type_code : PostType → ℕ
type_code PostType.plain = 0
type_code PostType.image = 1
type_code PostType.video = 2
type_code PostType.document = 3
type_code PostType.mixed = 4

abbrev pub is_of_type : PostType → Option PostType → Bool
is_of_type t none = false
is_of_type t (some u) = type_code u == type_code t

unfoldable pub filter_posts_by_type :
    Sorting Post → PostType → PaginationDto → Option ℕ → Action (PaginationResponse Post)
unfolding list_page
filter_posts_by_type sorting post_type dto user =
    catch_all none_known "Failed to filter posts by type" (
      list_page post_id_of on_post user dto
        (sorting (safe_sort_by post_fields dto) (is_ascending "DESC" dto))
        (λ db. keep (is_found (λ p. is_of_type post_type p.post_type)) db.posts))
