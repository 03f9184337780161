-- ===== src/Posts/Listings/Kept.antt =====
-- The listing of bookmarks: getBookmarkedPosts.
use enix_backend.Base.{ℕ, false, Option, none, some, List, [], ◌∷◌, map, keep, length, find?, ◌==◌}
use enix_backend.Base.Rows.{by_key}
use enix_backend.Http.{failure}
use enix_backend.Paging.{PaginationDto, PaginationResponse, Sorting, meta_of, slice}
use enix_backend.Posts.Listings.{on_post, find_likes, with_likes, none_known}
use enix_backend.Posts.Entities.{Post, Bookmark}
use enix_backend.Posts.Db.{Action, io, gets, pure, or_throw, ◌>>=◌, ◌>>◌, catch_all}
use enix_backend.Posts.Repo.{post_id_of}

abbrev and_more : Option Post → Option (List Post) → Option (List Post)
and_more none rest = none
and_more (some p) none = none
and_more (some p) (some ps) = some (p ∷ ps)

-- The post of each bookmark; a bookmark without its post would make `p.id` throw.
abbrev bookmarked : List Bookmark → List Post → Option (List Post)
bookmarked [] posts = some []
bookmarked (b ∷ bs) posts =
    and_more (find? (by_key post_id_of b.post_id) posts) (bookmarked bs posts)

unfoldable pub get_bookmarked_posts :
    Sorting Bookmark → ℕ → PaginationDto → Action (PaginationResponse Post)
unfolding find_likes
get_bookmarked_posts sorting user_id dto = catch_all none_known "Failed to get bookmarked posts" do
  io
  found ← gets (λ db. keep (λ (b : Bookmark). b.user_id == user_id) db.bookmarks)
  joined ← gets (λ db. bookmarked (slice dto (sorting "dateCreated" false found)) db.posts)
  posts ← or_throw joined failure
  liked ← find_likes on_post (some user_id) (map post_id_of posts)
  pure (record { items = with_likes post_id_of liked posts; meta = meta_of dto (length found) })
