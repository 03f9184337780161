-- ===== src/Posts/Tests/Paged.antt =====
-- The theorem on listings at concrete tables.
use enix_backend.Base.{ℕ, ◌≡◌, refl, true, none, some, [], ◌∷◌, arith, length, keep, map}
use enix_backend.Paging.{PaginationDto, Sorting, total_pages, safe_sort_by, is_ascending}
use enix_backend.Paging.Cover.{at_page}
use enix_backend.Posts.Entities.{Post}
use enix_backend.Posts.Db.{Db, calm}
use enix_backend.Posts.Repo.{post_id_of}
use enix_backend.Posts.Listings.{find_all, is_listed, on_post, post_fields}
use enix_backend.Posts.Listings.Shown.{shown}
use enix_backend.Posts.Listings.Pages.{all_pages, total_pages_of, find_all-pages}
use enix_backend.Posts.Tests.Samples.{a_post, with_faults}

-- three posts, one of which is a draft
abbrev three : Db
three = record (with_faults []) {
  tables = record (with_faults []).tables {
    posts = a_post ∷ record a_post { id = 4; is_draft = true } ∷ record a_post { id = 5 } ∷ [];
  };
}

abbrev as_stored : Sorting Post
as_stored field up rows = rows

abbrev defaults : PaginationDto
defaults = record { page = none; limit = none; sort_by = none; sort_order = none }

find_all-pages_example :
    (all_pages as_stored
        (λ field up rows p. refl)
        1
        (omega arith)
        (some 2)
        three
        (λ d. find_all as_stored d (some 2) (calm three))
        defaults
        (length (keep is_listed three.posts))
      ≡ map (shown post_id_of on_post (some 2) three.likes) (
          as_stored
            (safe_sort_by post_fields defaults)
            (is_ascending "DESC" defaults)
            (keep is_listed three.posts)))
    × ((k : ℕ)
        → total_pages_of (find_all as_stored (at_page k 1 defaults) (some 2) (calm three))
          ≡ total_pages (length (keep is_listed three.posts)) 1)
find_all-pages_example =
    find_all-pages as_stored (λ field up rows p. refl) 1 (omega arith) (some 2) three defaults
