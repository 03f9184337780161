-- ===== src/Posts/Listings/Pages.antt =====
-- The listings against a description that knows no pages.
use enix_backend.Base.{
  ℕ, ◌<◌, ◌≡◌, refl, ap, Bool, false, Option, List, [], map, arith, length, keep, ◌==◌,
}
use enix_backend.Paging.{
  PaginationDto, PaginationResponse, Sorting, meta_of, slice, safe_sort_by, is_ascending,
  total_pages,
}
use enix_backend.Paging.Cover.{at_page, pages_from, IsSorting, pages-sorted}
use enix_backend.Posts.Entities.{Post}
use enix_backend.Posts.Db.{Db, Outcome, returned, threw, calm}
use enix_backend.Posts.Repo.{post_id_of}
use enix_backend.Posts.Listings.Shown.{shown, list_page-shown}
use enix_backend.Posts.Listings.{on_post, find_all, is_listed, post_fields}

-- the rows of an answer
abbrev pub items_of : {A : Type 0} → Outcome (PaginationResponse A) → List (A × Bool)
items_of (returned r db) = r.items
items_of (threw e db) = []

-- the number of pages that an answer announces
abbrev pub total_pages_of : Outcome (PaginationResponse Post) → ℕ
total_pages_of (returned r db) = r.meta.total_pages
total_pages_of (threw e db) = 0

module _ (sorting : Sorting Post) (permutes : IsSorting sorting) (limit : ℕ) (pos : 0 < limit)
    (user : Option ℕ) (db : Db) where
  -- All pages of a listing, from the first to the last that it announces.
  abbrev pub all_pages :
      (PaginationDto → Outcome (PaginationResponse Post)) → PaginationDto → ℕ → List (Post × Bool)
  all_pages listing dto total =
      pages_from (λ k. items_of (listing (at_page k limit dto))) 1 (total_pages total limit)

  find_all-shown :
      (dto : PaginationDto)
      → find_all sorting dto user (calm db)
        ≡ returned
            (record {
              items = map (shown post_id_of on_post user db.likes) (
                  slice dto (
                    sorting
                      (safe_sort_by post_fields dto)
                      (is_ascending "DESC" dto)
                      (keep is_listed db.posts)));
              meta = meta_of dto (length (keep is_listed db.posts));
            })
            (calm db)
  unfolding find_all
  find_all-shown dto =
      rw
        (list_page-shown post_id_of on_post db user dto
          (sorting (safe_sort_by post_fields dto) (is_ascending "DESC" dto))
          (λ d. keep is_listed d.posts))
        refl

  -- If no call fails, ORDER BY neither loses nor adds rows and the limit is not zero, then the pages
  -- of findAll, from the first to the last that every page announces, put together are all public
  -- posts that are neither drafts nor archived nor answers, in order, each once, with the flag that
  -- tells whether the reader likes it: reading page by page, with the likes of a page at once, gives
  -- what asking for everything and for each post would.
  pub find_all-pages :
      (dto : PaginationDto)
      → (all_pages (λ d. find_all sorting d user (calm db)) dto (length (keep is_listed db.posts))
          ≡ map (shown post_id_of on_post user db.likes) (
              sorting
                (safe_sort_by post_fields dto)
                (is_ascending "DESC" dto)
                (keep is_listed db.posts)))
        × ((k : ℕ)
            → total_pages_of (find_all sorting (at_page k limit dto) user (calm db))
              ≡ total_pages (length (keep is_listed db.posts)) limit)
  find_all-pages dto =
      let given : (limit == 0) ≡ false = ground arith in
      (
        pages-sorted sorting permutes limit pos dto (safe_sort_by post_fields dto)
            (is_ascending "DESC" dto) (keep is_listed db.posts)
            (shown post_id_of on_post user db.likes) _
            (λ k. ap items_of (find_all-shown (at_page k limit dto))),
        λ k. rw (find_all-shown (at_page k limit dto)) (rw given refl),
      )
