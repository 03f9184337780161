-- ===== src/Follows/Listings/Pages.antt =====
-- The pages of the listings of follows against a description that knows none.
use enix_backend.Base.{
  ℕ, ◌<◌, ◌≡◌, refl, ap, false, Option, some, List, [], map, length, arith, ◌==◌,
}
use Prim.Native.String.{String}
use enix_backend.Http.{Result, ok, err}
use enix_backend.Effects.{result}
use enix_backend.Paging.{PaginationDto, slice, safe_sort_by, is_ascending, total_pages, meta_of}
use enix_backend.Paging.Cover.{at_page, pages_from, IsSorting, pages-sorted}
use enix_backend.Follows.{World, Person, find_person}
use enix_backend.Follows.Listings.{
  Listed, ListedPage, Tools, in_order, following_rows, get_following, follower_rows, get_followers,
  sort_fields,
}
use enix_backend.Follows.Listings.Told.{
  shown_following, shown_follower, listed_following-right, listed_followers-right,
}

abbrev pub items_of : Result ListedPage → List Listed
items_of (ok r) = r.items
items_of (err e) = []

-- the number of pages that an answer announces
abbrev pub announced : Result ListedPage → ℕ
announced (ok r) = r.meta.total_pages
announced (err e) = 0

-- the pages of a listing, from the first to the last of so many rows
abbrev pub all_pages : (PaginationDto → Result ListedPage) → ℕ → PaginationDto → ℕ → List Listed
all_pages listing limit dto total =
    pages_from (λ k. items_of (listing (at_page k limit dto))) 1 (total_pages total limit)

module _ (tools : Tools) (w : World) (user : ℕ) (reader : Option ℕ) (search : Option String)
    {p : Person} (known : find_person user w ≡ some p) where
  get_following-shown :
      (dto : PaginationDto)
      → result (get_following tools user reader search dto w)
        ≡ ok (record {
          items =
              map
                (shown_following w user reader)
                (slice dto (in_order tools dto (following_rows tools user search w)));
          meta = meta_of dto (length (following_rows tools user search w));
        })
  unfolding get_following
  get_following-shown dto = rw known (
      rw
        (listed_following-right w user reader
          (slice dto (in_order tools dto (following_rows tools user search w))))
        refl)

  get_followers-shown :
      (dto : PaginationDto)
      → result (get_followers tools user reader search dto w)
        ≡ ok (record {
          items =
              map
                (shown_follower w reader)
                (slice dto (in_order tools dto (follower_rows tools user search w)));
          meta = meta_of dto (length (follower_rows tools user search w));
        })
  unfolding get_followers
  get_followers-shown dto = rw known (
      rw
        (listed_followers-right w reader
          (slice dto (in_order tools dto (follower_rows tools user search w))))
        refl)

  module _ (permutes : IsSorting tools.sorting) (limit : ℕ) (pos : 0 < limit)
      (dto : PaginationDto) where
    -- If the user is there, ORDER BY neither loses nor adds rows and the limit is not zero, then the
    -- pages of getFollowing put together, from the first to the last, are all users that he follows
    -- and that the search lets pass, in order, each with what asking for that user alone tells: that
    -- he is followed, for the user's own list whether he follows back, and for a reader who is known
    -- the number of his follows by users whom the reader follows. The pages of getFollowers put
    -- together are likewise all followers, with whether the reader follows each and that same
    -- number. Every page announces the number of pages.
    pub follow_lists-pages :
        (all_pages
            (λ d. result (get_following tools user reader search d w))
            limit
            dto
            (length (following_rows tools user search w))
          ≡ map
              (shown_following w user reader)
              (in_order tools dto (following_rows tools user search w)))
        × (all_pages
              (λ d. result (get_followers tools user reader search d w))
              limit
              dto
              (length (follower_rows tools user search w))
            ≡ map
                (shown_follower w reader)
                (in_order tools dto (follower_rows tools user search w)))
        × ((k : ℕ)
            → (announced (result (get_following tools user reader search (at_page k limit dto) w))
                ≡ total_pages (length (following_rows tools user search w)) limit)
              × (announced (result (get_followers tools user reader search (at_page k limit dto) w))
                  ≡ total_pages (length (follower_rows tools user search w)) limit))
    follow_lists-pages =
        let field = safe_sort_by sort_fields dto in
        let up = is_ascending "DESC" dto in
        let given : (limit == 0) ≡ false = ground arith in
        (
          pages-sorted tools.sorting permutes limit pos dto field up
              (following_rows tools user search w) (shown_following w user reader) _
              (λ k. ap items_of (get_following-shown (at_page k limit dto))),
          pages-sorted tools.sorting permutes limit pos dto field up
              (follower_rows tools user search w) (shown_follower w reader) _
              (λ k. ap items_of (get_followers-shown (at_page k limit dto))),
          λ k. (
            rw (get_following-shown (at_page k limit dto)) (rw given refl),
            rw (get_followers-shown (at_page k limit dto)) (rw given refl),
          ),
        )
