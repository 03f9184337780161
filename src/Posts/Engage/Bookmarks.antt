-- ===== src/Posts/Engage/Bookmarks.antt =====
-- `unbookmarkPost` after `bookmarkPost`.
use Prim.Native.String.{String}
use enix_backend.Base.{
  ℕ, ◌<◌, ◌≡◌, refl, Bool, true, false, Option, none, some, List, [], ◌∷◌, ◌++◌, ◌==◌, ==_refl,
  arith, find?, All, incr, decr, decr-incr,
}
use enix_backend.Base.Rows.{update_where, by_key, delete_key}
use enix_backend.Http.{ok}
use enix_backend.Posts.Entities.{Post, Bookmark}
use enix_backend.Posts.Db.{Db, calm, final, result}
use enix_backend.Posts.Repo.{post_id_of}
use enix_backend.Posts.Engage.{
  bookmark_post, unbookmark_post, bookmark_where, bookmark_id, post_bookmarks, cleaned,
}

uncounted :
    (k : ℕ) (ps : List Post)
    → update_where
        (by_key post_id_of k)
        (post_bookmarks decr)
        (update_where (by_key post_id_of k) (post_bookmarks incr) ps)
      ≡ ps
unfolding update_where
uncounted k [] = refl
uncounted k (p ∷ ps) = ground (arith, decr-incr p.bookmarks_count, uncounted k ps)

find?-append :
    (p : Bookmark → Bool) (bs : List Bookmark) (b : Bookmark)
    → find? p bs ≡ none
    → p b ≡ true
    → find? p (bs ++ b ∷ []) ≡ some b
find?-append p [] b h e = rw e refl
find?-append p (c ∷ bs) b h e = ground (arith, find?-append p bs b, e)

delete_key-append :
    (b : Bookmark) (bs : List Bookmark)
    → All (λ c. c.id < b.id) bs
    → delete_key bookmark_id b.id (bs ++ b ∷ []) ≡ bs
unfolding delete_key
delete_key-append b [] h = rw (==_refl b.id) refl
delete_key-append b (c ∷ bs) (p, h) =
    let other : (c.id == b.id) ≡ false = ground arith in
    rw other (rw (delete_key-append b bs h) refl)

-- If a post was bookmarked, no call failed and the identifiers of the bookmarks were below the next
-- one, taking the bookmark off again leaves the tables of posts and of bookmarks as they were
-- before, and answers with no error.
pub unbookmark-bookmark :
    (sanitize : String → String) (user post : ℕ) (note : Option String) (db : Db)
    → All (λ b. b.id < db.next_id) db.bookmarks
    → result (bookmark_post sanitize user post note (calm db)) ≡ ok tt
    → let before = final (bookmark_post sanitize user post note (calm db)) in
      (result (unbookmark_post user post before) ≡ ok tt)
      × ((final (unbookmark_post user post before)).posts ≡ db.posts)
      × ((final (unbookmark_post user post before)).bookmarks ≡ db.bookmarks)
unfolding bookmark_post unbookmark_post
unbookmark-bookmark sanitize user post note db fresh done =
    let x : Bookmark = record {
      id = db.next_id;
      user_id = user;
      post_id = post;
      note = cleaned sanitize note;
    } in
    ground (
      arith,
      uncounted post db.posts,
      find?-append (bookmark_where user post) db.bookmarks x,
      delete_key-append x db.bookmarks fresh,
    )
