-- ===== src/Posts/Owner/Rights.antt =====
-- Who may call the operations of a post's author.
use Prim.Native.String.{String}
use enix_backend.Base.{
  ℕ, ◌≡◌, ◌≢◌, refl, ◌⊎◌, inl, inr, Bool, true, false, some, List, [], ◌∷◌, find?, arith, ◌==◌,
}
use enix_backend.Base.Rows.{by_key}
use enix_backend.Http.{Error, failure, forbidden}
use enix_backend.Posts.Entities.{Post}
use enix_backend.Posts.Db.{Db, Tables, Outcome, returned, threw, io, take_fault}
use enix_backend.Posts.Repo.{post_id_of, need_post, find_post}
use enix_backend.Posts.Create.{Tools, UpdatePostDto, edit_post}
use enix_backend.Posts.Owner.{
  own_post, toggle_pin_post, archive_post, unarchive_post, schedule_post, delete_post,
}

-- A call that throws, and leaves the tables as they are.
abbrev pub IsRefused : {A : Type 0} → Tables → Outcome A → Type 0
IsRefused t (returned a db) = true ≡ false
IsRefused t (threw e db) = db.tables ≡ t

io_cases :
    (db : Db)
    → ((fs : List Bool) × (io db ≡ threw failure (record db { faults = fs })))
      ⊎ ((fs : List Bool) × (io db ≡ returned tt (record db { faults = fs })))
unfolding io take_fault
io_cases db = cases db.faults
  where
    cases :
        (l : List Bool)
        → ((fs : List Bool) × (take_fault l db ≡ threw failure (record db { faults = fs })))
          ⊎ ((fs : List Bool) × (take_fault l db ≡ returned tt (record db { faults = fs })))
    cases [] = inr (db.faults, refl)
    cases (false ∷ fs) = inr (fs, refl)
    cases (true ∷ fs) = inl (fs, refl)

module _ (user post : ℕ) (db : Db) (p : Post)
    (found : find? (by_key post_id_of post) db.posts ≡ some p) (foreign : p.user_id ≢ user) where
  own_post-foreign :
      (message : String)
      → (e : Error) × (db' : Db) × (own_post user post message db ≡ threw e db')
        × (db'.tables ≡ db.tables)
  unfolding own_post
  own_post-foreign message = elim (io_cases db) [
    | inl (fs, e) ↦ (failure, record db { faults = fs }, ground (arith, e), refl)
    | inr (fs, e) ↦ (forbidden message, record db { faults = fs }, ground (arith, e, found), refl)
  ]

  edit_post-IsRefused :
      (tools : Tools) (dto : UpdatePostDto) → IsRefused db.tables (edit_post tools user post dto db)
  unfolding edit_post need_post find_post
  edit_post-IsRefused tools dto =
      let other : (p.user_id == user) ≡ false = ground (arith, foreign) in
      elim (io_cases db) [ inl (fs, e) ↦ rw e refl | inr (fs, e) ↦ rw e (rw found (rw other refl)) ]

  -- Of a post that is there, somebody else than its author can neither edit it, nor change whether
  -- it is pinned or archived, nor schedule it, nor delete it: each of these calls throws and leaves
  -- the tables as they are, whichever calls fail.
  pub foreign-IsRefused :
      (is_pinned : Bool) (now date : ℕ)
      → IsRefused db.tables (toggle_pin_post user post is_pinned db)
        × IsRefused db.tables (archive_post user post db)
        × IsRefused db.tables (unarchive_post user post db)
        × IsRefused db.tables (schedule_post now user post date db)
        × IsRefused db.tables (delete_post user post db)
        × ((tools : Tools) (dto : UpdatePostDto)
            → IsRefused db.tables (edit_post tools user post dto db))
  unfolding toggle_pin_post archive_post unarchive_post schedule_post delete_post
  foreign-IsRefused is_pinned now date =
      let (_, _, no_pin, pin_kept) = own_post-foreign "You can only pin/unpin your own posts" in
      let (_, _, no_archive, archive_kept) =
        own_post-foreign "You can only archive your own posts" in
      let (_, _, no_return, return_kept) =
        own_post-foreign "You can only unarchive your own posts" in
      let (_, _, no_date, date_kept) = own_post-foreign "You can only schedule your own posts" in
      let (_, _, no_delete, delete_kept) = own_post-foreign "You can only delete your own posts" in
      (
        rw no_pin pin_kept,
        rw no_archive archive_kept,
        rw no_return return_kept,
        rw no_date date_kept,
        rw no_delete delete_kept,
        edit_post-IsRefused,
      )
