-- ===== src/Posts/Collections.antt =====
-- `createCollection`. The text functions that clean what users write are arguments. The relation between
-- collections and posts is left out: neither entity declares the table that would hold it.
use Prim.Native.String.{String}
use enix_backend.Base.{ℕ, suc, pos, Bool, false, Option, none, some, [], ◌∷◌, ◌++◌}
use enix_backend.Http.{Error}
use enix_backend.Posts.Entities.{Collection}
use enix_backend.Posts.Db.{Action, io, pure, write, ◌>>◌, catch_all}
use enix_backend.Posts.Engage.{cleaned}

abbrev no_errors : Error → Bool
no_errors e = false

unfoldable pub create_collection :
    (String → String)
    → (String → String)
    → ℕ
    → String
    → Option String
    → Option Bool
    → Option String
    → Action Collection
unfolding io
create_collection sanitize sanitize_url user_id name description is_public cover_image =
    catch_all no_errors "Failed to create collection" (
      io >> λ db.
      let collection : Collection = record {
        id = db.next_id;
        user_id = user_id;
        name = sanitize name;
        description = cleaned sanitize description;
        is_public = given is_public;
        cover_image = cleaned sanitize_url cover_image;
        posts_count = pos 0;
      } in
      (write (λ t. record t {
        collections = t.collections ++ collection ∷ [];
        next_id = suc t.next_id;
      })
          >> pure collection)
        db)
  where
    given : Option Bool → Bool
    given none = false
    given (some b) = b
