-- ===== src/Posts/Create/RolledBack.antt =====
-- createPostWithFiles when it throws.
use Prim.Native.String.{String}
use enix_backend.Base.{ℕ, suc, ◌≡◌, ⊤, [], ◌∷◌, ◌++◌}
use enix_backend.Effects.{Ended, returned, threw, Call, pure, ◌>>◌}
use enix_backend.Storage.{Names}
use enix_backend.Posts.Entities.{Post}
use enix_backend.Posts.Db.{Db, calm, invalidate}
use enix_backend.Posts.Owner.Deleted.{IsForgotten}
use enix_backend.Posts.Create.{Tools, post_tags}
use enix_backend.Posts.Create.Files.{Site, Uploads, on_db}

-- What throws leaves nothing of that post.
abbrev pub Forgets : {A : Type 0} → ℕ → Ended Site A → Type 0
Forgets post (returned a s) = ⊤
Forgets post (threw e s) = IsForgotten post s.db.tables

-- What throws has left the database alone.
abbrev Leaves : {A : Type 0} → Db → Ended Uploads A → Type 0
Leaves d (returned a u) = ⊤
Leaves d (threw e u) = u.site.db ≡ d

module _ (tools : Tools) (names : Names) (place user_text : String) where
  abbrev saved_db : (ℕ → Post) → Db → Db
  saved_db f d = record (calm d) {
    tables = record d.tables { posts = d.posts ++ f d.next_id ∷ []; next_id = suc d.next_id };
  }

  -- the call that drops cached answers, and the answer
  abbrev concluded : ℕ → Post → Call Site Post
  concluded user_id q = on_db (invalidate (post_tags q.id user_id)) >> pure q
