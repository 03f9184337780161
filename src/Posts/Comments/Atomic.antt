-- ===== src/Posts/Comments/Atomic.antt =====
-- `createComment` when it throws.
use Prim.Native.String.{String}
use enix_backend.Base.{ℕ, ◌≡◌, ◌∙◌, subst, Option, not}
use enix_backend.Http.{Error, forbidden}
use enix_backend.Posts.Db.{Db, Tables, threw, get_or_set_user, transaction, throw_if}
use enix_backend.Posts.Repo.{need_post}
use enix_backend.Posts.Keeps.{
  ThrowsBack, after-ThrowsBack, then-ThrowsBack, transaction-ThrowsBack, caught-ThrowsBack,
  need_post-Keeps, get_or_set_user-Keeps, throw_if-Keeps,
}
use enix_backend.Posts.Comments.{create_comment, comment_on, write_comment, known_errors}

abbrev pub disabled : Error
disabled = forbidden "Comments are disabled for this post"

module _ (sanitize : String → String) (user post : ℕ) (content : String) (parent : Option ℕ) where
  comment_on-ThrowsBack :
      (t : Tables) (db : Db)
      → db.tables ≡ t
      → ThrowsBack t (comment_on sanitize user post content parent db)
  unfolding comment_on
  comment_on-ThrowsBack t db e =
      after-ThrowsBack t (get_or_set_user user db) _ (get_or_set_user-Keeps user db ∙ e) λ _ db' e'.
        then-ThrowsBack t (transaction (write_comment (sanitize content) post user parent) db') _
          (subst
            (λ u.
              ThrowsBack u (transaction (write_comment (sanitize content) post user parent) db'))
            e' (transaction-ThrowsBack (write_comment (sanitize content) post user parent) db'))
          (λ _ _. tt)

  pub create_comment-ThrowsBack :
      (db : Db) → ThrowsBack db.tables (create_comment sanitize user post content parent db)
  unfolding create_comment
  create_comment-ThrowsBack db =
      caught-ThrowsBack db.tables known_errors "Failed to create comment" _ (
        after-ThrowsBack db.tables (need_post post db) _ (need_post-Keeps post db) λ p db' e'.
          after-ThrowsBack db.tables (throw_if (not p.allow_comments) disabled db') _
            (throw_if-Keeps (not p.allow_comments) disabled db' ∙ e')
            λ _ db'' e''. comment_on-ThrowsBack db.tables db'' e'')

  -- If creating a comment throws, whatever the reason and whichever calls failed, then no table has
  -- changed: neither the comments nor the counts of the post and of the parent comment.
  pub create_comment_atomic :
      (db db' : Db) (e : Error)
      → create_comment sanitize user post content parent db ≡ threw e db'
      → db'.tables ≡ db.tables
  create_comment_atomic db db' e thrown =
      subst (ThrowsBack db.tables) thrown (create_comment-ThrowsBack db)
