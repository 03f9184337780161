-- ===== src/Posts/Comments/Writes.antt =====
-- The counters of comments and replies under `createComment`.
use Prim.Native.String.{String}
use enix_backend.Base.{ℕ, ◌≡◌, sym, subst, not, Option}
use enix_backend.Posts.Entities.{Post, Comment}
use enix_backend.Posts.Db.{
  Action, ◌>>◌, Db, Tables, final, after, get_or_set_user, throw_if, transaction,
}
use enix_backend.Posts.Repo.{need_post}
use enix_backend.Posts.Keeps.{
  Ensures, after-Ensures, Keeps-Ensures, caught-Ensures, transaction-Ensures, ThrowsBack-Ensures,
  need_post-Keeps, get_or_set_user-Keeps, throw_if-Keeps, invalidate-Keeps,
}
use enix_backend.Posts.Comments.{
  write_comment, comment_on, create_comment, comment_tags, known_errors,
}
use enix_backend.Posts.Comments.Counted.{HasCountedComments}
use enix_backend.Posts.Comments.Atomic.{create_comment-ThrowsBack, disabled}
use enix_backend.Posts.Comments.Steps.{write_comment-Ensures}

module _ (sanitize : String → String) (user post : ℕ) (content : String) (parent : Option ℕ) where
  comment_on-Ensures :
      (db : Db)
      → HasCountedComments db.tables
      → Ensures (λ _ u. HasCountedComments u) (comment_on sanitize user post content parent db)
  unfolding comment_on
  comment_on-Ensures db h =
      after-Ensures (λ _ u. u ≡ db.tables) _ (get_or_set_user user db) _
        (Keeps-Ensures db.tables (get_or_set_user user db) (get_or_set_user-Keeps user db))
        λ _ db1 e1.
          after-Ensures (λ _ u. HasCountedComments u) _
            (transaction (write_comment (sanitize content) post user parent) db1) _
            (transaction-Ensures (λ _ u. HasCountedComments u)
              (write_comment (sanitize content) post user parent) db1
              (write_comment-Ensures (sanitize content) post user parent db1
                (subst HasCountedComments (sym e1) h)))
            λ c db2 h2.
              subst HasCountedComments (sym (invalidate-Keeps (comment_tags c.id post) db2)) h2

  abbrev Counted : Comment → Tables → Type 0
  Counted _ u = HasCountedComments u

  allowed_comment : Post → Action Comment
  allowed_comment p =
      throw_if (not p.allow_comments) disabled >> comment_on sanitize user post content parent

  allowed_comment-Ensures :
      (p : Post) (db : Db) → HasCountedComments db.tables → Ensures Counted (allowed_comment p db)
  unfolding allowed_comment
  allowed_comment-Ensures p db h =
      after-Ensures (λ _ u. u ≡ db.tables) Counted (throw_if (not p.allow_comments) disabled db)
        (λ _. comment_on sanitize user post content parent)
        (Keeps-Ensures db.tables _ (throw_if-Keeps (not p.allow_comments) disabled db))
        (λ _ db' e. comment_on-Ensures db' (subst HasCountedComments (sym e) h))

  create_comment-Ensures :
      (db : Db)
      → HasCountedComments db.tables
      → Ensures Counted (create_comment sanitize user post content parent db)
  unfolding create_comment allowed_comment
  create_comment-Ensures db h =
      caught-Ensures Counted known_errors "Failed to create comment"
        (after (need_post post db) allowed_comment)
        (after-Ensures (λ _ u. u ≡ db.tables) Counted (need_post post db) allowed_comment
          (Keeps-Ensures db.tables (need_post post db) (need_post-Keeps post db))
          (λ p db' e. allowed_comment-Ensures p db' (subst HasCountedComments (sym e) h)))

  -- Creating a comment, or a reply to one, keeps the comment count of every post and the reply count
  -- of every comment equal to the numbers of their rows, whether it returns or throws and whichever
  -- calls of the database or of Redis fail.
  pub create_comment-counted :
      (db : Db)
      → HasCountedComments db.tables
      → HasCountedComments (final (create_comment sanitize user post content parent db)).tables
  create_comment-counted db h =
      ThrowsBack-Ensures HasCountedComments db.tables
        (create_comment sanitize user post content parent db)
        (create_comment-ThrowsBack sanitize user post content parent db)
        (create_comment-Ensures db h) h
