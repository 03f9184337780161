-- ===== src/Posts/Owner/Deleted.antt =====
-- The rows that `deletePost` leaves.
use enix_backend.Base.{
  ℕ, ◌≡◌, ◌≢◌, refl, inl, inr, Bool, true, Bool-cases, not, Option, some, List, [], ◌∷◌, arith,
  ==_refl, keep, All,
}
use enix_backend.Posts.Entities.{Post, Comment, Like, Share, Bookmark, Report, Reaction}
use enix_backend.Posts.Db.{Db, Tables, contains}
use enix_backend.Posts.Comments.{is_dead}
use enix_backend.Posts.Owner.{delete_posts, post_thread, delete_rows, comment_thread}

-- No row is that post, and no row refers to it.
pub record IsForgotten (post : ℕ) (t : Tables) : Type 0 where
  pub posts : All (λ (p : Post). p.id ≢ post) t.posts
  pub comments : All (λ (c : Comment). c.post_id ≢ post) t.comments
  pub likes : All (λ (l : Like). l.post_id ≢ some post) t.likes
  pub shares : All (λ (s : Share). s.post_id ≢ post) t.shares
  pub bookmarks : All (λ (b : Bookmark). b.post_id ≢ post) t.bookmarks
  pub reports : All (λ (r : Report). r.post_id ≢ post) t.reports
  pub reactions : All (λ (r : Reaction). r.post_id ≢ some post) t.reactions

kept_only :
    {A : Type 0} (p : A → Bool) (Q : A → Type 0) (xs : List A)
    → ((x : A) → p x ≡ true → Q x)
    → All Q (keep p xs)
kept_only p Q [] h = tt
kept_only p Q (x ∷ xs) h = elim (Bool-cases (p x)) [
  | inl stays ↦ rw stays (h x stays, kept_only p Q xs h)
  | inr goes ↦ rw goes (kept_only p Q xs h)
]

post_thread-contains :
    (k : ℕ) (dead : List ℕ) (ps : List Post)
    → contains k dead ≡ true
    → contains k (post_thread dead ps) ≡ true
unfolding post_thread
post_thread-contains k dead [] h = h
post_thread-contains k dead (p ∷ ps) h = elim (Bool-cases (is_dead p.parent_post_id dead)) [
  | inl dies ↦ rw dies (post_thread-contains k (p.id ∷ dead) ps (ground (arith, h)))
  | inr lives ↦ rw lives (post_thread-contains k dead ps h)
]

module _ (post : ℕ) (posts comments : List ℕ) (t : Tables) (dead : contains post posts ≡ true) where
  apart : (k : ℕ) → not (contains k posts) ≡ true → k ≢ post
  apart k h = λ e. let d : contains k posts ≡ true = rw e dead in ground (arith, d)

  apart_option : (o : Option ℕ) → not (is_dead o posts) ≡ true → o ≢ some post
  apart_option o h = λ e. let d : is_dead o posts ≡ true = rw e dead in ground (arith, d)

  delete_rows-IsForgotten : IsForgotten post (delete_rows posts comments t)
  delete_rows-IsForgotten = record {
    posts = kept_only _ _ t.posts (λ p h. apart p.id h);
    comments = kept_only _ _ t.comments (λ c h. apart c.post_id (ground (arith, h)));
    likes = kept_only _ _ t.likes (λ l h. apart_option l.post_id (ground (arith, h)));
    shares = kept_only _ _ t.shares (λ s h. apart s.post_id h);
    bookmarks = kept_only _ _ t.bookmarks (λ b h. apart b.post_id h);
    reports = kept_only _ _ t.reports (λ r h. apart r.post_id h);
    reactions = kept_only _ _ t.reactions (λ r h. apart_option r.post_id (ground (arith, h)));
  }

pub remove-IsForgotten :
    (post : ℕ) (t : Tables) → IsForgotten post (delete_posts (post_thread (post ∷ []) t.posts) t)
unfolding delete_posts
remove-IsForgotten post t =
    let dead : List ℕ = post_thread (post ∷ []) t.posts in
    delete_rows-IsForgotten post dead (comment_thread dead [] t.comments) t
      (post_thread-contains post (post ∷ []) t.posts (rw (==_refl post) refl))
