-- ===== src/Posts/Likes/Counted.antt =====
-- The like counters of posts and comments under `likePostOrComment` and `unlikePostOrComment`.
use enix_backend.Base.{
  ℕ, suc, ◌<◌, ◌≡◌, refl, inl, inr, Bool, false, ◌&&◌, Option, none, some, List, [], ◌∷◌, ◌++◌,
  arith, All, All-append, All-find?, find?, incr, decr, is_some, Option-cases,
}
use enix_backend.Base.Rows.{
  HasKeys, append-HasKeys, delete_key, delete_key-HasKeys, All-delete_key, All-map,
}
use enix_backend.Base.Counter.{Counter, bumped, IsCounted, IsCounted-append, IsCounted-delete}
use enix_backend.Posts.Entities.{Post, Comment, Like, LikeType}
use enix_backend.Posts.Db.{Db, calm, final, get_or_set_user, ◌>>◌}
use enix_backend.Posts.Users.{get_or_set_user-calm, final-caught}
use enix_backend.Posts.Likes.{
  like_id, post_likes, comment_likes, like_where, add_like, like_post_or_comment,
  unlike_post_or_comment,
}

abbrev pub post_counter : Counter Post
post_counter = record {
  key = λ p. p.id;
  get = λ p. p.likes_count;
  bump = post_likes;
  get-bump = λ f p. refl;
  key-bump = λ f p. refl;
}

abbrev pub comment_counter : Counter Comment
comment_counter = record {
  key = λ c. c.id;
  get = λ c. c.likes_count;
  bump = comment_likes;
  get-bump = λ f c. refl;
  key-bump = λ f c. refl;
}

abbrev pub liked_post : Like → Option ℕ
liked_post l = l.post_id

abbrev pub liked_comment : Like → Option ℕ
liked_comment l = l.comment_id

-- A like is of a post or of a comment, never of both.
abbrev pub IsOfOne : Like → Type 0
IsOfOne l = (is_some l.post_id && is_some l.comment_id) ≡ false

-- On the tables of posts, comments and likes, and the next identifier.
pub record LikesCounted (ps : List Post) (cs : List Comment) (ls : List Like) (next : ℕ)
    : Type 0 where
  pub on_posts : IsCounted post_counter liked_post ps ls
  pub on_comments : IsCounted comment_counter liked_comment cs ls
  pub keys : HasKeys like_id ls
  pub fresh : All (λ l. l.id < next) ls
  pub of_one : All IsOfOne ls

abbrev pub HasCountedLikes : Db → Type 0
HasCountedLikes db = LikesCounted db.posts db.comments db.likes db.next_id

module _ {ps : List Post} {cs : List Comment} {ls : List Like} {next : ℕ}
    (h : LikesCounted ps cs ls next) where
  LikesCounted-append :
      (l : Like)
      → l.id ≡ next
      → IsOfOne l
      → LikesCounted
          (bumped post_counter incr l.post_id ps)
          (bumped comment_counter incr l.comment_id cs)
          (ls ++ l ∷ [])
          (suc next)
  LikesCounted-append l e one = record {
    on_posts = IsCounted-append post_counter liked_post ps ls l h.on_posts;
    on_comments = IsCounted-append comment_counter liked_comment cs ls l h.on_comments;
    keys = append-HasKeys like_id ls l h.keys (All-map _ _ ls (λ x b. omega arith) h.fresh);
    fresh = All-append _ ls (All-map _ _ ls (λ x b. omega arith) h.fresh) (omega arith);
    of_one = All-append _ ls h.of_one one;
  }

  LikesCounted-delete :
      (q : Like → Bool) (l : Like)
      → find? q ls ≡ some l
      → LikesCounted
          (bumped post_counter decr l.post_id ps)
          (bumped comment_counter decr l.comment_id cs)
          (delete_key like_id l.id ls)
          next
  LikesCounted-delete q l found = record {
    on_posts = IsCounted-delete post_counter liked_post like_id q ps ls l h.keys found h.on_posts;
    on_comments =
        IsCounted-delete comment_counter liked_comment like_id q cs ls l h.keys found h.on_comments;
    keys = delete_key-HasKeys like_id l.id ls h.keys;
    fresh = All-delete_key like_id _ l.id ls h.fresh;
    of_one = All-delete_key like_id _ l.id ls h.of_one;
  }

add_like-counted :
    (user : ℕ) (post_id comment_id : Option ℕ) (db : Db)
    → (is_some post_id && is_some comment_id) ≡ false
    → HasCountedLikes db
    → HasCountedLikes (final (add_like user post_id comment_id (calm db)))
unfolding add_like
add_like-counted user none none db one h =
    let l : Like = record {
      id = db.next_id;
      like_type = LikeType.comment;
      user_id = user;
      post_id = none;
      comment_id = none;
    } in
    ground (arith, LikesCounted-append h l refl refl)
add_like-counted user none (some k) db one h =
    let l : Like = record {
      id = db.next_id;
      like_type = LikeType.comment;
      user_id = user;
      post_id = none;
      comment_id = some k;
    } in
    ground (arith, LikesCounted-append h l refl refl)
add_like-counted user (some k) none db one h =
    let l : Like = record {
      id = db.next_id;
      like_type = LikeType.post;
      user_id = user;
      post_id = some k;
      comment_id = none;
    } in
    ground (arith, LikesCounted-append h l refl refl)
add_like-counted user (some k) (some j) db one h = cc

known_like-counted :
    (user : ℕ) (post_id comment_id : Option ℕ) (db : Db)
    → (is_some post_id && is_some comment_id) ≡ false
    → HasCountedLikes db
    → HasCountedLikes (final ((get_or_set_user user >> add_like user post_id comment_id) (calm db)))
known_like-counted user post_id comment_id db one h = elim (get_or_set_user-calm user db) [
  | inl missing ↦ rw missing h
  | inr (cache, found, _) ↦
      rw found (add_like-counted user post_id comment_id (record db { cached_users = cache }) one h)
]

-- If no call fails, liking a post or a comment keeps the like count of every post and comment equal
-- to the number of its likes, whether the call returns or throws.
pub like-counted :
    (user : ℕ) (post_id comment_id : Option ℕ) (db : Db)
    → HasCountedLikes db
    → HasCountedLikes (final (like_post_or_comment user post_id comment_id (calm db)))
unfolding like_post_or_comment
like-counted user none none db h = h
like-counted user (some k) (some j) db h = h
like-counted user none (some k) db h =
    rw final-caught (known_like-counted user none (some k) db refl h)
like-counted user (some k) none db h =
    rw final-caught (known_like-counted user (some k) none db refl h)

-- If no call fails, taking a like back keeps the like count of every post and comment equal to the
-- number of its likes, whether the call returns or throws.
pub unlike-counted :
    (user : ℕ) (post_id comment_id : Option ℕ) (db : Db)
    → HasCountedLikes db
    → HasCountedLikes (final (unlike_post_or_comment user post_id comment_id (calm db)))
unfolding unlike_post_or_comment
unlike-counted user none none db h = h
unlike-counted user (some k) none db h =
    elim (Option-cases (find? (like_where user (some k) none) db.likes)) [
      | inl missing ↦ ground arith
      | inr (l, found) ↦
          let (one, matched) =
            All-find? IsOfOne (like_where user (some k) none) db.likes h.of_one found in
          ground (arith, LikesCounted-delete h (like_where user (some k) none) l found)
    ]
unlike-counted user none (some k) db h =
    elim (Option-cases (find? (like_where user none (some k)) db.likes)) [
      | inl missing ↦ ground arith
      | inr (l, found) ↦
          let (one, matched) =
            All-find? IsOfOne (like_where user none (some k)) db.likes h.of_one found in
          ground (arith, LikesCounted-delete h (like_where user none (some k)) l found)
    ]
unlike-counted user (some k) (some j) db h =
    elim (Option-cases (find? (like_where user (some k) (some j)) db.likes)) [
      | inl missing ↦ ground arith
      | inr (l, found) ↦
          let (one, matched) =
            All-find? IsOfOne (like_where user (some k) (some j)) db.likes h.of_one found in
          absurd (ground arith)
    ]
