-- ===== src/Posts/Comments/Counted.antt =====
-- The counts of comments on posts, and of replies on comments.
use enix_backend.Base.{
  ℕ, suc, pos, incr, ◌<◌, ◌≡◌, refl, Bool, false, Option, none, some, List, [], ◌∷◌, ◌++◌, arith,
  All, All-append, count, is_id,
}
use enix_backend.Base.Rows.{
  by_key, HasKeys, append-HasKeys, update_where-HasKeys, All-map, All-update_where, count-append,
  count-update_where, count-eq-zero,
}
use enix_backend.Base.Counter.{Counter, bumped, IsCounted, IsCounted-append, refers}
use enix_backend.Posts.Entities.{Post, Comment}
use enix_backend.Posts.Db.{Tables}
use enix_backend.Posts.Comments.{post_comments, comment_replies}

abbrev pub post_counter : Counter Post
post_counter = record {
  key = λ p. p.id;
  get = λ p. p.comments_count;
  bump = post_comments;
  get-bump = λ f p. refl;
  key-bump = λ f p. refl;
}

abbrev pub reply_counter : Counter Comment
reply_counter = record {
  key = λ c. c.id;
  get = λ c. c.replies_count;
  bump = comment_replies;
  get-bump = λ f c. refl;
  key-bump = λ f c. refl;
}

abbrev pub comment_key : Comment → ℕ
comment_key c = c.id

abbrev pub commented : Comment → Option ℕ
commented c = some c.post_id

abbrev pub answered : Comment → Option ℕ
answered c = c.parent_comment_id

abbrev pub IsBelow : ℕ → Option ℕ → Type 0
IsBelow next none = Unit
IsBelow next (some k) = k < next

-- On the tables of posts and comments, and the next identifier.
pub record CommentsCounted (ps : List Post) (cs : List Comment) (next : ℕ) : Type 0 where
  pub on_posts : IsCounted post_counter commented ps cs
  pub on_comments : IsCounted reply_counter answered cs cs
  pub keys : HasKeys comment_key cs
  pub fresh : All (λ c. c.id < next) cs
  pub parents : All (λ c. IsBelow next c.parent_comment_id) cs

abbrev pub HasCountedComments : Tables → Type 0
HasCountedComments t = CommentsCounted t.posts t.comments t.next_id

-- A change of a reply count changes nothing else that is counted.
count-bumped :
    (p : Comment → Bool) (o : Option ℕ) (cs : List Comment) (c : Comment)
    → ((x : Comment) → p (comment_replies incr x) ≡ p x)
    → count p (bumped reply_counter incr o cs ++ c ∷ []) ≡ count p (cs ++ c ∷ [])
count-bumped p none cs c same = refl
count-bumped p (some k) cs c same =
    rw (count-append, count-append)
      (ground (arith, count-update_where p (by_key comment_key k) (comment_replies incr) cs same))

All-bumped :
    (P : Comment → Type 0) (o : Option ℕ) (cs : List Comment)
    → ((x : Comment) → P x → P (comment_replies incr x))
    → All P cs
    → All P (bumped reply_counter incr o cs)
All-bumped P none cs keep h = h
All-bumped P (some k) cs keep h =
    All-update_where P P (by_key comment_key k) (comment_replies incr) cs (λ x p _. keep x p)
      (λ x p _. p) h

bumped-HasKeys :
    (o : Option ℕ) (cs : List Comment)
    → HasKeys comment_key cs
    → HasKeys comment_key (bumped reply_counter incr o cs)
bumped-HasKeys none cs h = h
bumped-HasKeys (some k) cs h =
    update_where-HasKeys comment_key (by_key comment_key k) (comment_replies incr) cs (λ x. refl) h

module _ {ps : List Post} {cs : List Comment} {next : ℕ} (h : CommentsCounted ps cs next)
    (c : Comment) (new : c.id ≡ next) (zero_replies : c.replies_count ≡ pos 0)
    (below : IsBelow next c.parent_comment_id) where
  abbrev others : List Comment
  others = bumped reply_counter incr c.parent_comment_id cs

  not_answered : (o : Option ℕ) → IsBelow next o → is_id o c.id ≡ false
  not_answered none b = refl
  not_answered (some k) b = ground arith

  no_replies : count (refers reply_counter answered c.id) (cs ++ c ∷ []) ≡ 0
  no_replies = rw count-append (
      ground (
        arith,
        not_answered c.parent_comment_id below,
        count-eq-zero (refers reply_counter answered c.id) cs
            (All-map _ _ cs (λ x b. not_answered x.parent_comment_id b) h.parents),
      ))

  new_on_posts :
      IsCounted post_counter commented
        (bumped post_counter incr (some c.post_id) ps)
        (others ++ c ∷ [])
  new_on_posts =
      All-map _ _ (bumped post_counter incr (some c.post_id) ps)
        (λ p e.
          rw
            (count-bumped (refers post_counter commented p.id) c.parent_comment_id cs c (λ x. refl))
            e)
        (IsCounted-append post_counter commented ps cs c h.on_posts)

  new_on_comments : IsCounted reply_counter answered (others ++ c ∷ []) (others ++ c ∷ [])
  new_on_comments =
      All-append _ others
        (All-map _ _ others
          (λ x e.
            rw
              (count-bumped (refers reply_counter answered x.id) c.parent_comment_id cs c
                (λ y. refl))
              e)
          (IsCounted-append reply_counter answered cs cs c h.on_comments))
        (rw
          (
            count-bumped (refers reply_counter answered c.id) c.parent_comment_id cs c (λ y. refl),
            no_replies,
          )
          zero_replies)

  later : (o : Option ℕ) → IsBelow next o → IsBelow (suc next) o
  later none b = tt
  later (some k) b = omega arith

  pub CommentsCounted-append :
      CommentsCounted (bumped post_counter incr (some c.post_id) ps) (others ++ c ∷ []) (suc next)
  CommentsCounted-append = record {
    on_posts = new_on_posts;
    on_comments = new_on_comments;
    keys = append-HasKeys comment_key others c (bumped-HasKeys c.parent_comment_id cs h.keys) (
        All-bumped _ c.parent_comment_id cs (λ x b. b)
          (All-map _ _ cs (λ x b. omega arith) h.fresh));
    fresh =
        All-append _ others
          (All-bumped _ c.parent_comment_id cs (λ x b. b)
            (All-map _ _ cs (λ x b. omega arith) h.fresh))
          (omega arith);
    parents =
        All-append _ others
          (All-bumped _ c.parent_comment_id cs (λ x b. b)
            (All-map _ _ cs (λ x b. later x.parent_comment_id b) h.parents))
          (later c.parent_comment_id below);
  }
