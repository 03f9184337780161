-- ===== src/Posts/Analytics/Report.antt =====
-- What the answer of getPostAnalytics says of the tables.
use enix_backend.Base.{
  ℕ, zero, suc, ◌+◌, ◌≡◌, refl, subst, ◌∙◌, ==_iff, ℤ, pos, Bool, false, none, some, List, [], ◌∷◌,
  arith, keep, length, count, ◌==◌, is_id, find?, Bool-cases, Option-cases, All-find?, inl, inr,
  ◌⊎◌, if◌then◌else◌,
}
use enix_backend.Base.Rows.{by_key}
use enix_backend.Base.Counter.{IsCounted, refers}
use enix_backend.Http.{not_found, forbidden}
use enix_backend.Posts.Entities.{Post, Reaction, ReactionType}
use enix_backend.Posts.Db.{Db, Outcome, returned, threw, io, take_fault, calm}
use enix_backend.Posts.Repo.{need_post, find_post, post_id_of}
use enix_backend.Posts.Likes.Counted as Likes
use enix_backend.Posts.Comments.Counted as Comments
use enix_backend.Posts.Engage.Counted as Engage
use enix_backend.Posts.Analytics.{
  Analytics, Breakdown, is_type, is_positive, no_reactions, add_one, add_all, total_of,
  get_post_analytics,
}

-- the reactions to a post, and those of one type
abbrev pub reaction_of : ℕ → Reaction → Bool
reaction_of post r = is_id r.post_id post

abbrev pub of_type : ℕ → ReactionType → Reaction → Bool
of_type post t r = if reaction_of post r then is_type t r.reaction_type else false

-- all rows that engage with a post
abbrev pub engagements : ℕ → Db → ℕ
engagements post db =
    count (refers Likes.post_counter Likes.liked_post post) db.likes
    + count (refers Comments.post_counter Comments.commented post) db.comments
    + count (refers Engage.share_counter Engage.shared post) db.shares
    + count (reaction_of post) db.reactions

-- The counters of likes, comments and shares of the posts are the numbers of rows.
pub record HasCounters (db : Db) : Type 0 where
  pub likes : IsCounted Likes.post_counter Likes.liked_post db.posts db.likes
  pub comments : IsCounted Comments.post_counter Comments.commented db.posts db.comments
  pub shares : IsCounted Engage.share_counter Engage.shared db.posts db.shares

module _ {Rate : Type 0} (rate : ℤ → ℤ → Rate) (zero_rate : Rate) where
  -- the rate of a number of engagements, by the views
  abbrev pub rate_of : ℤ → ℕ → Rate
  rate_of (pos (suc n)) k = rate (pos k) (pos (suc n))
  rate_of (pos zero) k = zero_rate
  rate_of (ℤ.negsuc n) k = zero_rate

  abbrev pub IsReport : ℕ → ℕ → Db → Outcome (Analytics Rate) → Type 0
  IsReport user post db (threw e db') =
      (db' ≡ db)
      × (((find? (by_key post_id_of post) db.posts ≡ none) × (e ≡ not_found "Post not found"))
          ⊎ ((p : Post) × (find? (by_key post_id_of post) db.posts ≡ some p)
              × ((p.user_id == user) ≡ false)
              × (e ≡ forbidden "You can only view analytics for your own posts")))
  IsReport user post db (returned a db') =
      (db' ≡ db)
      × (find? (by_key post_id_of post) db.posts ≡ some a.post)
      × (a.post.user_id ≡ user)
      × (a.total_engagements ≡ pos (engagements post db))
      × (a.engagement_rate ≡ rate_of a.post.views_count (engagements post db))
      × ((t : ReactionType) → a.reactions_breakdown t ≡ count (of_type post t) db.reactions)

  add_all-count :
      (post : ℕ) (t : ReactionType) (rs : List Reaction) (b : Breakdown)
      → add_all (keep (reaction_of post) rs) b t ≡ b t + count (of_type post t) rs
  add_all-count post t [] b = omega arith
  add_all-count post t (r ∷ rs) b = elim (Bool-cases (reaction_of post r)) [
    | inr other ↦ rw other (add_all-count post t rs b)
    | inl his ↦ elim (Bool-cases (is_type t r.reaction_type)) [
      | inl same ↦
          let rest = add_all-count post t rs (add_one r.reaction_type b) in
          rw his (ground (arith, same, rest))
      | inr differs ↦
          let rest = add_all-count post t rs (add_one r.reaction_type b) in
          rw his (ground (arith, differs, rest))
    ]
  ]

  length-keep :
      (post : ℕ) (rs : List Reaction)
      → length (keep (reaction_of post) rs) ≡ count (reaction_of post) rs
  length-keep post [] = refl
  length-keep post (r ∷ rs) = ground (arith, length-keep post rs)

  rate_of-views :
      (views : ℤ) (k : ℕ)
      → (if is_positive views then rate (pos k) views else zero_rate) ≡ rate_of views k
  rate_of-views (pos zero) k = refl
  rate_of-views (pos (suc n)) k = ground arith
  rate_of-views (ℤ.negsuc n) k = refl

  total_of-counted :
      (post : ℕ) (db : Db) (p : Post)
      → HasCounters db
      → find? (by_key post_id_of post) db.posts ≡ some p
      → total_of p (length (keep (reaction_of post) db.reactions)) ≡ pos (engagements post db)
  total_of-counted post db p h found =
      let test = by_key post_id_of post in
      let (likes, own) = All-find? _ test db.posts h.likes found in
      let (comments, _) = All-find? _ test db.posts h.comments found in
      let (shares, _) = All-find? _ test db.posts h.shares found in
      let same : p.id ≡ post = ground (arith, own) in
      subst (λ k. total_of p (length (keep (reaction_of k) db.reactions)) ≡ pos (engagements k db))
        same (rw (likes, comments, shares, length-keep p.id db.reactions) refl)

  -- If no call fails and the counters of likes, comments and shares of the posts are the numbers of
  -- rows, getPostAnalytics changes nothing and says that the post is not there, or that only its
  -- author may ask, each if it is so, or answers about the post: the total of engagements is the
  -- number of all likes, comments, shares and reactions that refer to it, the rate is that of this
  -- number to the views, or zero where there are none, and the number under each type of reaction is
  -- that of the reactions of this type to the post.
  pub get_post_analytics-IsReport :
      (user post : ℕ) (db : Db)
      → HasCounters db
      → IsReport user post (calm db) (get_post_analytics rate zero_rate user post (calm db))
  unfolding get_post_analytics need_post find_post io take_fault
  get_post_analytics-IsReport user post db h =
      elim (Option-cases (find? (by_key post_id_of post) db.posts)) [
        | inl missing ↦ rw missing (refl, inl (missing, refl))
        | inr (p, found) ↦ elim (Bool-cases (p.user_id == user)) [
          | inr foreign ↦ rw found (rw foreign (refl, inr (p, found, foreign, refl)))
          | inl own ↦
              let total = total_of-counted post db p h found in
              rw found (
                rw own (
                  refl,
                  found,
                  (==_iff p.user_id user).0 own,
                  total,
                  rw total (rate_of-views p.views_count (engagements post db)),
                  λ t. (add_all-count post t db.reactions no_reactions ∙ omega arith),
                ))
        ]
      ]
