-- ===== src/Posts/Analytics.antt =====
-- getPostAnalytics of src/rest/api/users/services/posts/posts.service.ts.
pub mod Report
use enix_backend.Base.{
  ℕ, ◌+◌, ℤ, pos, ◌+ℤ◌, Bool, true, false, not, List, [], ◌∷◌, keep, length, ◌==◌, is_id,
  if◌then◌else◌,
}
use enix_backend.Http.{forbidden}
use enix_backend.Posts.Entities.{Post, Reaction, ReactionType}
use enix_backend.Posts.Db.{Action, io, gets, pure, throw_if, ◌>>=◌, ◌>>◌, catch_all}
use enix_backend.Posts.Repo.{need_post, not_found_or_forbidden}

abbrev pub is_type : ReactionType → ReactionType → Bool
is_type ReactionType.like ReactionType.like = true
is_type ReactionType.love ReactionType.love = true
is_type ReactionType.laugh ReactionType.laugh = true
is_type ReactionType.wow ReactionType.wow = true
is_type ReactionType.sad ReactionType.sad = true
is_type ReactionType.angry ReactionType.angry = true
is_type _ _ = false

-- `reactionsBreakdown`: a number under each type
abbrev pub Breakdown : Type 0
Breakdown = ReactionType → ℕ

abbrev pub no_reactions : Breakdown
no_reactions t = 0

abbrev pub add_one : ReactionType → Breakdown → Breakdown
add_one type b t = if is_type t type then b t + 1 else b t

-- the `forEach` over the reactions
abbrev pub add_all : List Reaction → Breakdown → Breakdown
add_all [] b = b
add_all (r ∷ rs) b = add_all rs (add_one r.reaction_type b)

-- `Rate` is the type of the rate, a number with a fraction.
pub record Analytics (Rate : Type 0) : Type 0 where
  pub post : Post
  pub engagement_rate : Rate
  pub total_engagements : ℤ
  pub reactions_breakdown : Breakdown

abbrev pub is_positive : ℤ → Bool
is_positive (pos n) = not (n == 0)
is_positive (ℤ.negsuc n) = false

abbrev pub total_of : Post → ℕ → ℤ
total_of p n = p.likes_count +ℤ p.comments_count +ℤ p.shares_count +ℤ pos n

-- `rate` is the quotient as a percentage, rounded to two places, and `zero_rate` is 0.
unfoldable pub get_post_analytics :
    {Rate : Type 0} → (ℤ → ℤ → Rate) → Rate → ℕ → ℕ → Action (Analytics Rate)
unfolding need_post io
get_post_analytics rate zero_rate user_id post_id =
    catch_all not_found_or_forbidden "Failed to get post analytics" do
      post ← need_post post_id
      throw_if (not (post.user_id == user_id))
          (forbidden "You can only view analytics for your own posts")
      io
      reactions ← gets (λ db. keep (λ (r : Reaction). is_id r.post_id post_id) db.reactions)
      pure (record {
        post = post;
        engagement_rate =
            if is_positive post.views_count
            then rate (total_of post (length reactions)) post.views_count
            else zero_rate;
        total_engagements = total_of post (length reactions);
        reactions_breakdown = add_all reactions no_reactions;
      })
