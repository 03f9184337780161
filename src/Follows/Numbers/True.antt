-- ===== src/Follows/Numbers/True.antt =====
-- The numbers of a user's followers against the rows of the table.
use enix_backend.Base.{
  ℕ, pos, ◌≤◌, ◌≡◌, inl, inr, true, Option-cases, count, arith, All-find?, ◌==◌, ap, ◌∙◌, All,
  length,
}
use enix_backend.Base.Rows.{by_key}
use enix_backend.Http.{ok}
use enix_backend.Effects.{result}
use enix_backend.Follows.{World, Person, person_id, find_person}
use enix_backend.Follows.Status.{follows_in}
use enix_backend.Follows.Counted.{HasCountedFollows}
use enix_backend.Follows.Numbers.{FollowStats, get_follow_stats, FollowAnalytics}

-- The two numbers are those of the rows.
abbrev pub IsTrue : World → ℕ → FollowStats → Type 0
IsTrue w user s =
    (s.followers_count ≡ pos (count (λ f. f.following_id == user) w.follows))
    × (s.following_count ≡ pos (count (λ f. f.follower_id == user) w.follows))

pub get_follow_stats-IsTrue :
    (user : ℕ) (w : World) (s : FollowStats)
    → HasCountedFollows w
    → result (get_follow_stats user w) ≡ ok s
    → IsTrue w user s
unfolding get_follow_stats
get_follow_stats-IsTrue user w s h answered = elim (Option-cases (find_person user w)) [
  | inl missing ↦ let failed = rw missing at answered in cc failed
  | inr (p, found) ↦
      let shown = rw found at answered in
      let (outgoing, same) =
        All-find? (λ q. q.following_count ≡ pos (count (λ f. f.follower_id == q.id) w.follows))
          (by_key person_id user) w.people h.outgoing.counted found in
      let (incoming, again) =
        All-find? (λ q. q.followers_count ≡ pos (count (λ f. f.following_id == q.id) w.follows))
          (by_key person_id user) w.people h.incoming.counted found in
      let own : p.id ≡ user = ground arith in
      let of_followers : s.followers_count ≡ p.followers_count = cc shown in
      let of_following : s.following_count ≡ p.following_count = cc shown in
      (
        of_followers ∙ incoming ∙ ap (λ u. pos (count (λ f. f.following_id == u) w.follows)) own,
        of_following ∙ outgoing ∙ ap (λ u. pos (count (λ f. f.follower_id == u) w.follows)) own,
      )
]

-- One who follows the user.
abbrev pub IsFollower : World → ℕ → Person → Type 0
IsFollower w user p = follows_in w p.id user ≡ true

-- The numbers go together, and the users shown are followers, ten at most.
pub record IsConsistent (w : World) (user : ℕ) (r : FollowAnalytics) : Type 0 where
  pub recent : r.new_followers_last_7_days ≤ r.new_followers_last_30_days
  pub month : ℕ
  pub of_all : r.total_followers ≡ pos month
  pub within : r.new_followers_last_30_days ≤ month
  pub unfollows : r.unfollows_last_7_days ≤ r.unfollows_last_30_days
  pub shown : length r.top_followers ≤ 10
  pub followers : All (IsFollower w user) r.top_followers
