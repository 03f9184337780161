-- ===== src/Follows/Numbers.antt =====
-- `getFollowStats` and `getFollowAnalytics` of
-- src/rest/api/users/services/follows/follows.service.ts. ORDER BY of the database is the argument
-- `by_followers`, and the answer of the audit log is the argument `logs`. Times are in seconds.
pub mod True
use Prim.Native.String.{String}
use text.Mathlib.Text.{◌==◌ as str_eq}
use enix_backend.Base.{
  ℕ, suc, ◌-◌, ◌*◌, ℤ, Bool, true, false, Option, none, some, List, [], ◌∷◌, map, keep, take, count,
  find?, ◌==◌, leb, ◌&&◌, if◌then◌else◌,
}
use enix_backend.Base.Rows.{by_key}
use enix_backend.Http.{not_found, internal, is_not_found}
use enix_backend.Effects.{Call, pure, gets, or_throw, catch_all, after, ◌>>=◌, ◌>>◌}
use enix_backend.Follows.{World, Person, Follow, find_person}
use enix_backend.Follows.Connections.{join}

pub record FollowStats : Type 0 where
  pub followers_count : ℤ
  pub following_count : ℤ

-- `count || 0` is the count itself.
unfoldable pub get_follow_stats : ℕ → Call World FollowStats
get_follow_stats user_id = catch_all is_not_found (internal "Failed to get follow stats") do
  found ← gets (find_person user_id)
  user ← or_throw found (not_found "User not found")
  pure (record { followers_count = user.followers_count; following_count = user.following_count })

-- an entry of the audit log: its time and the `action` of its metadata, where it has one
pub record LogEntry : Type 0 where
  pub date_created : ℕ
  pub action : Option String

pub record FollowAnalytics : Type 0 where
  pub total_followers : ℤ
  pub total_following : ℤ
  pub new_followers_last_7_days : ℕ
  pub new_followers_last_30_days : ℕ
  pub unfollows_last_7_days : ℕ
  pub unfollows_last_30_days : ℕ
  pub top_followers : List Person

-- so many days, in seconds
abbrev pub days : ℕ → ℕ
days n = n * 86400

abbrev pub is_new_follower : ℕ → ℕ → Follow → Bool
is_new_follower user_id since f = f.following_id == user_id && leb since f.date_created

abbrev pub is_action : String → Option String → Bool
is_action name none = false
is_action name (some action) = str_eq action name

-- the loop over the log
abbrev pub count_unfollows : ℕ → List LogEntry → ℕ
count_unfollows since [] = 0
count_unfollows since (log ∷ logs) =
    if is_action "unfollow" log.action && leb since log.date_created
    then suc (count_unfollows since logs)
    else count_unfollows since logs

-- the users who follow this one
abbrev pub followers_of : ℕ → World → List Person
followers_of user_id w =
    map (λ (f, p). p)
      (join (λ f. f.follower_id) (keep (λ f. f.following_id == user_id) w.follows) w)

unfoldable pub get_follow_analytics :
    (List Person → List Person) → List LogEntry → ℕ → ℕ → Call World FollowAnalytics
get_follow_analytics by_followers logs now user_id =
    catch_all is_not_found (internal "Failed to get follow analytics") do
      found ← gets (find_person user_id)
      user ← or_throw found (not_found "User not found")
      recent ← gets (λ w. count (is_new_follower user_id (now - days 7)) w.follows)
      of_month ← gets (λ w. count (is_new_follower user_id (now - days 30)) w.follows)
      top ← gets (λ w. take 10 (by_followers (followers_of user_id w)))
      pure (record {
        total_followers = user.followers_count;
        total_following = user.following_count;
        new_followers_last_7_days = recent;
        new_followers_last_30_days = of_month;
        unfollows_last_7_days = count_unfollows (now - days 7) logs;
        unfollows_last_30_days = count_unfollows (now - days 30) logs;
        top_followers = top;
      })
