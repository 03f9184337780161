-- ===== src/Follows/Tests.antt =====
-- The theorems on follows at a concrete world: one user follows another.
use Prim.Native.String.{String}
use enix_backend.Base.{ℕ, pos, true, ◌≡◌, refl, none, some, List, [], ◌∷◌, length, map, arith}
use enix_backend.Http.{ok}
use enix_backend.Effects.{final, result}
use enix_backend.Follows.{World, Person, follow_user, unfollow_user, is_following}
use enix_backend.Follows.Batch.{batch_follow_status}
use enix_backend.Follows.Batch.Alone.{AnswersEach, batch_follow_status-AnswersEach}
use enix_backend.Follows.Suggestions.{get_follow_suggestions}
use enix_backend.Follows.Suggestions.Open.{AreOpen}
use enix_backend.Follows.Numbers.{FollowStats, get_follow_stats, LogEntry, FollowAnalytics}
use enix_backend.Follows.Numbers.True.{IsTrue}
use enix_backend.Paging.{PaginationDto, total_pages}
use enix_backend.Paging.Cover.{at_page}
use enix_backend.Follows.Listings.{
  Tools, in_order, following_rows, follower_rows, get_following, get_followers,
}
use enix_backend.Follows.Listings.Told.{shown_following, shown_follower}
use enix_backend.Follows.Listings.Pages.{all_pages, announced, follow_lists-pages}
use enix_backend.Follows.Runs.{
  Reach, follow, unfollow, ask, here, next, IsSound, Reach-IsSound, Reach-suggested,
}
use enix_backend.Follows.Counted.{HasCountedFollows}
use enix_backend.Follows.Status.{
  IsRefused, follows_in, unfollow_user-follow_user-IsRefused, is_following-right,
}

abbrev alice : Person
alice = record {
  id = 1;
  username = "alice";
  display_name = "Alice";
  email = "alice@here";
  is_public = true;
  bio = none;
  avatar = none;
  followers_count = pos 0;
  following_count = pos 1;
}

abbrev a_world : World
a_world = record {
  people = alice ∷ record alice { id = 2; followers_count = pos 1; following_count = pos 0 } ∷ [];
  follows = record { id = 3; follower_id = 1; following_id = 2; date_created = 0 } ∷ [];
  next_id = 4;
  cooldowns = λ i j. none;
  statuses = λ i j. none;
  suggestions = λ i. none;
}

abbrev plain_message : ℕ → String
plain_message n = "wait"

world-HasCounted : HasCountedFollows a_world
world-HasCounted = record {
  outgoing = record { counted = (refl, (refl, tt)); keys = (tt, tt); fresh = (omega arith, tt) };
  incoming = record { counted = (refl, (refl, tt)); keys = (tt, tt); fresh = (omega arith, tt) };
}

abbrev as_stored : List Person → List Person
as_stored people = people

-- one user unfollows, asks, and follows back
abbrev later : World
later = final (
    follow_user plain_message 400 1 2
      (final (is_following 10 1 2 (final (unfollow_user 0 1 2 a_world)))))

later-Reach : Reach plain_message as_stored a_world later
later-Reach = next (next (next here (unfollow 0 1 2)) (ask 10 1 2)) (follow 400 1 2)

world-IsSound : IsSound plain_message as_stored a_world
world-IsSound = (world-HasCounted, ((λ i j c kept. cc kept), (λ i c kept. cc kept)))

Reach-IsSound_example :
    IsSound plain_message as_stored later
    × ((now a b : ℕ) → result (is_following now a b later) ≡ ok (follows_in later a b))
    × ((a : ℕ) (s : FollowStats) → result (get_follow_stats a later) ≡ ok s → IsTrue later a s)
Reach-IsSound_example =
    Reach-IsSound plain_message as_stored (λ rows p. refl) a_world later world-IsSound later-Reach

Reach-suggested_example : AreOpen later 1 (result (get_follow_suggestions as_stored 500 1 10 later))
Reach-suggested_example =
    Reach-suggested plain_message as_stored (λ rows p. refl) a_world later world-IsSound later-Reach
      500 1 10

abbrev alice_analytics : FollowAnalytics
alice_analytics = record {
  total_followers = pos 1;
  total_following = pos 0;
  new_followers_last_7_days = 0;
  new_followers_last_30_days = 1;
  unfollows_last_7_days = 0;
  unfollows_last_30_days = 1;
  top_followers = alice ∷ [];
}

abbrev logs : List LogEntry
logs =
    record { date_created = 0; action = some "unfollow" }
    ∷ record { date_created = 900000; action = some "follow" }
    ∷ []

abbrev unfollowed : World
unfollowed = final (unfollow_user 0 1 2 a_world)

unfollow_user-follow_user-IsRefused_example :
    IsRefused unfollowed (follow_user plain_message 299 1 2 unfollowed)
unfolding unfollow_user
unfollow_user-follow_user-IsRefused_example =
    unfollow_user-follow_user-IsRefused plain_message 0 299 1 2 a_world refl (omega arith)

abbrev asked : World
asked = final (is_following 10 1 2 a_world)

-- one of the users is known to the cache
batch_follow_status-AnswersEach_example :
    AnswersEach 20 1 (2 ∷ 3 ∷ []) asked (batch_follow_status 20 1 (2 ∷ 3 ∷ []) asked)
batch_follow_status-AnswersEach_example =
    batch_follow_status-AnswersEach 20 1 asked
      (is_following-right 10 1 2 a_world (λ i j c kept. cc kept)).1 (2 ∷ 3 ∷ [])

abbrev tools : Tools
tools = record { trim = λ s. s; matches = λ s p. true; sorting = λ field up rows. rows }

abbrev defaults : PaginationDto
defaults = record { page = none; limit = none; sort_by = none; sort_order = none }

follow_lists-pages_example :
    (all_pages
        (λ d. result (get_following tools 1 (some 2) none d a_world))
        1
        defaults
        (length (following_rows tools 1 none a_world))
      ≡ map
          (shown_following a_world 1 (some 2))
          (in_order tools defaults (following_rows tools 1 none a_world)))
    × (all_pages
          (λ d. result (get_followers tools 1 (some 2) none d a_world))
          1
          defaults
          (length (follower_rows tools 1 none a_world))
        ≡ map
            (shown_follower a_world (some 2))
            (in_order tools defaults (follower_rows tools 1 none a_world)))
    × ((k : ℕ)
        → (announced (result (get_following tools 1 (some 2) none (at_page k 1 defaults) a_world))
            ≡ total_pages (length (following_rows tools 1 none a_world)) 1)
          × (announced (result (get_followers tools 1 (some 2) none (at_page k 1 defaults) a_world))
              ≡ total_pages (length (follower_rows tools 1 none a_world)) 1))
follow_lists-pages_example =
    follow_lists-pages tools a_world 1 (some 2) none {p = alice} refl (λ field up rows p. refl) 1
      (omega arith) defaults
