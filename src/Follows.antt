-- ===== src/Follows.antt =====
-- `followUser`, `unfollowUser`, `isFollowing` and `clearCooldown` of
-- src/rest/api/users/services/follows/follows.service.ts. Times are in seconds, as the times to live of
-- Redis are; `wait_message` words the minutes that are left. No call throws here.
pub mod Batch
pub mod Connections
pub mod Suggestions
pub mod Numbers
pub mod Listings
pub mod Counted
pub mod Status
pub mod Runs
mod Tests
use Prim.Native.Nat.{◌/◌}
use Prim.Native.String.{String}
use enix_backend.Base.{
  ℕ, suc, ◌+◌, ◌-◌, ℤ, ⊤, Bool, true, false, not, Option, none, some, List, [], ◌∷◌, ◌++◌, any,
  find?, ◌==◌, ltb, ◌&&◌, ◌||◌, is_some, if◌then◌else◌, incr, decr,
}
use enix_backend.Base.Rows.{update_where, by_key, delete_key}
use enix_backend.Http.{Error, bad_request, not_found, internal, is_not_found, is_bad_request}
use enix_backend.Effects.{
  Call, pure, gets, or_throw, throw_if, modify, catch_all, after, ◌>>=◌, ◌>>◌,
}

-- of a user, what this service reads and writes
pub record Person : Type 0 where
  pub id : ℕ
  pub username : String
  pub display_name : String
  pub email : String
  pub is_public : Bool
  pub bio : Option String
  pub avatar : Option String
  pub followers_count : ℤ
  pub following_count : ℤ

pub record Follow : Type 0 where
  pub id : ℕ
  pub follower_id : ℕ
  pub following_id : ℕ
  pub date_created : ℕ

-- an answer of `isFollowing` that Redis keeps
pub record Cached : Type 0 where
  pub value : Bool
  pub expires : ℕ

-- users that were suggested, as Redis keeps them
pub record Suggested : Type 0 where
  pub value : List Person
  pub expires : ℕ

pub record World : Type 0 where
  pub people : List Person
  pub follows : List Follow
  pub next_id : ℕ
  -- when `follow:cooldown:…` expires
  pub cooldowns : ℕ → ℕ → Option ℕ
  -- `follow:status:…`
  pub statuses : ℕ → ℕ → Option Cached
  -- `follow:suggestions:…`
  pub suggestions : ℕ → Option Suggested

abbrev pub person_id : Person → ℕ
person_id p = p.id

abbrev pub follow_id : Follow → ℕ
follow_id f = f.id

abbrev pub follow_where : ℕ → ℕ → Follow → Bool
follow_where follower following f = f.follower_id == follower && f.following_id == following

abbrev pub followers : (ℤ → ℤ) → Person → Person
followers f p = record p { followers_count = f p.followers_count }

abbrev pub followings : (ℤ → ℤ) → Person → Person
followings f p = record p { following_count = f p.following_count }

-- FOLLOW_COOLDOWN_SECONDS
abbrev pub follow_cooldown_seconds : ℕ
follow_cooldown_seconds = 300

-- `ttl(key)`, or 0 for a key that is gone
abbrev pub ttl : ℕ → Option ℕ → ℕ
ttl now none = 0
ttl now (some expires) = expires - now

-- `Math.ceil(ttl / 60)`
abbrev pub minutes : ℕ → ℕ
minutes seconds = (seconds + 59) / 60

abbrev pub set_pair {ℓ} : {A : Type ℓ} → ℕ → ℕ → A → (ℕ → ℕ → A) → ℕ → ℕ → A
set_pair a b x f i j = if i == a && j == b then x else f i j

-- An answer about either of two users: its tags are among those that are invalidated.
abbrev pub is_about : ℕ → ℕ → ℕ → ℕ → Bool
is_about a b i j = (i == a || i == b) || (j == a || j == b)

-- `invalidateByTags` of both users, whose tag sets name every answer about them and the suggestions
-- made to them, and the `del` of the answer about the pair and of the follower's suggestions
abbrev pub forget_status : ℕ → ℕ → Call World ⊤
forget_status a b = modify λ w. record w {
  statuses = λ i j. if is_about a b i j then none else w.statuses i j;
  suggestions = λ i. if i == a || i == b then none else w.suggestions i;
}

abbrev pub is_among : ℕ → List ℕ → Bool
is_among k ids = any (λ j. j == k) ids

abbrev pub find_person : ℕ → World → Option Person
find_person k w = find? (by_key person_id k) w.people

abbrev pub find_follow : ℕ → ℕ → World → Option Follow
find_follow follower following w = find? (follow_where follower following) w.follows

abbrev pub count_follow : (ℤ → ℤ) → ℕ → ℕ → Call World ⊤
count_follow f follower following = do
  modify λ w. record w { people = update_where (by_key person_id follower) (followings f) w.people }
  modify λ w. record w { people = update_where (by_key person_id following) (followers f) w.people }

abbrev pub save_follow : ℕ → ℕ → ℕ → Call World ⊤
save_follow now follower following = modify λ w.
    let follow : Follow = record {
      id = w.next_id;
      follower_id = follower;
      following_id = following;
      date_created = now;
    } in
    record w { follows = w.follows ++ follow ∷ []; next_id = suc w.next_id }

abbrev pub not_found_or_bad : Error → Bool
not_found_or_bad e = is_not_found e || is_bad_request e

unfoldable pub follow_user : (ℕ → String) → ℕ → ℕ → ℕ → Call World ⊤
follow_user wait_message now follower following =
    catch_all not_found_or_bad (internal "Failed to follow user") do
      throw_if (follower == following) (bad_request "You cannot follow yourself")
      existing_follow ← gets (find_follow follower following)
      throw_if (is_some existing_follow) (bad_request "You are already following this user")
      one ← gets (find_person follower)
      or_throw one (not_found "Follower user not found")
      other ← gets (find_person following)
      or_throw other (not_found "User to follow not found")
      left ← gets (λ w. ttl now (w.cooldowns follower following))
      throw_if (ltb 0 left) (bad_request (wait_message (minutes left)))
      save_follow now follower following
      count_follow incr follower following
      forget_status follower following

unfoldable pub unfollow_user : ℕ → ℕ → ℕ → Call World ⊤
unfollow_user now follower following =
    catch_all is_not_found (internal "Failed to unfollow user") do
      found ← gets (find_follow follower following)
      follow ← or_throw found (not_found "You are not following this user")
      modify λ w. record w { follows = delete_key follow_id follow.id w.follows }
      modify λ w. record w {
        cooldowns = set_pair follower following (some (now + follow_cooldown_seconds)) w.cooldowns;
      }
      count_follow decr follower following
      forget_status follower following

abbrev pub fresh_status : ℕ → Option Cached → Option Bool
fresh_status now none = none
fresh_status now (some c) = if ltb now c.expires then some c.value else none

-- what a miss in the cache leads to
abbrev pub look_up : ℕ → ℕ → ℕ → Call World Bool
look_up now follower following = do
  found ← gets (find_follow follower following)
  modify λ w. record w {
    statuses =
        set_pair follower following (some (record { value = is_some found; expires = now + 300 }))
          w.statuses;
  }
  pure (is_some found)

abbrev pub cached_or : ℕ → ℕ → ℕ → Option Bool → Call World Bool
cached_or now follower following (some b) = pure b
cached_or now follower following none = look_up now follower following

unfoldable pub is_following : ℕ → ℕ → ℕ → Call World Bool
is_following now follower following = do
  cached ← gets (λ w. fresh_status now (w.statuses follower following))
  cached_or now follower following cached

unfoldable pub clear_cooldown : ℕ → ℕ → Call World ⊤
clear_cooldown follower following =
    modify λ w. record w { cooldowns = set_pair follower following none w.cooldowns }
