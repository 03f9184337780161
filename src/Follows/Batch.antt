-- ===== src/Follows/Batch.antt =====
-- `batchFollowStatus` of src/rest/api/users/services/follows/follows.service.ts.
pub mod Alone
use enix_backend.Base.{
  sym, subst, ℕ, ◌+◌, ◌≡◌, refl, ap, ◌∙◌, inl, inr, Bool, true, false, Bool-cases, ⊤, Option, none,
  some, List, [], ◌∷◌, ◌++◌, map, keep, any, take, find?, is_some, arith, ◌==◌, ◌&&◌, ◌||◌, All,
  Option-cases, if◌then◌else◌, ltb,
}
use enix_backend.Http.{Result, ok, err}
use enix_backend.Effects.{
  Call, Ended, returned, threw, pure, gets, modify, final, result, after, ◌>>=◌, ◌>>◌,
}
use enix_backend.Follows.{
  World, Follow, Cached, follow_where, fresh_status, set_pair, is_following, is_among,
}
use enix_backend.Follows.Counted.{HasCountedFollows}
use enix_backend.Follows.Status.{StatusAgrees, follows_in, is_following-right}

-- the object of the answers: an answer for each key
abbrev pub Answers : Type 0
Answers = List (ℕ × Bool)

abbrev pub said : Answers → ℕ → Option Bool
said [] k = none
said ((j, b) ∷ r) k = if j == k then some b else said r k

abbrev add_hit : ℕ → Option Bool → Answers → Answers
add_hit k none r = r
add_hit k (some b) r = (k, b) ∷ r

abbrev add_miss : ℕ → Option Bool → List ℕ → List ℕ
add_miss k none ids = k ∷ ids
add_miss k (some b) ids = ids

-- what the loop over the cache puts into `cachedResults`
abbrev pub cached_results : ℕ → ℕ → List ℕ → World → Answers
cached_results now follower [] w = []
cached_results now follower (k ∷ ids) w =
    add_hit k (fresh_status now (w.statuses follower k)) (cached_results now follower ids w)

-- what it puts into `uncachedIds`
abbrev pub uncached_ids : ℕ → ℕ → List ℕ → World → List ℕ
uncached_ids now follower [] w = []
uncached_ids now follower (k ∷ ids) w =
    add_miss k (fresh_status now (w.statuses follower k)) (uncached_ids now follower ids w)

-- `new Set(follows.map((f) => f.followingId))`, of the rows that the table has for these users
abbrev pub following_set : ℕ → List ℕ → World → List ℕ
following_set follower ids w =
    map (λ f. f.following_id)
      (keep (λ f. f.follower_id == follower && is_among f.following_id ids) w.follows)

abbrev pub answer_with : List ℕ → ℕ → ℕ × Bool
answer_with found k = (k, is_among k found)

-- The writes of the loop over `uncachedIds`: each answer is kept for five minutes.
abbrev pub remember : ℕ → ℕ → List ℕ → List ℕ → World → World
remember now follower found [] w = w
remember now follower found (k ∷ ids) w = remember now follower found ids (record w {
  statuses =
      set_pair follower k (some (record { value = is_among k found; expires = now + 300 }))
        w.statuses;
})

abbrev pub look_up_all : ℕ → ℕ → List ℕ → Call World Answers
look_up_all now follower [] = pure []
look_up_all now follower (k ∷ ids) = do
  found ← gets (following_set follower (k ∷ ids))
  modify (remember now follower found (k ∷ ids))
  pure (map (answer_with found) (k ∷ ids))

unfoldable pub batch_follow_status : ℕ → ℕ → List ℕ → Call World Answers
batch_follow_status now follower [] = pure []
batch_follow_status now follower (id ∷ user_ids) = do
  cached ← gets (cached_results now follower (take 100 (id ∷ user_ids)))
  uncached ← gets (uncached_ids now follower (take 100 (id ∷ user_ids)))
  looked_up ← look_up_all now follower uncached
  pure (looked_up ++ cached)
