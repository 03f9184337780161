-- ===== src/Follows/Runs.antt =====
-- Requests about follows, one after the other.
use Prim.Native.String.{String}
use enix_backend.Base.{ℕ, List, ◌≡◌, Option-cases, inl, inr, Bool-cases, ltb}
use enix_backend.Http.{ok}
use enix_backend.Effects.{final, result}
use enix_backend.Follows.{World, Person, follow_user, unfollow_user, is_following, clear_cooldown}
use enix_backend.Follows.Counted.{HasCountedFollows, follow_user-counted, unfollow_user-counted}
use enix_backend.Follows.Suggestions.{get_follow_suggestions}
use enix_backend.Follows.Suggestions.Open.{
  SuggestionsAgree, Reorders, AreOpen, get_follow_suggestions-AreOpen,
}
use enix_backend.Follows.Suggestions.Kept.{
  follow_user-SuggestionsAgree, unfollow_user-SuggestionsAgree, is_following-SuggestionsAgree,
  batch_follow_status-SuggestionsAgree, get_follow_suggestions-same,
  get_follow_suggestions-SuggestionsAgree,
}
use enix_backend.Follows.Numbers.{FollowStats, get_follow_stats}
use enix_backend.Follows.Numbers.True.{IsTrue, get_follow_stats-IsTrue}
use enix_backend.Follows.Batch.{batch_follow_status}
use enix_backend.Follows.Batch.Alone.{batch_follow_status-counted, batch_follow_status-StatusAgrees}
use enix_backend.Follows.Status.{
  StatusAgrees, follows_in, follow_user-StatusAgrees, unfollow_user-StatusAgrees,
  is_following-right,
}

module _ (wait_message : ℕ → String) (by_followers : List Person → List Person) where
  -- one request, whoever makes it and whenever
  pub data Step (w : World) : World → Type 0 where
    follow : (now a b : ℕ) → Step w (final (follow_user wait_message now a b w))
    unfollow : (now a b : ℕ) → Step w (final (unfollow_user now a b w))
    ask : (now a b : ℕ) → Step w (final (is_following now a b w))
    ask_many : (now a : ℕ) (ids : List ℕ) → Step w (final (batch_follow_status now a ids w))
    suggest :
        (now user limit : ℕ) → Step w (final (get_follow_suggestions by_followers now user limit w))
    clear : (a b : ℕ) → Step w (final (clear_cooldown a b w))

  pub data Reach (w : World) : World → Type 0 where
    here : Reach w w
    next : {u v : World} → Reach w u → Step u v → Reach w v

  -- The counters count the rows, the cache says what the table says, and who is kept as a suggestion
  -- is still open to follow.
  abbrev pub IsSound : World → Type 0
  IsSound w = HasCountedFollows w × (StatusAgrees w × SuggestionsAgree w)

  is_following-counted :
      (now a b : ℕ) (w : World)
      → HasCountedFollows w
      → HasCountedFollows (final (is_following now a b w))
  unfolding is_following
  is_following-counted now a b w h = elim (Option-cases (w.statuses a b)) [
    | inl missing ↦ rw missing h
    | inr (c, found) ↦ elim (Bool-cases (ltb now c.expires)) [
      | inl alive ↦ rw found (rw alive h)
      | inr old ↦ rw found (rw old h)
    ]
  ]

  clear_cooldown-IsSound :
      (a b : ℕ) (w : World) → IsSound w → IsSound (final (clear_cooldown a b w))
  unfolding clear_cooldown
  clear_cooldown-IsSound a b w h = h

  module _ (reorders : Reorders by_followers) where
    Step-IsSound : {w u : World} → Step w u → IsSound w → IsSound u
    Step-IsSound {w} (follow now a b) (counted, (agrees, kept)) = (
      follow_user-counted wait_message now a b w counted,
      (
        follow_user-StatusAgrees wait_message now a b w agrees,
        follow_user-SuggestionsAgree wait_message now a b w kept,
      ),
    )
    Step-IsSound {w} (unfollow now a b) (counted, (agrees, kept)) = (
      unfollow_user-counted now a b w counted,
      (
        unfollow_user-StatusAgrees now a b w counted.outgoing.keys agrees,
        unfollow_user-SuggestionsAgree now a b w counted.outgoing.keys kept,
      ),
    )
    Step-IsSound {w} (ask now a b) (counted, (agrees, kept)) = (
      is_following-counted now a b w counted,
      ((is_following-right now a b w agrees).1, is_following-SuggestionsAgree now a b w kept),
    )
    Step-IsSound {w} (ask_many now a ids) (counted, (agrees, kept)) = (
      batch_follow_status-counted now a w ids counted,
      (
        batch_follow_status-StatusAgrees now a w agrees ids,
        batch_follow_status-SuggestionsAgree now a w ids kept,
      ),
    )
    Step-IsSound {w} (suggest now user limit) (counted, (agrees, kept)) =
        let same = get_follow_suggestions-same by_followers now user limit w in
        (
          same HasCountedFollows (λ f h. h) counted,
          (
            same StatusAgrees (λ f h. h) agrees,
            get_follow_suggestions-SuggestionsAgree by_followers now user limit w reorders kept,
          ),
        )
    Step-IsSound {w} (clear a b) h = clear_cooldown-IsSound a b w h

    reached-IsSound : {w u : World} → IsSound w → Reach w u → IsSound u
    reached-IsSound h here = h
    reached-IsSound h (next r s) = Step-IsSound s (reached-IsSound h r)

    -- If the database only reorders rows by ORDER BY, then after any requests to follow, to
    -- unfollow, to ask whether one follows a user or each of several users, to ask for suggestions
    -- and to clear a cool-down, by anybody, at any times and in any order, from a state in which it
    -- holds: for every user the numbers of followers and of followed users are the numbers of rows,
    -- every cached answer is what the table says, and nobody kept as a suggestion is the user
    -- himself or followed already. Besides, isFollowing answers what the table says, and what
    -- getFollowStats answers are the numbers of rows.
    pub Reach-IsSound :
        (w u : World)
        → IsSound w
        → Reach w u
        → IsSound u
          × ((now a b : ℕ) → result (is_following now a b u) ≡ ok (follows_in u a b))
          × ((a : ℕ) (s : FollowStats) → result (get_follow_stats a u) ≡ ok s → IsTrue u a s)
    Reach-IsSound w u h r =
        let (counted, (agrees, kept)) = reached-IsSound h r in
        (
          (counted, (agrees, kept)),
          (λ now a b. (is_following-right now a b u agrees).0),
          (λ a s answered. get_follow_stats-IsTrue a u s counted answered),
        )

    -- If the database only reorders rows by ORDER BY, then after any such requests, from a state
    -- that is sound, getFollowSuggestions answers, and neither the user himself nor anybody he
    -- follows is among the suggestions, whether they come from the cache or not.
    pub Reach-suggested :
        (w u : World)
        → IsSound w
        → Reach w u
        → (now user limit : ℕ)
        → AreOpen u user (result (get_follow_suggestions by_followers now user limit u))
    Reach-suggested w u h r now user limit =
        let (counted, (agrees, kept)) = reached-IsSound h r in
        get_follow_suggestions-AreOpen by_followers reorders now user limit u kept
