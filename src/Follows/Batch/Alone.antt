-- ===== src/Follows/Batch/Alone.antt =====
-- `batchFollowStatus` against `isFollowing`, asked for each user on its own.
use enix_backend.Base.{
  sym, subst, ℕ, ◌≡◌, refl, ap, ◌∙◌, inl, inr, Bool, true, false, Bool-cases, Option, none, some,
  List, [], ◌∷◌, ◌++◌, map, keep, take, find?, is_some, arith, ◌==◌, ◌&&◌, ◌||◌, All, Option-cases,
  if◌then◌else◌, ltb,
}
use enix_backend.Http.{Result, ok, err}
use enix_backend.Effects.{Ended, returned, threw, final, result, after}
use enix_backend.Follows.{World, Follow, follow_where, fresh_status, is_following}
use enix_backend.Follows.Counted.{HasCountedFollows}
use enix_backend.Follows.Status.{StatusAgrees, follows_in, is_following-right}
use enix_backend.Follows.{is_among}
use enix_backend.Follows.Batch.{
  Answers, said, cached_results, uncached_ids, following_set, answer_with, remember, look_up_all,
  batch_follow_status,
}

following_set-follows :
    (a k : ℕ) (ids : List ℕ) (fs : List Follow)
    → is_among k ids ≡ true
    → is_among k (
        map
          (λ f. f.following_id)
          (keep (λ f. f.follower_id == a && is_among f.following_id ids) fs))
      ≡ is_some (find? (follow_where a k) fs)
following_set-follows a k ids [] asked = refl
following_set-follows a k ids (f ∷ fs) asked =
    let same : f.following_id ≡ k → is_among f.following_id ids ≡ true =
      λ e. ap (λ j. is_among j ids) e ∙ asked in
    ground (arith, same, following_set-follows a k ids fs asked)

All-among : (P : ℕ → Type 0) (ids : List ℕ) → ((k : ℕ) → is_among k ids ≡ true → P k) → All P ids
All-among P [] h = tt
All-among P (j ∷ ids) h = (h j (ground arith), All-among P ids (λ k m. h k (ground (arith, m))))

remember-StatusAgrees :
    (now a : ℕ) (found ids : List ℕ) (w : World)
    → All (λ k. is_among k found ≡ follows_in w a k) ids
    → StatusAgrees w
    → StatusAgrees (remember now a found ids w)
remember-StatusAgrees now a found [] w right h = h
remember-StatusAgrees now a found (k ∷ ids) w (here, rest) h =
    remember-StatusAgrees now a found ids _ rest (λ i j c kept. ground (arith, here, h i j c))

remember-counted :
    (now a : ℕ) (found ids : List ℕ) (w : World)
    → HasCountedFollows w
    → HasCountedFollows (remember now a found ids w)
remember-counted now a found [] w h = h
remember-counted now a found (k ∷ ids) w h = remember-counted now a found ids _ h

-- what an object of right answers says, by its keys
said-All :
    (T : ℕ → Bool) (r : Answers)
    → All (λ (k, b). b ≡ T k) r
    → (k : ℕ) → said r k ≡ (if is_among k (map (λ (j, b). j) r) then some (T k) else none)
said-All T [] h k = refl
said-All T ((j, b) ∷ r) (right, rest) k = ground (arith, right, said-All T r rest k)

cached_results-right :
    (now a : ℕ) (ids : List ℕ) (w : World)
    → StatusAgrees w
    → All (λ (k, b). b ≡ follows_in w a k) (cached_results now a ids w)
cached_results-right now a [] w h = tt
cached_results-right now a (k ∷ ids) w h = elim (Option-cases (w.statuses a k)) [
  | inl missing ↦ rw missing (cached_results-right now a ids w h)
  | inr (c, found) ↦ elim (Bool-cases (ltb now c.expires)) [
    | inl alive ↦ rw found (rw alive (h a k c found, cached_results-right now a ids w h))
    | inr old ↦ rw found (rw old (cached_results-right now a ids w h))
  ]
]

looked_up-right :
    (T : ℕ → Bool) (found ids : List ℕ)
    → All (λ k. is_among k found ≡ T k) ids
    → All (λ (k, b). b ≡ T k) (map (answer_with found) ids)
looked_up-right T found [] h = tt
looked_up-right T found (k ∷ ids) (here, rest) = (here, looked_up-right T found ids rest)

-- Each user is looked up or found in the cache.
keys-split :
    (now a : ℕ) (found ids : List ℕ) (w : World) (k : ℕ)
    → (is_among k (uncached_ids now a ids w)
        || is_among k (map (λ (j, b). j) (cached_results now a ids w)))
      ≡ is_among k ids
keys-split now a found [] w k = refl
keys-split now a found (j ∷ ids) w k = elim (Option-cases (fresh_status now (w.statuses a j))) [
  | inl missing ↦ rw missing (ground (arith, keys-split now a found ids w k))
  | inr (b, hit) ↦ rw hit (ground (arith, keys-split now a found ids w k))
]

keys-append :
    (found ids : List ℕ) (r : Answers) (k : ℕ)
    → is_among k (map (λ (j, b). j) (map (answer_with found) ids ++ r))
      ≡ (is_among k ids || is_among k (map (λ (j, b). j) r))
keys-append found [] r k = refl
keys-append found (j ∷ ids) r k = ground (arith, keys-append found ids r k)

All-join : {A : Type 0} (P : A → Type 0) (xs ys : List A) → All P xs → All P ys → All P (xs ++ ys)
All-join P [] ys h k = k
All-join P (x ∷ xs) ys (p, h) k = (p, All-join P xs ys h k)

-- what a request to isFollowing answers, if it does
abbrev pub answer : Result Bool → Option Bool
answer (ok b) = some b
answer (err e) = none

-- the answers for these users as if each was asked for on its own, and nothing stale in the cache
abbrev pub AnswersEach : ℕ → ℕ → List ℕ → World → Ended World Answers → Type 0
AnswersEach now a ids w (threw e u) = true ≡ false
AnswersEach now a ids w (returned r u) =
    ((k : ℕ)
      → said r k ≡ (if is_among k ids then answer (result (is_following now a k w)) else none))
    × StatusAgrees u

module _ (now a : ℕ) (w : World) (h : StatusAgrees w) where
  -- what an object says of a user, against isFollowing
  abbrev Says : List ℕ → Answers → ℕ → Type 0
  Says ids r k =
      said r k ≡ (if is_among k ids then answer (result (is_following now a k w)) else none)

  asked_alone : (k : ℕ) → answer (result (is_following now a k w)) ≡ some (follows_in w a k)
  asked_alone k = ap answer (is_following-right now a k w h).0

  -- The answers for some users, from a set that is right about those that the cache misses.
  joined-said :
      (ids found : List ℕ)
      → All (λ k. is_among k found ≡ follows_in w a k) (uncached_ids now a ids w)
      → (k : ℕ)
      → Says ids
          (map (answer_with found) (uncached_ids now a ids w) ++ cached_results now a ids w)
          k
  joined-said ids found right k =
      said-All (λ j. follows_in w a j) _
        (All-join _ (map (answer_with found) (uncached_ids now a ids w)) _
          (looked_up-right (λ j. follows_in w a j) found _ right)
          (cached_results-right now a ids w h))
        k
      ∙ rw (keys-append found (uncached_ids now a ids w) (cached_results now a ids w) k)
          (rw (keys-split now a found ids w k) (rw (asked_alone k) refl))

  found_right :
      (ids : List ℕ) → All (λ k. is_among k (following_set a ids w) ≡ follows_in w a k) ids
  found_right ids = All-among _ ids (λ k m. following_set-follows a k ids w.follows m)

  looked_up_all :
      (ids missed : List ℕ)
      → uncached_ids now a ids w ≡ missed
      → AnswersEach now a ids w
          (after (look_up_all now a missed w) (λ r u. returned (r ++ cached_results now a ids w) u))
  looked_up_all ids [] e = (
    (λ k.
        subst (λ us. Says ids (map (answer_with []) us ++ cached_results now a ids w) k) e
          (joined-said ids [] (subst (All _) (sym e) tt) k)),
    h,
  )
  looked_up_all ids (j ∷ missed) e =
      let found = following_set a (j ∷ missed) w in
      let right = found_right (j ∷ missed) in
      (
        (λ k.
            subst (λ us. Says ids (map (answer_with found) us ++ cached_results now a ids w) k) e
              (joined-said ids found (subst (All _) (sym e) right) k)),
        remember-StatusAgrees now a found (j ∷ missed) w right h,
      )

  -- If every cached answer about follows agrees with the table, batchFollowStatus does not throw,
  -- and says of each of the first hundred users that it is given what isFollowing would answer if it
  -- was asked for that user alone, and nothing of anybody else; and every cached answer still agrees
  -- afterwards.
  pub batch_follow_status-AnswersEach :
      (user_ids : List ℕ)
      → AnswersEach now a (take 100 user_ids) w (batch_follow_status now a user_ids w)
  unfolding batch_follow_status
  batch_follow_status-AnswersEach [] = ((λ k. refl), h)
  batch_follow_status-AnswersEach (j ∷ user_ids) = looked_up_all (take 100 (j ∷ user_ids)) _ refl

  agrees_after :
      (ids : List ℕ) (e : Ended World Answers) → AnswersEach now a ids w e → StatusAgrees (final e)
  agrees_after ids (returned r u) (said_right, agrees) = agrees
  agrees_after ids (threw e u) never = cc

  pub batch_follow_status-StatusAgrees :
      (user_ids : List ℕ) → StatusAgrees (final (batch_follow_status now a user_ids w))
  batch_follow_status-StatusAgrees user_ids =
      agrees_after (take 100 user_ids) _ (batch_follow_status-AnswersEach user_ids)

look_up_all-counted :
    (now a : ℕ) (w : World) (missed : List ℕ) (cached : Answers)
    → HasCountedFollows w
    → HasCountedFollows
        (final (after (look_up_all now a missed w) (λ r u. returned (r ++ cached) u)))
look_up_all-counted now a w [] cached h = h
look_up_all-counted now a w (j ∷ missed) cached h =
    remember-counted now a (following_set a (j ∷ missed) w) (j ∷ missed) w h

pub batch_follow_status-counted :
    (now a : ℕ) (w : World) (user_ids : List ℕ)
    → HasCountedFollows w
    → HasCountedFollows (final (batch_follow_status now a user_ids w))
unfolding batch_follow_status
batch_follow_status-counted now a w [] h = h
batch_follow_status-counted now a w (j ∷ user_ids) h =
    look_up_all-counted now a w (uncached_ids now a (take 100 (j ∷ user_ids)) w)
      (cached_results now a (take 100 (j ∷ user_ids)) w) h
