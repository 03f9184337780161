-- ===== src/Follows/Suggestions/Kept.antt =====
-- The suggestions that are kept, under every request about follows.
use Prim.Native.String.{String}
use enix_backend.Base.{
  ℕ, subst, sym, ◌≡◌, refl, inl, inr, true, false, Bool-cases, some, Option-cases, List, [], ◌∷◌,
  ◌++◌, Option, take, arith, All, ◌==◌, ltb, ◌||◌, find?, find?-passes,
}
use enix_backend.Base.Rows.{All-map, HasKeys, find?-unique}
use enix_backend.Effects.{final, after, returned}
use enix_backend.Follows.{
  World, Person, Follow, Suggested, follow_user, unfollow_user, is_following, follow_where,
  follow_id,
}
use enix_backend.Follows.Batch.{
  Answers, batch_follow_status, look_up_all, remember, uncached_ids, cached_results, following_set,
}
use enix_backend.Follows.Connections.{following_ids}
use enix_backend.Follows.Status.{follows_in, find_append-other, find_delete_key-other}
use enix_backend.Follows.Suggestions.{
  get_follow_suggestions, suggested, find_suggestions, cached_suggestions, safe_limit,
}
use enix_backend.Follows.Suggestions.Open.{SuggestionsAgree, IsOpen, Reorders, suggested-IsOpen}

-- What is still kept was kept before, and is about users of whom nothing changed.
abbrev StillKept : World → World → Type 0
StillKept w u =
    (i j : ℕ) (c : Suggested)
    → u.suggestions i ≡ some c
    → (w.suggestions i ≡ some c) × (follows_in u i j ≡ follows_in w i j)

SuggestionsAgree-kept : (w u : World) → StillKept w u → SuggestionsAgree w → SuggestionsAgree u
SuggestionsAgree-kept w u still h i c kept =
    All-map (IsOpen w i) (IsOpen u i) c.value
      (λ p (other, unknown). (other, rw (still i p.id c kept).1 unknown))
      (h i c (still i 0 c kept).0)

follow_user-StillKept :
    (wait_message : ℕ → String) (now a b : ℕ) (w : World)
    → StillKept w (final (follow_user wait_message now a b w))
unfolding follow_user
follow_user-StillKept wait_message now a b w i j c kept =
    let f : Follow = record {
      id = w.next_id;
      follower_id = a;
      following_id = b;
      date_created = now;
    } in
    ground (arith, find_append-other i j f w.follows)

unfollow_user-StillKept :
    (now a b : ℕ) (w : World)
    → HasKeys follow_id w.follows
    → StillKept w (final (unfollow_user now a b w))
unfolding unfollow_user
unfollow_user-StillKept now a b w keys i j c kept =
    elim (Option-cases (find? (follow_where a b) w.follows)) [
      | inl missing ↦ ground (arith, missing)
      | inr (f, found) ↦ elim (Bool-cases (i == a || i == b)) [
        | inl about ↦ ground (arith, found, about)
        | inr apart ↦
            let matched : follow_where a b f ≡ true =
              find?-passes (follow_where a b) w.follows found in
            let differs : follow_where i j f ≡ false = ground arith in
            let others =
              All-map _ (λ g. follow_id g ≡ follow_id f → follow_where i j g ≡ false) w.follows
                (λ g only k. rw (only k) differs)
                (find?-unique follow_id (follow_where a b) w.follows keys found) in
            ground (arith, found, apart, find_delete_key-other i j (follow_id f) w.follows others)
      ]
    ]

pub follow_user-SuggestionsAgree :
    (wait_message : ℕ → String) (now a b : ℕ) (w : World)
    → SuggestionsAgree w
    → SuggestionsAgree (final (follow_user wait_message now a b w))
follow_user-SuggestionsAgree wait_message now a b w =
    SuggestionsAgree-kept w (final (follow_user wait_message now a b w))
      (follow_user-StillKept wait_message now a b w)

pub unfollow_user-SuggestionsAgree :
    (now a b : ℕ) (w : World)
    → HasKeys follow_id w.follows
    → SuggestionsAgree w
    → SuggestionsAgree (final (unfollow_user now a b w))
unfollow_user-SuggestionsAgree now a b w keys =
    SuggestionsAgree-kept w (final (unfollow_user now a b w))
      (unfollow_user-StillKept now a b w keys)

pub is_following-SuggestionsAgree :
    (now a b : ℕ) (w : World)
    → SuggestionsAgree w
    → SuggestionsAgree (final (is_following now a b w))
unfolding is_following
is_following-SuggestionsAgree now a b w h = elim (Option-cases (w.statuses a b)) [
  | inl missing ↦ rw missing h
  | inr (c, found) ↦ elim (Bool-cases (ltb now c.expires)) [
    | inl alive ↦ rw found (rw alive h)
    | inr old ↦ rw found (rw old h)
  ]
]

remember-SuggestionsAgree :
    (now a : ℕ) (found ids : List ℕ) (w : World)
    → SuggestionsAgree w
    → SuggestionsAgree (remember now a found ids w)
remember-SuggestionsAgree now a found [] w h = h
remember-SuggestionsAgree now a found (k ∷ ids) w h = remember-SuggestionsAgree now a found ids _ h

looked_up-SuggestionsAgree :
    (now a : ℕ) (w : World) (missed : List ℕ) (cached : Answers)
    → SuggestionsAgree w
    → SuggestionsAgree
        (final (after (look_up_all now a missed w) (λ r u. returned (r ++ cached) u)))
looked_up-SuggestionsAgree now a w [] cached h = h
looked_up-SuggestionsAgree now a w (j ∷ missed) cached h =
    remember-SuggestionsAgree now a (following_set a (j ∷ missed) w) (j ∷ missed) w h

pub batch_follow_status-SuggestionsAgree :
    (now a : ℕ) (w : World) (user_ids : List ℕ)
    → SuggestionsAgree w
    → SuggestionsAgree (final (batch_follow_status now a user_ids w))
unfolding batch_follow_status
batch_follow_status-SuggestionsAgree now a w [] h = h
batch_follow_status-SuggestionsAgree now a w (j ∷ user_ids) h =
    looked_up-SuggestionsAgree now a w (uncached_ids now a (take 100 (j ∷ user_ids)) w)
      (cached_results now a (take 100 (j ∷ user_ids)) w) h

module _ (by_followers : List Person → List Person) (now user limit : ℕ) (w : World) where
  found-same :
      (P : World → Type 0)
      → ((f : ℕ → Option Suggested) → P w → P (record w { suggestions = f }))
      → (cached : List Person) → P w
      → P (final (find_suggestions by_followers now user limit cached w))
  found-same P ignores [] h = ignores _ h
  found-same P ignores (p ∷ cached) h = h

  found-SuggestionsAgree :
      Reorders by_followers
      → (cached : List Person) → SuggestionsAgree w
      → SuggestionsAgree (final (find_suggestions by_followers now user limit cached w))
  found-SuggestionsAgree reorders [] h = λ i c kept. elim (Bool-cases (i == user)) [
    | inl same ↦
        let people = suggested by_followers user limit (following_ids user w) w in
        let own : i ≡ user = ground arith in
        let e : c.value ≡ people = ground (arith, same, kept) in
        subst (λ l. All (IsOpen w i) l) (sym e)
          (subst (λ u. All (IsOpen w u) people) (sym own)
            (suggested-IsOpen by_followers reorders w user limit (following_ids user w) refl))
    | inr other ↦ ground (arith, other, h i c)
  ]
  found-SuggestionsAgree reorders (p ∷ cached) h = h

module _ (by_followers : List Person → List Person) (now user limit : ℕ) (w : World) where
  pub get_follow_suggestions-same :
      (P : World → Type 0)
      → ((f : ℕ → Option Suggested) → P w → P (record w { suggestions = f }))
      → P w
      → P (final (get_follow_suggestions by_followers now user limit w))
  unfolding get_follow_suggestions
  get_follow_suggestions-same P ignores h =
      found-same by_followers now user (safe_limit limit) w P ignores
        (cached_suggestions now (w.suggestions user)) h

  pub get_follow_suggestions-SuggestionsAgree :
      Reorders by_followers
      → SuggestionsAgree w
      → SuggestionsAgree (final (get_follow_suggestions by_followers now user limit w))
  unfolding get_follow_suggestions
  get_follow_suggestions-SuggestionsAgree reorders h =
      found-SuggestionsAgree by_followers now user (safe_limit limit) w reorders
        (cached_suggestions now (w.suggestions user)) h
