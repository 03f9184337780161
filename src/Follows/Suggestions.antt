-- ===== src/Follows/Suggestions.antt =====
-- `getFollowSuggestions` of src/rest/api/users/services/follows/follows.service.ts. ORDER BY of the
-- database is the argument `by_followers`.
pub mod Open
pub mod Kept
use enix_backend.Base.{
  ℕ, ◌+◌, ⊤, Bool, true, false, not, Option, none, some, List, [], ◌∷◌, map, keep, take, ◌==◌, ltb,
  leb, ◌&&◌, if◌then◌else◌,
}
use enix_backend.Effects.{Call, pure, gets, modify, after, ◌>>=◌, ◌>>◌}
use enix_backend.Follows.{World, Person, Follow, Suggested, is_among}
use enix_backend.Follows.Connections.{Counts, connection_counts, following_ids}

-- `xs.sort(...)`, which keeps the order of what it finds equal
module _ {A : Type 0} (before : A → A → Bool) where
  abbrev pub insert_by : A → List A → List A
  insert_by x [] = x ∷ []
  insert_by x (y ∷ ys) = if before y x then y ∷ insert_by x ys else x ∷ y ∷ ys

  abbrev pub sort_by : List A → List A
  sort_by [] = []
  sort_by (x ∷ xs) = insert_by x (sort_by xs)

-- `ids.indexOf(k)`, where a missing key has the length of the list in place of -1
abbrev pub index_of : ℕ → List ℕ → ℕ
index_of k [] = 0
index_of k (j ∷ ids) = if j == k then 0 else index_of k ids + 1

-- `Math.min(limit, 50)`
abbrev pub safe_limit : ℕ → ℕ
safe_limit limit = if leb limit 50 then limit else 50

-- the rows of `mutualConnections`, as the users that they lead to
abbrev pub mutual_connections : ℕ → List ℕ → World → List ℕ
mutual_connections user ids w =
    map (λ f. f.following_id)
      (keep (λ f. is_among f.follower_id (take 100 ids) && not (f.following_id == user)) w.follows)

-- the entries of users who are neither the user nor followed already
abbrev pub is_new : ℕ → List ℕ → ℕ × ℕ → Bool
is_new user ids (k, n) = not (k == user) && not (is_among k ids)

-- more connections come first
abbrev pub is_before : ℕ × ℕ → ℕ × ℕ → Bool
is_before (j, m) (k, n) = ltb n m

-- `sortedSuggestions`
abbrev pub sorted_suggestions : ℕ → ℕ → List ℕ → World → List ℕ
sorted_suggestions user limit ids w =
    map (λ (k, n). k)
      (take limit (
        sort_by is_before
          (keep (is_new user ids) (connection_counts [] (mutual_connections user ids w)))))

abbrev pub fetch_suggested : List ℕ → World → List Person
fetch_suggested [] w = []
fetch_suggested (k ∷ ks) w =
    sort_by (λ p q. ltb (index_of p.id (k ∷ ks)) (index_of q.id (k ∷ ks)))
      (keep (λ p. is_among p.id (k ∷ ks)) w.people)

abbrev pub is_popular : ℕ → Person → Bool
is_popular user p = not (p.id == user) && p.is_public

abbrev pub suggested : (List Person → List Person) → ℕ → ℕ → List ℕ → World → List Person
suggested by_followers user limit [] w = take limit (by_followers (keep (is_popular user) w.people))
suggested by_followers user limit (k ∷ ids) w =
    fetch_suggested (sorted_suggestions user limit (k ∷ ids) w) w

abbrev pub keep_suggested : ℕ → ℕ → List Person → Call World ⊤
keep_suggested now user people = modify λ w. record w {
  suggestions = λ i.
      if i == user then some (record { value = people; expires = now + 300 }) else w.suggestions i;
}

-- what Redis answers, where no list and the empty one are alike
abbrev pub cached_suggestions : ℕ → Option Suggested → List Person
cached_suggestions now none = []
cached_suggestions now (some c) = if ltb now c.expires then c.value else []

abbrev pub find_suggestions :
    (List Person → List Person) → ℕ → ℕ → ℕ → List Person → Call World (List Person)
find_suggestions by_followers now user limit (p ∷ cached) = pure (take limit (p ∷ cached))
find_suggestions by_followers now user limit [] = do
  ids ← gets (following_ids user)
  people ← gets (suggested by_followers user limit ids)
  keep_suggested now user people
  pure people

unfoldable pub get_follow_suggestions :
    (List Person → List Person) → ℕ → ℕ → ℕ → Call World (List Person)
get_follow_suggestions by_followers now user limit = do
  cached ← gets (λ w. cached_suggestions now (w.suggestions user))
  find_suggestions by_followers now user (safe_limit limit) cached
