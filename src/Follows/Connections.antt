-- ===== src/Follows/Connections.antt =====
-- The number of connections to each user, as the listings and the suggestions of
-- src/rest/api/users/services/follows/follows.service.ts count them: a Map from users to numbers, as
-- the list of its entries in the order in which the keys were set first.
use enix_backend.Base.{
  ℕ, suc, ◌+◌, ◌≡◌, refl, ◌∙◌, Option, none, some, List, [], ◌∷◌, map, keep, count, find?, is_some,
  arith, ◌==◌, if◌then◌else◌,
}
use enix_backend.Follows.{World, Follow, Person, find_person, follow_where, is_among}

abbrev pub Counts : Type 0
Counts = List (ℕ × ℕ)

-- `counts.set(k, (counts.get(k) || 0) + 1)`
abbrev pub count_up : ℕ → Counts → Counts
count_up k [] = (k, 1) ∷ []
count_up k ((j, n) ∷ m) = if j == k then (j, suc n) ∷ m else (j, n) ∷ count_up k m

-- the loop over the users that the rows lead to
abbrev pub connection_counts : Counts → List ℕ → Counts
connection_counts m [] = m
connection_counts m (k ∷ ks) = connection_counts (count_up k m) ks

-- `counts.get(k) || 0`
abbrev pub count_of : ℕ → Counts → ℕ
count_of k [] = 0
count_of k ((j, n) ∷ m) = if j == k then n else count_of k m

-- the users whom a user follows
abbrev pub following_ids : ℕ → World → List ℕ
following_ids user w = map (λ f. f.following_id) (keep (λ f. f.follower_id == user) w.follows)

abbrev add_pair : Follow → Option Person → List (Follow × Person) → List (Follow × Person)
add_pair f none rows = rows
add_pair f (some p) rows = (f, p) ∷ rows

-- the join of rows with the users in one of their two columns, each of which is a foreign key
abbrev pub join : (Follow → ℕ) → List Follow → World → List (Follow × Person)
join column [] w = []
join column (f ∷ fs) w = add_pair f (find_person (column f) w) (join column fs w)

count_of-count_up :
    (j k : ℕ) (m : Counts)
    → count_of j (count_up k m) ≡ (if k == j then suc (count_of j m) else count_of j m)
count_of-count_up j k [] = ground arith
count_of-count_up j k ((i, n) ∷ m) = ground (arith, count_of-count_up j k m)

pub count_of-connection_counts :
    (j : ℕ) (ks : List ℕ) (m : Counts)
    → count_of j (connection_counts m ks) ≡ count_of j m + count (λ k. k == j) ks
count_of-connection_counts j [] m = omega arith
count_of-connection_counts j (k ∷ ks) m =
    count_of-connection_counts j ks (count_up k m) ∙ ground (arith, count_of-count_up j k m)

pub following_ids-follows :
    (a k : ℕ) (fs : List Follow)
    → is_among k (map (λ f. f.following_id) (keep (λ f. f.follower_id == a) fs))
      ≡ is_some (find? (follow_where a k) fs)
following_ids-follows a k [] = refl
following_ids-follows a k (f ∷ fs) = ground (arith, following_ids-follows a k fs)
