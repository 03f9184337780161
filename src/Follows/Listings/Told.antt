-- ===== src/Follows/Listings/Told.antt =====
-- What a listing tells about each of its users, against questions about that user alone.
use enix_backend.Base.{
  ℕ, ◌≡◌, refl, ap, sym, ◌∙◌, inl, inr, Bool, true, false, Bool-cases, Option, none, some, List, [],
  ◌∷◌, map, keep, count, find?, is_some, arith, ◌==◌, ◌&&◌, is_id, if◌then◌else◌,
}
use enix_backend.Follows.{World, Person, Follow, is_among, follow_where}
use enix_backend.Follows.Status.{follows_in}
use enix_backend.Follows.Connections.{
  Counts, connection_counts, count_of, count_of-connection_counts, following_ids,
  following_ids-follows,
}
use enix_backend.Follows.Listings.{
  Listed, connections, people_of, ids_of, count_connections, mutual_follows_counts, shown_count,
  listed_following, followed_by_reader, listed_followers,
}

-- the number of the follows of a user by those whom the reader follows
abbrev pub mutual_follows_of : World → ℕ → ℕ → ℕ
mutual_follows_of w reader k =
    count (λ f. follows_in w reader f.follower_id && f.following_id == k) w.follows

abbrev pub count_for : World → Option ℕ → ℕ → Option ℕ
count_for w none k = none
count_for w (some reader) k = some (mutual_follows_of w reader k)

abbrev pub follows_for : World → Option ℕ → ℕ → Bool
follows_for w none k = false
follows_for w (some reader) k = follows_in w reader k

-- a row of the two listings, from questions about its user alone
abbrev pub shown_following : World → ℕ → Option ℕ → Follow × Person → Listed
shown_following w user reader (f, p) = record {
  person = p;
  is_following = true;
  is_followed_back = if is_id reader user then some (follows_in w p.id user) else none;
  mutual_follows_count = count_for w reader p.id;
}

abbrev pub shown_follower : World → Option ℕ → Follow × Person → Listed
shown_follower w reader (f, p) = record {
  person = p;
  is_following = follows_for w reader p.id;
  is_followed_back = none;
  mutual_follows_count = count_for w reader p.id;
}

count_connected :
    (ids targets : List ℕ) (t : ℕ) (fs : List Follow)
    → is_among t targets ≡ true
    → count
        (λ k. k == t)
        (map
          (λ f. f.following_id)
          (keep (λ f. is_among f.follower_id ids && is_among f.following_id targets) fs))
      ≡ count (λ f. is_among f.follower_id ids && f.following_id == t) fs
count_connected ids targets t [] e = refl
count_connected ids targets t (f ∷ fs) e =
    let same : f.following_id ≡ t → is_among f.following_id targets ≡ true =
      λ s. ap (λ j. is_among j targets) s ∙ e in
    ground (arith, same, count_connected ids targets t fs e)

count_none :
    (t : ℕ) (fs : List Follow)
    → count (λ f. is_among f.follower_id [] && f.following_id == t) fs ≡ 0
count_none t [] = refl
count_none t (f ∷ fs) = count_none t fs

count_of-map :
    (t : ℕ) (targets : List ℕ) (m : Counts)
    → is_among t targets ≡ true
    → count_of t (map (λ j. (j, count_of j m)) targets) ≡ count_of t m
count_of-map t [] m e = cc
count_of-map t (j ∷ targets) m e = elim (Bool-cases (j == t)) [
  | inl hit ↦ let own : j ≡ t = ground arith in rw hit (ap (λ k. count_of k m) own)
  | inr miss ↦ rw miss (count_of-map t targets m (ground arith))
]

count_connections-right :
    (ids targets : List ℕ) (t : ℕ) (w : World)
    → is_among t targets ≡ true
    → count_of t (count_connections ids targets w)
      ≡ count (λ f. is_among f.follower_id ids && f.following_id == t) w.follows
count_connections-right [] targets t w e = sym (count_none t w.follows)
count_connections-right (k ∷ ids) targets t w e =
    let rows : List ℕ = connections (k ∷ ids) targets w in
    count_of-map t targets (connection_counts [] rows) e
    ∙ omega (
      arith,
      count_of-connection_counts t rows [],
      count_connected (k ∷ ids) targets t w.follows e,
    )

count_same :
    (p q : Follow → Bool)
    → ((f : Follow) → p f ≡ q f)
    → (fs : List Follow) → count p fs ≡ count q fs
count_same p q same [] = refl
count_same p q same (f ∷ fs) = ground (arith, same f, count_same p q same fs)

mutual_follows_counts-right :
    (reader : ℕ) (targets : List ℕ) (t : ℕ) (w : World)
    → is_among t targets ≡ true
    → count_of t (mutual_follows_counts (some reader) targets w) ≡ mutual_follows_of w reader t
mutual_follows_counts-right reader [] t w e = cc
mutual_follows_counts-right reader (j ∷ targets) t w e =
    count_connections-right (following_ids reader w) (j ∷ targets) t w e
    ∙ count_same _ (λ f. follows_in w reader f.follower_id && f.following_id == t)
        (λ f.
          ap (λ b. b && f.following_id == t) (following_ids-follows reader f.follower_id w.follows))
        w.follows

shown_count-right :
    (reader : Option ℕ) (targets : List ℕ) (p : Person) (w : World)
    → is_among p.id targets ≡ true
    → shown_count reader (mutual_follows_counts reader targets w) p ≡ count_for w reader p.id
shown_count-right none targets p w e = refl
shown_count-right (some reader) targets p w e =
    ap some (mutual_follows_counts-right reader targets p.id w e)

mutual_follows-right :
    (user k : ℕ) (ids : List ℕ) (fs : List Follow)
    → is_among k ids ≡ true
    → is_among k (
        map
          (λ f. f.follower_id)
          (keep (λ f. is_among f.follower_id ids && f.following_id == user) fs))
      ≡ is_some (find? (follow_where k user) fs)
mutual_follows-right user k ids [] e = refl
mutual_follows-right user k ids (f ∷ fs) e =
    let same : f.follower_id ≡ k → is_among f.follower_id ids ≡ true =
      λ s. ap (λ j. is_among j ids) s ∙ e in
    ground (arith, same, mutual_follows-right user k ids fs e)

followed_by_reader-right :
    (reader : Option ℕ) (k : ℕ) (ids : List ℕ) (w : World)
    → is_among k ids ≡ true
    → is_among k (followed_by_reader reader ids w) ≡ follows_for w reader k
followed_by_reader-right none k ids w e = refl
followed_by_reader-right (some reader) k ids w e = among w.follows
  where
    among :
        (fs : List Follow)
        → is_among k (
            map
              (λ f. f.following_id)
              (keep (λ f. f.follower_id == reader && is_among f.following_id ids) fs))
          ≡ is_some (find? (follow_where reader k) fs)
    among [] = refl
    among (f ∷ fs) =
        let same : f.following_id ≡ k → is_among f.following_id ids ≡ true =
          λ s. ap (λ j. is_among j ids) s ∙ e in
        ground (arith, same, among fs)

-- Each user of a list, shown from the list, is shown as alone.
map-people :
    {B : Type 0} (f : Person → B) (g : Follow × Person → B) (rows all : List (Follow × Person))
    → ((k : ℕ)
        → is_among k (ids_of (people_of rows)) ≡ true
        → is_among k (ids_of (people_of all)) ≡ true)
    → ((r : Follow × Person) → is_among r.1.id (ids_of (people_of all)) ≡ true → f r.1 ≡ g r)
    → map f (people_of rows) ≡ map g rows
map-people f g [] all sub same = refl
map-people f g ((x, p) ∷ rows) all sub same =
    let first : f p ≡ g (x, p) = same (x, p) (sub p.id (ground arith)) in
    let rest = map-people f g rows all (λ k e. sub k (ground (arith, e))) same in
    ap (λ b. b ∷ map f (people_of rows)) first ∙ ap (λ l. g (x, p) ∷ l) rest

pub listed_following-right :
    (w : World) (user : ℕ) (reader : Option ℕ) (rows : List (Follow × Person))
    → listed_following user reader (people_of rows) w ≡ map (shown_following w user reader) rows
listed_following-right w user reader rows =
    let ids = ids_of (people_of rows) in
    map-people _ (shown_following w user reader) rows rows (λ k e. e)
      (λ (f, p) e.
        rw (mutual_follows-right user p.id ids w.follows e)
          (rw (shown_count-right reader ids p w e) refl))

pub listed_followers-right :
    (w : World) (reader : Option ℕ) (rows : List (Follow × Person))
    → listed_followers reader (people_of rows) w ≡ map (shown_follower w reader) rows
listed_followers-right w reader rows =
    let ids = ids_of (people_of rows) in
    map-people _ (shown_follower w reader) rows rows (λ k e. e)
      (λ (f, p) e.
        rw (followed_by_reader-right reader p.id ids w e)
          (rw (shown_count-right reader ids p w e) refl))
