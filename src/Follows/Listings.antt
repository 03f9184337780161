-- ===== src/Follows/Listings.antt =====
-- `getFollowing` and `getFollowers` of src/rest/api/users/services/follows/follows.service.ts. The
-- database orders the rows by `sorting`, and `matches` is LIKE of the term that is searched for, on
-- both names of a user.
pub mod Told
pub mod Pages
use Prim.Native.String.{String}
use text.Mathlib.Text.{◌==◌ as str_eq}
use enix_backend.Base.{
  ℕ, Bool, true, false, Option, none, some, List, [], ◌∷◌, map, keep, length, ◌==◌, ◌&&◌, is_id,
  if◌then◌else◌,
}
use enix_backend.Http.{not_found, internal, is_not_found}
use enix_backend.Effects.{Call, pure, gets, or_throw, catch_all, after, ◌>>=◌, ◌>>◌}
use enix_backend.Paging.{
  PaginationDto, PaginationMeta, Sorting, meta_of, slice, safe_sort_by, is_ascending,
}
use enix_backend.Follows.{World, Person, Follow, find_person, is_among}
use enix_backend.Follows.Connections.{Counts, connection_counts, count_of, following_ids, join}

-- a user of a listing, with what is told about the reader and that user
pub record Listed : Type 0 where
  pub person : Person
  pub is_following : Bool
  pub is_followed_back : Option Bool
  pub mutual_follows_count : Option ℕ

pub record ListedPage : Type 0 where
  pub items : List Listed
  pub meta : PaginationMeta

-- what the database and `trim` do
pub record Tools : Type 0 where
  pub trim : String → String
  pub matches : String → Person → Bool
  pub sorting : Sorting (Follow × Person)

-- `if (search) queryBuilder.andWhere(...)`, after `search?.trim()`
abbrev pub passes : Tools → Option String → Follow × Person → Bool
passes tools none (f, p) = true
passes tools (some term) (f, p) =
    if str_eq (tools.trim term) "" then true else tools.matches (tools.trim term) p

abbrev pub sort_fields : List String
sort_fields = "dateCreated" ∷ "username" ∷ "displayName" ∷ []

abbrev pub in_order : Tools → PaginationDto → List (Follow × Person) → List (Follow × Person)
in_order tools dto rows =
    tools.sorting (safe_sort_by sort_fields dto) (is_ascending "DESC" dto) rows

abbrev pub people_of : List (Follow × Person) → List Person
people_of rows = map (λ (f, p). p) rows

abbrev pub ids_of : List Person → List ℕ
ids_of people = map (λ p. p.id) people

-- `mutualConnectionsData`, as the users that the rows lead to
abbrev pub connections : List ℕ → List ℕ → World → List ℕ
connections ids targets w =
    map (λ f. f.following_id)
      (keep (λ f. is_among f.follower_id ids && is_among f.following_id targets) w.follows)

-- how often the users that a reader follows follow each of these
abbrev pub count_connections : List ℕ → List ℕ → World → Counts
count_connections [] targets w = []
count_connections (k ∷ ids) targets w =
    map (λ t. (t, count_of t (connection_counts [] (connections (k ∷ ids) targets w)))) targets

-- `mutualFollowsCounts`, with the query for those whom the reader follows
abbrev pub mutual_follows_counts : Option ℕ → List ℕ → World → Counts
mutual_follows_counts none targets w = []
mutual_follows_counts (some reader) [] w = []
mutual_follows_counts (some reader) (t ∷ targets) w =
    count_connections (following_ids reader w) (t ∷ targets) w

abbrev pub shown_count : Option ℕ → Counts → Person → Option ℕ
shown_count none counts p = none
shown_count (some reader) counts p = some (count_of p.id counts)

-- `mutualFollows`: of these users, those who follow this one
abbrev pub mutual_follows : ℕ → List ℕ → World → List ℕ
mutual_follows user_id ids w =
    map (λ f. f.follower_id)
      (keep (λ f. is_among f.follower_id ids && f.following_id == user_id) w.follows)

abbrev pub listed_following : ℕ → Option ℕ → List Person → World → List Listed
listed_following user_id reader users w =
    map
      (λ p. record {
        person = p;
        is_following = true;
        is_followed_back =
            if is_id reader user_id
            then some (is_among p.id (mutual_follows user_id (ids_of users) w))
            else none;
        mutual_follows_count = shown_count reader (mutual_follows_counts reader (ids_of users) w) p;
      })
      users

abbrev pub following_rows : Tools → ℕ → Option String → World → List (Follow × Person)
following_rows tools user_id search w =
    keep (passes tools search)
      (join (λ f. f.following_id) (keep (λ f. f.follower_id == user_id) w.follows) w)

unfoldable pub get_following :
    Tools → ℕ → Option ℕ → Option String → PaginationDto → Call World ListedPage
get_following tools user_id reader search dto =
    catch_all is_not_found (internal "Failed to get following list") do
      user ← gets (find_person user_id)
      or_throw user (not_found "User not found")
      found ← gets (following_rows tools user_id search)
      items ←
          gets (listed_following user_id reader (people_of (slice dto (in_order tools dto found))))
      pure (record { items = items; meta = meta_of dto (length found) })

-- `currentUserFollowing`: of these users, those whom the reader follows
abbrev pub followed_by_reader : Option ℕ → List ℕ → World → List ℕ
followed_by_reader none ids w = []
followed_by_reader (some reader) ids w =
    map (λ f. f.following_id)
      (keep (λ f. f.follower_id == reader && is_among f.following_id ids) w.follows)

abbrev pub listed_followers : Option ℕ → List Person → World → List Listed
listed_followers reader users w =
    map
      (λ p. record {
        person = p;
        is_following = is_among p.id (followed_by_reader reader (ids_of users) w);
        is_followed_back = none;
        mutual_follows_count = shown_count reader (mutual_follows_counts reader (ids_of users) w) p;
      })
      users

abbrev pub follower_rows : Tools → ℕ → Option String → World → List (Follow × Person)
follower_rows tools user_id search w =
    keep (passes tools search)
      (join (λ f. f.follower_id) (keep (λ f. f.following_id == user_id) w.follows) w)

unfoldable pub get_followers :
    Tools → ℕ → Option ℕ → Option String → PaginationDto → Call World ListedPage
get_followers tools user_id reader search dto =
    catch_all is_not_found (internal "Failed to get followers list") do
      user ← gets (find_person user_id)
      or_throw user (not_found "User not found")
      found ← gets (follower_rows tools user_id search)
      items ← gets (listed_followers reader (people_of (slice dto (in_order tools dto found))))
      pure (record { items = items; meta = meta_of dto (length found) })
