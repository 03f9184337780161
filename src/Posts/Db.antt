-- ===== src/Posts/Db.antt =====
-- What a handler of posts works on, and how its calls end.
--
-- A repository call or a call of Redis may throw: `faults` says of each call, in order, whether
-- it does, and once the list is used up no further call throws. What was written before a throw
-- stays written, except inside a transaction.
use Prim.Native.String.{String}
use enix_backend.Base.{
  ℕ, ⊤, Bool, true, false, not, Option, none, some, List, [], ◌∷◌, ◌++◌, any, ◌==◌, if◌then◌else◌,
}
use enix_backend.Http.{Error, failure, internal, not_found, Result, ok, err}
use enix_backend.Posts.Entities.{Post, Comment, Like, Share, Bookmark, Report, Reaction, Collection}

-- The tags under which cached answers are dropped.
pub data Tag : Type 0 where
  post comment : Tag
  post_of comment_of comments_of posts_by bookmarks_by : ℕ → Tag

pub record Tables : Type 0 where
  pub users : List ℕ
  pub posts : List Post
  pub comments : List Comment
  pub likes : List Like
  pub shares : List Share
  pub bookmarks : List Bookmark
  pub reports : List Report
  pub reactions : List Reaction
  pub collections : List Collection
  pub next_id : ℕ

pub record Db : Type 0 where
  pub tables : Tables
  pub open tables use *
  pub cached_users : List ℕ
  pub invalidated : List Tag
  pub faults : List Bool

-- How a call ends, and the database then.
pub data Outcome (A : Type 0) : Type 0 where
  returned : A → Db → Outcome A
  threw : Error → Db → Outcome A

abbrev pub Action : Type 0 → Type 0
Action A = Db → Outcome A

module _ {A : Type 0} where
  abbrev pub final : Outcome A → Db
  final (returned a db) = db
  final (threw e db) = db

  abbrev pub result : Outcome A → Result A
  result (returned a db) = ok a
  result (threw e db) = err e

  abbrev pub pure : A → Action A
  pure a db = returned a db

  abbrev pub throw : Error → Action A
  throw e db = threw e db

  abbrev pub gets : (Db → A) → Action A
  gets f db = returned (f db) db

  -- `if (!value) throw e;`
  abbrev pub or_throw : Option A → Error → Action A
  or_throw none e db = threw e db
  or_throw (some a) e db = returned a db

module _ {A B : Type 0} where
  abbrev pub after : Outcome A → (A → Action B) → Outcome B
  after (returned a db) f = f a db
  after (threw e db) f = threw e db

  infixl 5 ◌>>=◌ ◌>>◌
  abbrev pub ◌>>=◌ : Action A → (A → Action B) → Action B
  ◌>>=◌ m f db = after (m db) f

  abbrev pub ◌>>◌ : Action A → Action B → Action B
  ◌>>◌ m k db = after (m db) (λ _. k)

-- `if (bad) throw e;`
abbrev pub throw_if : Bool → Error → Action ⊤
throw_if true e db = threw e db
throw_if false e db = returned tt db

abbrev pub modify : (Db → Db) → Action ⊤
modify f db = returned tt (f db)

-- what a statement writes
abbrev pub write : (Tables → Tables) → Action ⊤
write f = modify λ db. record db { tables = f db.tables }

-- A call over the network: it may throw.
unfoldable pub take_fault : List Bool → Action ⊤
take_fault [] db = returned tt db
take_fault (false ∷ fs) db = returned tt (record db { faults = fs })
take_fault (true ∷ fs) db = threw failure (record db { faults = fs })

unfoldable pub io : Action ⊤
unfolding take_fault
io db = take_fault db.faults db

-- A call whose errors are logged and dropped.
abbrev pub attempt : Action ⊤ → Action ⊤
attempt m db = returned tt (final (m db))

-- `DataSource.transaction`: on a throw, also at the commit, the tables are as they were.
abbrev pub roll_back : {A : Type 0} → Db → Outcome A → Outcome A
roll_back db (returned a db') = returned a db'
roll_back db (threw e db') = threw e (record db' { tables = db.tables })

unfoldable pub transaction : {A : Type 0} → Action A → Action A
unfolding io
transaction m db = roll_back db (after (m db) λ a. io >> pure a)

-- The `try`/`catch` of a handler: the exceptions that it knows pass, all others are hidden.
abbrev pub rethrow : (Error → Bool) → String → Error → Error
rethrow known message e = if known e then e else internal message

abbrev pub caught : {A : Type 0} → (Error → Bool) → String → Outcome A → Outcome A
caught known message (returned a db) = returned a db
caught known message (threw e db) = threw (rethrow known message e) db

abbrev pub catch_all : {A : Type 0} → (Error → Bool) → String → Action A → Action A
catch_all known message m db = caught known message (m db)

-- `CachingService.invalidateByTags`
unfoldable pub invalidate : List Tag → Action ⊤
unfolding io
invalidate tags = attempt (io >> modify λ db. record db { invalidated = db.invalidated ++ tags })

abbrev pub contains : ℕ → List ℕ → Bool
contains k ks = any (λ j. j == k) ks

-- `userRepository.findOne`, which throws here when there is no such user
unfoldable pub fetch_user : ℕ → Action ⊤
unfolding io
fetch_user user_id = do
  io
  known ← gets (λ db. contains user_id db.users)
  throw_if (not known) (not_found "User not found")

abbrev pub remember : ℕ → Action ⊤
remember user_id = modify λ db. record db { cached_users = user_id ∷ db.cached_users }

-- what a miss in the cache leads to: the fetch, `cacheUser`, whose errors are dropped, and `cacheSet`
unfoldable pub fill_cache : ℕ → Action ⊤
unfolding fetch_user
fill_cache user_id = do fetch_user user_id; attempt (io >> remember user_id); io; remember user_id

-- `RedisService.getOrSet` around `cacheUser`
unfoldable pub cached_user : ℕ → Action ⊤
unfolding fill_cache
cached_user user_id = do
  io
  hit ← gets (λ db. contains user_id db.cached_users)
  if hit then pure tt else fill_cache user_id

-- `CachingService.getOrSetUser` of an identifier: on any throw the user is fetched once more.
abbrev pub or_fetch : ℕ → Outcome ⊤ → Outcome ⊤
or_fetch user_id (returned _ db) = returned tt db
or_fetch user_id (threw e db) = fetch_user user_id db

unfoldable pub get_or_set_user : ℕ → Action ⊤
unfolding cached_user
get_or_set_user user_id db = or_fetch user_id (cached_user user_id db)

-- A database whose calls do not throw.
abbrev pub calm : Db → Db
calm db = record db { faults = [] }
