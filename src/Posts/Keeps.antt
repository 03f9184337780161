-- ===== src/Posts/Keeps.antt =====
-- Which steps leave the tables alone, and which handlers leave them alone when they throw. Both
-- hold whatever calls throw.
use Prim.Native.String.{String}
use enix_backend.Base.{
  subst, sym, ℕ, ⊤, ◌≡◌, refl, ◌∙◌, Bool, true, false, Option, none, some, List, [], ◌∷◌, not,
  if◌then◌else◌,
}
use enix_backend.Http.{Error, not_found}
use enix_backend.Posts.Db.{
  Db, Tables, Outcome, returned, threw, Action, final, after, ◌>>=◌, ◌>>◌, pure, or_throw, throw_if,
  io, take_fault, transaction, roll_back, caught, invalidate, Tag, get_or_set_user, cached_user,
  fill_cache, fetch_user, or_fetch, contains, attempt, remember,
}
use enix_backend.Posts.Repo.{find_post, need_post}

abbrev pub Keeps : {A : Type 0} → Action A → Type 0
Keeps m = (db : Db) → (final (m db)).tables ≡ db.tables

after-outcome-Keeps :
    {A B : Type 0} (t : Tables) (o : Outcome A) (f : A → Action B)
    → (final o).tables ≡ t
    → ((a : A) → Keeps (f a))
    → (final (after o f)).tables ≡ t
after-outcome-Keeps t (returned a db) f h k = k a db ∙ h
after-outcome-Keeps t (threw e db) f h k = h

module _ {A B : Type 0} (m : Action A) where
  pub bind-Keeps : (f : A → Action B) → Keeps m → ((a : A) → Keeps (f a)) → Keeps (m >>= f)
  bind-Keeps f h k db = after-outcome-Keeps db.tables (m db) f (h db) k

  pub then-Keeps : (k : Action B) → Keeps m → Keeps k → Keeps (m >> k)
  then-Keeps k h j db = after-outcome-Keeps db.tables (m db) (λ _. k) (h db) (λ _. j)

take_fault-Keeps : (fs : List Bool) → Keeps (take_fault fs)
unfolding take_fault
take_fault-Keeps [] db = refl
take_fault-Keeps (false ∷ fs) db = refl
take_fault-Keeps (true ∷ fs) db = refl

pub io-Keeps : Keeps io
unfolding io
io-Keeps db = take_fault-Keeps db.faults db

pub throw_if-Keeps : (b : Bool) (e : Error) → Keeps (throw_if b e)
throw_if-Keeps true e db = refl
throw_if-Keeps false e db = refl

pub or_throw-Keeps : {A : Type 0} (o : Option A) (e : Error) → Keeps (or_throw o e)
or_throw-Keeps none e db = refl
or_throw-Keeps (some a) e db = refl

pub invalidate-Keeps : (tags : List Tag) → Keeps (invalidate tags)
unfolding invalidate
invalidate-Keeps tags db = after-outcome-Keeps db.tables (io db) _ (io-Keeps db) (λ _ _. refl)

fetch_user-Keeps : (user : ℕ) → Keeps (fetch_user user)
unfolding fetch_user
fetch_user-Keeps user db =
    after-outcome-Keeps db.tables (io db) _ (io-Keeps db)
      (λ _ db'. throw_if-Keeps (not (contains user db'.users)) (not_found "User not found") db')

fill_cache-Keeps : (user : ℕ) → Keeps (fill_cache user)
unfolding fill_cache
fill_cache-Keeps user =
    then-Keeps (fetch_user user) (attempt (io >> remember user) >> (io >> remember user))
      (fetch_user-Keeps user)
      (then-Keeps (attempt (io >> remember user)) (io >> remember user)
        (then-Keeps io (remember user) io-Keeps (λ _. refl))
        (then-Keeps io (remember user) io-Keeps (λ _. refl)))

use_cache-Keeps :
    (hit : Bool) (user : ℕ) (db : Db)
    → (final ((if hit then pure tt else fill_cache user) db)).tables ≡ db.tables
use_cache-Keeps true user db = refl
use_cache-Keeps false user db = fill_cache-Keeps user db

cached_user-Keeps : (user : ℕ) → Keeps (cached_user user)
unfolding cached_user
cached_user-Keeps user db =
    after-outcome-Keeps db.tables (io db) _ (io-Keeps db)
      (λ _ db'. use_cache-Keeps (contains user db'.cached_users) user db')

or_fetch-keeps :
    (user : ℕ) (t : Tables) (o : Outcome ⊤)
    → (final o).tables ≡ t
    → (final (or_fetch user o)).tables ≡ t
or_fetch-keeps user t (returned _ db) h = h
or_fetch-keeps user t (threw e db) h = fetch_user-Keeps user db ∙ h

pub get_or_set_user-Keeps : (user : ℕ) → Keeps (get_or_set_user user)
unfolding get_or_set_user
get_or_set_user-Keeps user db =
    or_fetch-keeps user db.tables (cached_user user db) (cached_user-Keeps user db)

pub find_post-Keeps : (k : ℕ) → Keeps (find_post k)
unfolding find_post
find_post-Keeps k db = after-outcome-Keeps db.tables (io db) _ (io-Keeps db) (λ _ _. refl)

pub need_post-Keeps : (k : ℕ) → Keeps (need_post k)
unfolding need_post
need_post-Keeps k db =
    after-outcome-Keeps db.tables (find_post k db) _ (find_post-Keeps k db)
      (λ found db'. or_throw-Keeps found (not_found "Post not found") db')

-- A throw leaves the tables as they were.
abbrev pub ThrowsBack : {A : Type 0} → Tables → Outcome A → Type 0
ThrowsBack t (returned a db) = ⊤
ThrowsBack t (threw e db) = db.tables ≡ t

pub after-ThrowsBack :
    {A B : Type 0} (t : Tables) (o : Outcome A) (f : A → Action B)
    → (final o).tables ≡ t
    → ((a : A) (db : Db) → db.tables ≡ t → ThrowsBack t (f a db))
    → ThrowsBack t (after o f)
after-ThrowsBack t (returned a db) f h k = k a db h
after-ThrowsBack t (threw e db) f h k = h

pub transaction-ThrowsBack :
    {A : Type 0} (m : Action A) (db : Db) → ThrowsBack db.tables (transaction m db)
unfolding transaction
transaction-ThrowsBack {A} m db = rolled (after (m db) (λ a. io >> pure a))
  where
    rolled : (o : Outcome A) → ThrowsBack db.tables (roll_back db o)
    rolled (returned a db') = tt
    rolled (threw e db') = refl

-- What follows a transaction and does not throw.
pub then-ThrowsBack :
    {A B : Type 0} (t : Tables) (o : Outcome A) (f : A → Action B)
    → ThrowsBack t o
    → ((a : A) (db : Db) → ThrowsBack t (f a db))
    → ThrowsBack t (after o f)
then-ThrowsBack t (returned a db) f h k = k a db
then-ThrowsBack t (threw e db) f h k = h

pub caught-ThrowsBack :
    {A : Type 0} (t : Tables) (known : Error → Bool) (message : String) (o : Outcome A)
    → ThrowsBack t o
    → ThrowsBack t (caught known message o)
caught-ThrowsBack t known message (returned a db) h = h
caught-ThrowsBack t known message (threw e db) h = h

-- What holds of the tables if a call returns; nothing is said of one that throws.
abbrev pub Ensures : {A : Type 0} → (A → Tables → Type 0) → Outcome A → Type 0
Ensures Q (returned a db) = Q a db.tables
Ensures Q (threw e db) = ⊤

pub after-Ensures :
    {A B : Type 0} (P : A → Tables → Type 0) (Q : B → Tables → Type 0) (o : Outcome A)
    (f : A → Action B)
    → Ensures P o
    → ((a : A) (db : Db) → P a db.tables → Ensures Q (f a db))
    → Ensures Q (after o f)
after-Ensures P Q (returned a db) f h k = k a db h
after-Ensures P Q (threw e db) f h k = tt

pub Keeps-Ensures :
    {A : Type 0} (t : Tables) (o : Outcome A) → (final o).tables ≡ t → Ensures (λ _ u. u ≡ t) o
Keeps-Ensures t (returned a db) h = h
Keeps-Ensures t (threw e db) h = tt

pub transaction-Ensures :
    {A : Type 0} (Q : A → Tables → Type 0) (m : Action A) (db : Db)
    → Ensures Q (m db)
    → Ensures Q (transaction m db)
unfolding transaction
transaction-Ensures {A} Q m db h = rolled _ (
    after-Ensures Q Q (m db) (λ a. io >> pure a) h
      λ a db' q.
        after-Ensures (λ _ u. u ≡ db'.tables) Q (io db') (λ _. pure a)
          (Keeps-Ensures db'.tables (io db') (io-Keeps db')) (λ _ db'' e. subst (Q a) (sym e) q))
  where
    rolled : (o : Outcome A) → Ensures Q o → Ensures Q (roll_back db o)
    rolled (returned a db') q = q
    rolled (threw e db') q = tt

-- A handler that throws nothing that it wrote, and whose returns keep an invariant, keeps it.
pub ThrowsBack-Ensures :
    {A : Type 0} (P : Tables → Type 0) (t : Tables) (o : Outcome A)
    → ThrowsBack t o
    → Ensures (λ _ u. P u) o
    → P t
    → P (final o).tables
ThrowsBack-Ensures P t (returned a db) b e p = e
ThrowsBack-Ensures P t (threw x db) b e p = subst P (sym b) p

-- a network call, and then the rest
pub io-Ensures :
    {B : Type 0} (Q : B → Tables → Type 0) (db : Db) (f : ⊤ → Action B)
    → ((db' : Db) → db'.tables ≡ db.tables → Ensures Q (f tt db'))
    → Ensures Q (after (io db) f)
io-Ensures Q db f k =
    after-Ensures (λ _ u. u ≡ db.tables) Q (io db) f (Keeps-Ensures db.tables (io db) (io-Keeps db))
      (λ _ db' e. k db' e)

pub Ensures-map :
    {A : Type 0} (P Q : A → Tables → Type 0) (o : Outcome A)
    → ((a : A) (u : Tables) → P a u → Q a u)
    → Ensures P o
    → Ensures Q o
Ensures-map P Q (returned a db) f h = f a db.tables h
Ensures-map P Q (threw e db) f h = tt

pub caught-Ensures :
    {A : Type 0} (Q : A → Tables → Type 0) (known : Error → Bool) (message : String) (o : Outcome A)
    → Ensures Q o
    → Ensures Q (caught known message o)
caught-Ensures Q known message (returned a db) h = h
caught-Ensures Q known message (threw e db) h = tt
