-- ===== src/Posts/Users.antt =====
-- Looking a user up through the cache, when no call throws.
use Prim.Native.String.{String}
use enix_backend.Base.{Bool, ℕ, ◌≡◌, refl, ◌⊎◌, inl, inr, Bool-cases, List, ◌∷◌, ◌||◌, true, arith}
use enix_backend.Http.{Error, not_found}
use enix_backend.Posts.Db.{
  Db, Outcome, final, caught, calm, returned, threw, get_or_set_user, contains,
}

-- Known to the cache or to the database.
abbrev pub IsKnown : ℕ → Db → Type 0
IsKnown user db = (contains user db.cached_users || contains user db.users) ≡ true

-- The user is found, and at most the cache of users changes; or nothing changes.
pub get_or_set_user-calm :
    (user : ℕ) (db : Db)
    → (get_or_set_user user (calm db) ≡ threw (not_found "User not found") (calm db))
      ⊎ ((cache : List ℕ) × (get_or_set_user user (calm db)
            ≡ returned tt (record (calm db) { cached_users = cache }))
          × IsKnown user db)
unfolding get_or_set_user
get_or_set_user-calm user db = elim (Bool-cases (contains user db.cached_users)) [
  | inl hit ↦ inr (db.cached_users, ground arith, ground arith)
  | inr miss ↦ elim (Bool-cases (contains user db.users)) [
    | inl here ↦ inr (user ∷ user ∷ db.cached_users, ground arith, ground arith)
    | inr gone ↦ inl (ground arith)
  ]
]

-- A `catch` block writes nothing.
pub final-caught :
    {A : Type 0} (known : Error → Bool) (message : String) (o : Outcome A)
    → final (caught known message o) ≡ final o
final-caught known message (returned a db) = refl
final-caught known message (threw e db) = refl
