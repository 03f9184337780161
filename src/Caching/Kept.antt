-- ===== src/Caching/Kept.antt =====
-- What cacheUser stores is served until its time is over.
use Prim.Native.String.{String}
use enix_backend.Base.{
  ℕ, ◌+◌, ◌*◌, ◌≤◌, ◌<◌, ◌≡◌, refl, sym, ap, subst, ◌∙◌, inl, inr, ◌⊎◌, Option, none, some, List,
  [], ◌∷◌, arith,
}
use enix_backend.Base.Texts.{str_eq-cases}
use enix_backend.Effects.{returned}
use enix_backend.Redis.Client.{Caches}
use enix_backend.Redis.Keys.{tag, tags_of}
use enix_backend.Redis.Tags.{Json, if_given}
use enix_backend.Redis.Tags.Covered.{calm, tagged, IsApart}
use enix_backend.Redis.Tags.Runs.{stored, cache_set-eq}
use enix_backend.Caching.{
  LookupType, CacheOptions, UserFields, user_cache_key, ttl_of, or_default, user_tags, cache_user,
  store_if,
}
use enix_backend.Caching.Keys.{user_cache_key-IsApart}

module _ {V W : Type 0} (redis : Caches W) (json : Json V W) (prefix key : String)
    (apart : IsApart redis prefix key) (now ttl : ℕ) (value : V) where
  -- until its time is over the key holds the value
  abbrev pub IsHeld : redis.State → Type 0
  IsHeld s = (t : ℕ) → now ≤ t → t < now + 1000 * ttl → redis.get t key s ≡ some (json.write value)

  IsHeld-tagged :
      (other : String) (span : Option ℕ) (names : List String) (s : redis.State)
      → IsHeld s
      → IsHeld (tagged redis prefix now other span names s)
  IsHeld-tagged other span [] s h = h
  IsHeld-tagged other none (name ∷ names) s h = IsHeld-tagged other none names _ (λ t from before.
      redis.get_sadd_other now t (tag prefix name) key other s (apart.no_tag name)
      ∙ h t from before)
  IsHeld-tagged other (some n) (name ∷ names) s h =
      IsHeld-tagged other (some n) names _ (λ t from before.
        redis.get_expire_other now t (tag prefix name) key n _ (apart.no_tag name)
        ∙ redis.get_sadd_other now t (tag prefix name) key other s (apart.no_tag name)
        ∙ h t from before)

  -- what is stored at the key itself, or for the same value at another key
  IsHeld-set :
      (other : String) (s : redis.State)
      → (key ≡ other) ⊎ IsHeld s
      → IsHeld (redis.set now other (json.write value) (some ttl) s)
  IsHeld-set other s (inl same) t from before =
      subst
        (λ k.
          redis.get t k (redis.set now other (json.write value) (some ttl) s)
          ≡ some (json.write value))
        (sym same) (redis.get_set now t other (json.write value) ttl s from before)
  IsHeld-set other s (inr h) t from before = elim (str_eq-cases key other) [
    | inl (hit, same) ↦
        subst
          (λ k.
            redis.get t k (redis.set now other (json.write value) (some ttl) s)
            ≡ some (json.write value))
          (sym same) (redis.get_set now t other (json.write value) ttl s from before)
    | inr (miss, differ) ↦
        redis.get_set_other now t other key (json.write value) (some ttl) s differ ∙ h t from before
  ]

  pub IsHeld-stored :
      (other : String) (names : List String) (s : redis.State)
      → 0 < ttl
      → (key ≡ other) ⊎ IsHeld s
      → IsHeld (stored redis json prefix now other value (some ttl) names s)
  IsHeld-stored other [] s pos h =
      let given : some ttl ≡ if_given (some ttl) = ground arith in
      subst (λ o. IsHeld (redis.set now other (json.write value) o s)) given (IsHeld-set other s h)
  IsHeld-stored other (name ∷ names) s pos h =
      let given : some ttl ≡ if_given (some ttl) = ground arith in
      subst
        (λ o. IsHeld (
          tagged redis prefix now other o (name ∷ names) (
            redis.set now (tags_of prefix other) (json.write_tags (name ∷ names)) o
              (redis.set now other (json.write value) o s))))
        given
        (IsHeld-tagged other (some ttl) (name ∷ names) _ (λ t from before.
          redis.get_set_other now t (tags_of prefix other) key (json.write_tags (name ∷ names))
            (some ttl) _ (apart.no_tags other)
          ∙ IsHeld-set other s h t from before))

-- The keys that a user is cached under.
abbrev pub IsUnder : {V : Type 0} → UserFields V → String → V → LookupType → String → Type 0
IsUnder fields user_id user LookupType.by_id identifier = identifier ≡ user_id
IsUnder fields user_id user LookupType.by_username identifier =
    fields.username user ≡ some identifier
IsUnder fields user_id user LookupType.by_email identifier = fields.email user ≡ some identifier
IsUnder fields user_id user LookupType.by_websocket_id identifier =
    fields.websocket_id user ≡ some identifier

pub or_default-pos : (given : Option ℕ) (ttl : ℕ) → or_default given ≡ some ttl → 0 < ttl
or_default-pos none ttl e = ground (arith, e)
or_default-pos (some n) ttl e = ground (arith, e)

module _ {V W : Type 0} (redis : Caches W) (json : Json V W) (fields : UserFields V)
    (prefix : String) (begin now : ℕ) where
  -- the server after a user was stored under one more name, where he has one
  abbrev pub also :
      LookupType → Option String → V → Option ℕ → List String → redis.State → redis.State
  also kind none user span names s = s
  also kind (some name) user span names s =
      stored redis json prefix now (user_cache_key prefix kind name) user span names s

  store_if-eq :
      (kind : LookupType) (name : Option String) (user : V) (options : CacheOptions)
      (names : List String) (s : redis.State)
      → store_if redis json fields prefix begin now kind name user options names
          (calm redis prefix s)
        ≡ returned tt (calm redis prefix (also kind name user (ttl_of options) names s))
  store_if-eq kind none user options names s = refl
  store_if-eq kind (some name) user options names s =
      cache_set-eq redis json prefix now (user_cache_key prefix kind name) user (ttl_of options)
        names s

  abbrev pub all_stored : String → V → Option ℕ → List String → redis.State → redis.State
  all_stored user_id user span names s =
      also LookupType.by_websocket_id (fields.websocket_id user) user span names (
        also LookupType.by_email (fields.email user) user span names (
          also LookupType.by_username (fields.username user) user span names
            (also LookupType.by_id (some user_id) user span names s)))

  pub cache_user-eq :
      (user_id : String) (user : V) (options : CacheOptions) (s : redis.State)
      → cache_user redis json fields prefix begin now user_id user options (calm redis prefix s)
        ≡ returned tt (
            calm redis prefix
              (all_stored user_id user (ttl_of options) (user_tags options user_id) s))
  unfolding cache_user
  cache_user-eq user_id user options s =
      let names = user_tags options user_id in
      let span = ttl_of options in
      let first = also LookupType.by_id (some user_id) user span names s in
      let second = also LookupType.by_username (fields.username user) user span names first in
      let third = also LookupType.by_email (fields.email user) user span names second in
      rw (store_if-eq LookupType.by_id (some user_id) user options names s) (
        rw (store_if-eq LookupType.by_username (fields.username user) user options names first) (
          rw (store_if-eq LookupType.by_email (fields.email user) user options names second) (
            rw
              (store_if-eq LookupType.by_websocket_id (fields.websocket_id user) user options names
                third)
              refl)))

  module _ (ttl : ℕ) (pos : 0 < ttl) (user : V) (names : List String) (kind : LookupType)
      (identifier : String) where
    abbrev pub Held : redis.State → Type 0
    Held =
        IsHeld redis json prefix (user_cache_key prefix kind identifier)
          (user_cache_key-IsApart redis prefix kind identifier) now ttl user

    also-Held :
        (other : LookupType) (name : Option String) (s : redis.State)
        → Held s
        → Held (also other name user (some ttl) names s)
    also-Held other none s h = h
    also-Held other (some name) s h =
        IsHeld-stored redis json prefix (user_cache_key prefix kind identifier)
          (user_cache_key-IsApart redis prefix kind identifier) now ttl user
          (user_cache_key prefix other name) names s pos (inr h)

    own-Held :
        (name : Option String) (s : redis.State)
        → name ≡ some identifier
        → Held (also kind name user (some ttl) names s)
    own-Held name s same =
        subst (λ o. Held (also kind o user (some ttl) names s)) (sym same)
          (IsHeld-stored redis json prefix (user_cache_key prefix kind identifier)
            (user_cache_key-IsApart redis prefix kind identifier) now ttl user
            (user_cache_key prefix kind identifier) names s pos (inl refl))

  pub all_stored-Held :
      (ttl : ℕ) (pos : 0 < ttl) (user_id : String) (user : V) (names : List String)
      (kind : LookupType) (identifier : String) (s : redis.State)
      → IsUnder fields user_id user kind identifier
      → Held ttl pos user names kind identifier (all_stored user_id user (some ttl) names s)
  all_stored-Held ttl pos user_id user names LookupType.by_id identifier s same =
      let keeps = also-Held ttl pos user names LookupType.by_id identifier in
      keeps LookupType.by_websocket_id (fields.websocket_id user) _ (
        keeps LookupType.by_email (fields.email user) _ (
          keeps LookupType.by_username (fields.username user) _ (
            own-Held ttl pos user names LookupType.by_id identifier (some user_id) s
              (ap some (sym same)))))
  all_stored-Held ttl pos user_id user names LookupType.by_username identifier s same =
      let keeps = also-Held ttl pos user names LookupType.by_username identifier in
      keeps LookupType.by_websocket_id (fields.websocket_id user) _ (
        keeps LookupType.by_email (fields.email user) _ (
          own-Held ttl pos user names LookupType.by_username identifier (fields.username user) _
            same))
  all_stored-Held ttl pos user_id user names LookupType.by_email identifier s same =
      also-Held ttl pos user names LookupType.by_email identifier LookupType.by_websocket_id
        (fields.websocket_id user) _
        (own-Held ttl pos user names LookupType.by_email identifier (fields.email user) _ same)
  all_stored-Held ttl pos user_id user names LookupType.by_websocket_id identifier s same =
      own-Held ttl pos user names LookupType.by_websocket_id identifier (fields.websocket_id user) _
        same
