-- ===== src/Redis/Tags/Covered.antt =====
-- A cached key, and the set of one of its tags: as long as the key is there, the set names it.
use Prim.Native.String.{String}
use enix_backend.Base.{
  ℕ, ◌+◌, ◌*◌, ◌≤◌, ◌<◌, ◌≡◌, ◌≢◌, refl, subst, inl, inr, ◌⊎◌, true, Option, none, some, List, [],
  ◌∷◌, arith, ⊤,
}
use enix_backend.Base.Texts.{str_eq-cases}
use enix_backend.Effects.{returned}
use enix_backend.Redis.Client.{Client, Caches, is_listed}
use enix_backend.Redis.Keys.{tag, tags_of}
use enix_backend.Redis.Tags.{add_tags, delete_tags_of}

module _ {V : Type 0} (redis : Caches V) (prefix : String) where
  abbrev pub calm : redis.State → Client redis.State
  calm s = record { server = s; faults = [] }

  -- what the loop of `cacheSet` makes of the server
  abbrev pub expired : ℕ → String → Option ℕ → redis.State → redis.State
  expired now key none s = s
  expired now key (some ttl) s = redis.expire now key ttl s

  abbrev pub tagged : ℕ → String → Option ℕ → List String → redis.State → redis.State
  tagged now key ttl [] s = s
  tagged now key ttl (name ∷ names) s =
      tagged now key ttl names
        (expired now (tag prefix name) ttl (redis.sadd now (tag prefix name) key s))

  pub add_tags-eq :
      (now : ℕ) (key : String) (ttl : Option ℕ) (names : List String) (s : redis.State)
      → add_tags redis prefix now key ttl names (calm s)
        ≡ returned tt (calm (tagged now key ttl names s))
  add_tags-eq now key ttl [] s = refl
  add_tags-eq now key none (name ∷ names) s = add_tags-eq now key none names _
  add_tags-eq now key (some n) (name ∷ names) s = add_tags-eq now key (some n) names _

  -- what the loop of `invalidateByTags` makes of the server for the members of a tag
  abbrev pub untagged : List String → redis.State → redis.State
  untagged [] s = s
  untagged (key ∷ keys) s = untagged keys (redis.del (tags_of prefix key ∷ []) s).1

  pub delete_tags_of-eq :
      (keys : List String) (s : redis.State)
      → delete_tags_of redis prefix keys (calm s) ≡ returned tt (calm (untagged keys s))
  delete_tags_of-eq [] s = refl
  delete_tags_of-eq (key ∷ keys) s = delete_tags_of-eq keys _

  -- A key that is neither a set of tags nor a list of tags.
  pub record IsApart (key : String) : Type 0 where
    pub no_tag : (name : String) → key ≢ tag prefix name
    pub no_tags : (other : String) → key ≢ tags_of prefix other

  module _ (key mine : String) (ends : ℕ) where
    abbrev pub set_key : String
    set_key = tag prefix mine

    -- From a time on: until `ends` the set names the key wherever it is there, and then it is gone.
    pub record IsCovered (now : ℕ) (s : redis.State) : Type 0 where
      pub named :
          (t : ℕ)
          → now ≤ t
          → t < ends
          → (redis.get t key s ≡ none) ⊎ (is_listed key (redis.members t set_key s) ≡ true)
      pub late : (t : ℕ) → ends ≤ t → redis.get t key s ≡ none

    abbrev pub IsGone : ℕ → redis.State → Type 0
    IsGone now s = (t : ℕ) → now ≤ t → redis.get t key s ≡ none

    pub IsCovered-later :
        {now later : ℕ} {s : redis.State} → now ≤ later → IsCovered now s → IsCovered later s
    IsCovered-later order h = record {
      named = λ t from before. h.named t (omega arith) before;
      late = h.late;
    }

    pub IsCovered-set :
        (now : ℕ) (other : String) (value : V) (ttl : Option ℕ) (s : redis.State)
        → key ≢ other
        → set_key ≢ other
        → IsCovered now s
        → IsCovered now (redis.set now other value ttl s)
    IsCovered-set now other value ttl s apart no_set h = record {
      named = λ t from before. rw (redis.get_set_other now t other key value ttl s apart) (
          rw (redis.members_set_other now t other set_key value ttl s no_set)
            (h.named t from before));
      late = λ t after. rw (redis.get_set_other now t other key value ttl s apart) (h.late t after);
    }

    IsCovered-sadd :
        (now : ℕ) (set member : String) (s : redis.State)
        → key ≢ set
        → IsCovered now s
        → IsCovered now (redis.sadd now set member s)
    IsCovered-sadd now set member s apart h = record {
      named = λ t from before.
          rw (redis.get_sadd_other now t set key member s apart)
            (more t from (h.named t from before));
      late = λ t after. rw (redis.get_sadd_other now t set key member s apart) (h.late t after);
    }
      where
        more :
            (t : ℕ)
            → now ≤ t
            → (redis.get t key s ≡ none) ⊎ (is_listed key (redis.members t set_key s) ≡ true)
            → (redis.get t key s ≡ none)
              ⊎ (is_listed key (redis.members t set_key (redis.sadd now set member s)) ≡ true)
        more t from (inl gone) = inl gone
        more t from (inr listed) = elim (str_eq-cases set_key set) [
          | inl (_, same) ↦ inr (
              subst
                (λ g. is_listed key (redis.members t set_key (redis.sadd now g member s)) ≡ true)
                same (redis.members_sadd_more now t set_key member key s from listed))
          | inr (_, other) ↦
              inr (rw (redis.members_sadd_other now t set set_key member s other) listed)
        ]

    IsCovered-expire :
        (now : ℕ) (set : String) (ttl : ℕ) (s : redis.State)
        → key ≢ set
        → ends ≤ now + 1000 * ttl
        → IsCovered now s
        → IsCovered now (redis.expire now set ttl s)
    IsCovered-expire now set ttl s apart long h = record {
      named = λ t from before.
          rw (redis.get_expire_other now t set key ttl s apart)
            (more t from before (h.named t from before));
      late = λ t after. rw (redis.get_expire_other now t set key ttl s apart) (h.late t after);
    }
      where
        more :
            (t : ℕ)
            → now ≤ t
            → t < ends
            → (redis.get t key s ≡ none) ⊎ (is_listed key (redis.members t set_key s) ≡ true)
            → (redis.get t key s ≡ none)
              ⊎ (is_listed key (redis.members t set_key (redis.expire now set ttl s)) ≡ true)
        more t from before (inl gone) = inl gone
        more t from before (inr listed) = elim (str_eq-cases set_key set) [
          | inl (_, same) ↦ inr (
              subst (λ g. is_listed key (redis.members t set_key (redis.expire now g ttl s)) ≡ true)
                same
                (redis.members_expire now t set_key key ttl s
                  (redis.members_alive now t set_key key s from listed) from (omega arith)))
          | inr (_, other) ↦
              inr (rw (redis.members_expire_other now t set set_key ttl s other) listed)
        ]

    -- The sets of tags are kept until `ends` at least.
    abbrev pub IsLong : ℕ → Option ℕ → Type 0
    IsLong now none = ⊤
    IsLong now (some ttl) = ends ≤ now + 1000 * ttl

    -- The loop of `cacheSet` over the tags, for any key, with a time to live that is long enough.
    pub IsCovered-tagged :
        (now : ℕ) (other : String) (ttl : Option ℕ) (names : List String) (s : redis.State)
        → IsApart key
        → IsLong now ttl
        → IsCovered now s
        → IsCovered now (tagged now other ttl names s)
    IsCovered-tagged now other ttl [] s apart long h = h
    IsCovered-tagged now other none (name ∷ names) s apart long h =
        IsCovered-tagged now other none names _ apart long
          (IsCovered-sadd now (tag prefix name) other s (apart.no_tag name) h)
    IsCovered-tagged now other (some n) (name ∷ names) s apart long h =
        IsCovered-tagged now other (some n) names _ apart long (
          IsCovered-expire now (tag prefix name) n _ (apart.no_tag name) long
            (IsCovered-sadd now (tag prefix name) other s (apart.no_tag name) h))
