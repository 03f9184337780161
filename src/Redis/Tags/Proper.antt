-- ===== src/Redis/Tags/Proper.antt =====
-- Sets of tags list cached keys, and never a certain key of another kind.
use Prim.Native.String.{String}
use enix_backend.Base.{
  ℕ, ◌≡◌, ◌≢◌, subst, sym, inl, inr, true, false, Bool-cases, Option, none, some, List, [], ◌∷◌,
}
use enix_backend.Base.Texts.{str_eq-cases}
use enix_backend.Redis.Client.{Caches, is_listed}
use enix_backend.Redis.Keys.{tag, tags_of}
use enix_backend.Redis.Tags.Covered.{expired, tagged, untagged}

module _ {V : Type 0} (redis : Caches V) (prefix foreign : String) where
  abbrev pub IsProper : redis.State → Type 0
  IsProper s = (t : ℕ) (set : String) → is_listed foreign (redis.members t set s) ≡ false

  -- What lists no more than before is as proper as before.
  IsProper-less :
      (s u : redis.State)
      → ((t : ℕ) (set : String)
          → is_listed foreign (redis.members t set u) ≡ true
          → (now : ℕ) × (is_listed foreign (redis.members now set s) ≡ true))
      → IsProper s
      → IsProper u
  IsProper-less s u less h t set = elim (Bool-cases (is_listed foreign (redis.members t set u))) [
    | inr no_more ↦ no_more
    | inl listed ↦ let (now, before) = less t set listed in absurd (cc (before, h now set))
  ]

  pub IsProper-set :
      (now : ℕ) (key : String) (value : V) (ttl : Option ℕ) (s : redis.State)
      → IsProper s
      → IsProper (redis.set now key value ttl s)
  IsProper-set now key value ttl s =
      IsProper-less s _ (λ t set e. (t, redis.members_set_only now t key set foreign value ttl s e))

  pub IsProper-del :
      (keys : List String) (s : redis.State) → IsProper s → IsProper (redis.del keys s).1
  IsProper-del keys s =
      IsProper-less s (redis.del keys s).1
        (λ t set e. (t, redis.members_del_only t set foreign keys s e))

  pub IsProper-untagged :
      (keys : List String) (s : redis.State) → IsProper s → IsProper (untagged redis prefix keys s)
  IsProper-untagged [] s h = h
  IsProper-untagged (k ∷ keys) s h =
      IsProper-untagged keys _ (IsProper-del (tags_of prefix k ∷ []) s h)

  IsProper-sadd :
      (now : ℕ) (set member : String) (s : redis.State)
      → foreign ≢ member
      → IsProper s
      → IsProper (redis.sadd now set member s)
  IsProper-sadd now set member s other =
      IsProper-less s (redis.sadd now set member s)
        (λ t j e. (t, redis.members_sadd_only now t set j member foreign s other e))

  IsProper-expired :
      (now : ℕ) (set : String) (ttl : Option ℕ) (s : redis.State)
      → IsProper s
      → IsProper (expired redis prefix now set ttl s)
  IsProper-expired now set none s h = h
  IsProper-expired now set (some ttl) s h =
      IsProper-less s (redis.expire now set ttl s) (λ t j e. less t j e) h
    where
      less :
          (t : ℕ) (j : String)
          → is_listed foreign (redis.members t j (redis.expire now set ttl s)) ≡ true
          → (now' : ℕ) × (is_listed foreign (redis.members now' j s) ≡ true)
      less t j e = elim (str_eq-cases j set) [
        | inl (_, same) ↦ (
          now,
          redis.members_expire_only now t j foreign ttl s (
              subst (λ g. is_listed foreign (redis.members t j (redis.expire now g ttl s)) ≡ true)
                (sym same) e),
        )
        | inr (_, other) ↦ (t, rw (redis.members_expire_other now t set j ttl s other) at e)
      ]

  pub IsProper-tagged :
      (now : ℕ) (key : String) (ttl : Option ℕ) (names : List String) (s : redis.State)
      → foreign ≢ key
      → IsProper s
      → IsProper (tagged redis prefix now key ttl names s)
  IsProper-tagged now key ttl [] s other h = h
  IsProper-tagged now key ttl (name ∷ names) s other h = IsProper-tagged now key ttl names _ other (
      IsProper-expired now (tag prefix name) ttl _
        (IsProper-sadd now (tag prefix name) key s other h))
