-- ===== src/Redis/Lock/Exclusive.antt =====
-- A lock while others try to take it and to release it.
use Prim.Native.String.{String}
use text.Mathlib.TextEquality.{eq_iff}
use text.Mathlib.TextPositions.{eq_refl}
use enix_backend.Base.Texts.{str_eq-cases, str_eq-false}
use enix_backend.Base.{
  ℕ, ◌≤◌, ◌<◌, ◌≡◌, ◌≢◌, ◌⊎◌, inl, inr, refl, subst, sym, ap, ◌∙◌, Bool, true, false, some,
}
use enix_backend.Redis.Client.{Locks}
use enix_backend.Redis.Lock.{delete_if, release_script, holds}

-- What reaches the server: an attempt to take a lock, or the script that releases one.
pub data Message : Type 0 where
  take : (now : ℕ) → (key id : String) → (px : ℕ) → Message
  release : (now : ℕ) → (key id : String) → Message

-- It comes within a span, and it is about another lock or from another holder.
abbrev pub IsForeign : ℕ → ℕ → String → String → Message → Type 0
IsForeign from until k a (take now key id px) =
    (from ≤ now) × (now < until) × ((k ≢ key) ⊎ (a ≢ id))
IsForeign from until k a (release now key id) =
    (from ≤ now) × (now < until) × ((k ≢ key) ⊎ (a ≢ id))

module _ (redis : Locks) where
  -- What the server answers, and its state then.
  abbrev pub serve : Message → redis.State → Bool × redis.State
  serve (take now key id px) s = redis.set_nx now key id px s
  serve (release now key id) s = release_script redis now key id s

  -- The states that foreign requests lead to, in any number and order.
  pub data Reach (from until : ℕ) (k a : String) (s : redis.State) : redis.State → Type 0 where
    here : Reach from until k a s s
    next :
        {u : redis.State} (r : Message)
        → Reach from until k a s u
        → IsForeign from until k a r
        → Reach from until k a s (serve r u).1

  abbrev pub IsOwned : ℕ → ℕ → String → String → redis.State → Type 0
  IsOwned from until k a s = (t : ℕ) → from ≤ t → t < until → redis.get t k s ≡ some a

  module _ (from until : ℕ) (k a : String) where
    del_if-IsOwned :
        (b : Bool) (key : String) (s : redis.State)
        → (b ≡ true → k ≢ key)
        → IsOwned from until k a s
        → IsOwned from until k a (delete_if redis b key s).1
    del_if-IsOwned false key s other owned t late early = owned t late early
    del_if-IsOwned true key s other owned t late early =
        redis.get_del_other t key k s (other refl) ∙ owned t late early

    take_other-IsOwned :
        (now : ℕ) (key id : String) (px : ℕ) (s : redis.State)
        → k ≢ key
        → IsOwned from until k a s
        → IsOwned from until k a (redis.set_nx now key id px s).1
    take_other-IsOwned now key id px s other owned t late early =
        redis.get_set_other now t key k id px s other ∙ owned t late early

    at_key :
        (now : ℕ) (key : String) (s : redis.State)
        → k ≡ key
        → redis.get now k s ≡ some a
        → redis.get now key s ≡ some a
    at_key now key s same h = subst (λ j. redis.get now j s ≡ some a) same h

    take-IsRefused :
        (now : ℕ) (key id : String) (px : ℕ) (s : redis.State)
        → k ≡ key
        → redis.get now k s ≡ some a
        → redis.set_nx now key id px s ≡ (false, s)
    take-IsRefused now key id px s same h =
        redis.set_taken now key id a px s (at_key now key s same h)

    holds-eq :
        (now : ℕ) (key id : String) (s : redis.State)
        → redis.get now key s ≡ some a
        → holds redis (redis.get now key s) id ≡ true
        → a ≡ id
    holds-eq now key id s h on = (eq_iff a id).0 (ap (λ o. holds redis o id) (sym h) ∙ on)

    serve-IsOwned :
        (r : Message) (s : redis.State)
        → IsForeign from until k a r
        → IsOwned from until k a s
        → IsOwned from until k a (serve r s).1
    serve-IsOwned (take now key id px) s (late, early, foreign) owned = elim (str_eq-cases k key) [
      | inl (e, same) ↦ rw (take-IsRefused now key id px s same (owned now late early)) owned
      | inr (e, other) ↦ take_other-IsOwned now key id px s other owned
    ]
    serve-IsOwned (release now key id) s (late, early, foreign) owned =
        del_if-IsOwned (holds redis (redis.get now key s) id) key s (unlike foreign) owned
      where
        unlike : (k ≢ key) ⊎ (a ≢ id) → holds redis (redis.get now key s) id ≡ true → k ≢ key
        unlike (inl other) on same = other same
        unlike (inr other) on same =
            other (holds-eq now key id s (at_key now key s same (owned now late early)) on)

    Reach-IsOwned :
        {s u : redis.State}
        → Reach from until k a s u
        → IsOwned from until k a s
        → IsOwned from until k a u
    Reach-IsOwned here owned = owned
    Reach-IsOwned (next {u} r before foreign) owned =
        serve-IsOwned r u foreign (Reach-IsOwned before owned)

  -- While a key holds a lock that was taken for a span of time, and whatever attempts to take locks
  -- and releases of locks reach the server in that span, in any number and order, as long as none is
  -- from the holder for this key: the key still holds it at every moment of the span, every attempt
  -- to take it is refused and changes nothing, a release by anybody else changes nothing, and a
  -- release by the holder deletes it.
  pub lock-IsExclusive :
      (from until : ℕ) (k a : String) (s u : redis.State)
      → IsOwned from until k a s
      → Reach from until k a s u
      → (now : ℕ) → from ≤ now
      → now < until
      → (redis.get now k u ≡ some a)
        × ((id : String) (px : ℕ) → serve (take now k id px) u ≡ (false, u))
        × ((id : String) → id ≢ a → serve (release now k id) u ≡ (false, u))
        × (serve (release now k a) u ≡ (true, redis.del k u))
  lock-IsExclusive from until k a s u owned reached now late early =
      let held : redis.get now k u ≡ some a =
        Reach-IsOwned from until k a reached owned now late early in
      (
        held,
        λ id px. redis.set_taken now k id a px u held,
        λ id other. rw held (rw (str_eq-false a id (λ same. other (sym same))) refl),
        rw held (rw (eq_refl a) refl),
      )
