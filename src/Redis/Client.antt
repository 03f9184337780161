-- ===== src/Redis/Client.antt =====
-- The client of a Redis server: `faults` says of each command, in order, whether it throws, and
-- once the list is used up no further command does. A command that throws has done nothing.
--
-- The server itself is not part of the repository: `Locks` and `Counters` are the commands that
-- the services use, with what the documentation of Redis says about them. Times are milliseconds.
use Prim.Native.String.{String}
use text.Mathlib.Text.{◌==◌ as str_eq}
use enix_backend.Base.{
  ℕ, suc, ◌+◌, ◌*◌, ◌≤◌, ◌<◌, ◌≡◌, ◌≢◌, Bool, true, false, Option, none, some, List, [], ◌∷◌, ℤ,
  any,
}
use enix_backend.Http.{failure}
use enix_backend.Effects.{Ended, returned, threw, Call}

-- `includes`
abbrev pub is_listed : String → List String → Bool
is_listed x xs = any (λ y. str_eq y x) xs

pub record Client (S : Type 0) : Type 0 where
  pub server : S
  pub faults : List Bool

module _ {S A : Type 0} where
  abbrev pub with_faults : List Bool → (S → A × S) → S → Ended (Client S) A
  with_faults [] f s = returned (f s).0 (record { server = (f s).1; faults = [] })
  with_faults (false ∷ fs) f s = returned (f s).0 (record { server = (f s).1; faults = fs })
  with_faults (true ∷ fs) f s = threw failure (record { server = s; faults = fs })

  abbrev pub command : (S → A × S) → Call (Client S) A
  command f c = with_faults c.faults f c.server

-- GET, SET with PX and NX, and DEL, on keys that hold texts.
pub record Locks : Type 1 where
  pub State : Type 0
  pub get : ℕ → String → State → Option String
  pub set_nx : ℕ → String → String → ℕ → State → Bool × State
  pub del : String → State → State
  pub set_taken :
      (now : ℕ) (k v w : String) (px : ℕ) (s : State)
      → get now k s ≡ some w
      → set_nx now k v px s ≡ (false, s)
  pub set_free :
      (now : ℕ) (k v : String) (px : ℕ) (s : State)
      → get now k s ≡ none
      → (set_nx now k v px s).0 ≡ true
  pub get_set :
      (now t : ℕ) (k v : String) (px : ℕ) (s : State)
      → get now k s ≡ none
      → now ≤ t
      → t < now + px
      → get t k (set_nx now k v px s).1 ≡ some v
  pub get_set_other :
      (now t : ℕ) (k j v : String) (px : ℕ) (s : State)
      → j ≢ k
      → get t j (set_nx now k v px s).1 ≡ get t j s
  pub get_del : (t : ℕ) (k : String) (s : State) → get t k (del k s) ≡ none
  pub get_del_other : (t : ℕ) (k j : String) (s : State) → j ≢ k → get t j (del k s) ≡ get t j s

-- INCR, EXPIRE with seconds, TTL and DEL, on keys that hold numbers.
pub record Counters : Type 1 where
  pub State : Type 0
  pub value : ℕ → String → State → Option ℕ
  pub incr : ℕ → String → State → ℕ × State
  pub expire : ℕ → String → ℕ → State → State
  pub ttl : ℕ → String → State → ℤ
  pub del : String → State → State
  pub incr_absent : (now : ℕ) (k : String) (s : State) → value now k s ≡ none → (incr now k s).0 ≡ 1
  pub incr_present :
      (now n : ℕ) (k : String) (s : State) → value now k s ≡ some n → (incr now k s).0 ≡ suc n
  pub value_incr_absent :
      (now t : ℕ) (k : String) (s : State)
      → value now k s ≡ none
      → now ≤ t
      → value t k (incr now k s).1 ≡ some 1
  pub value_incr_present :
      (now t n : ℕ) (k : String) (s : State)
      → value now k s ≡ some n
      → value t k s ≡ some n
      → now ≤ t
      → value t k (incr now k s).1 ≡ some (suc n)
  pub value_incr_other :
      (now t : ℕ) (k j : String) (s : State) → j ≢ k → value t j (incr now k s).1 ≡ value t j s
  pub value_expire :
      (now t n : ℕ) (k : String) (window : ℕ) (s : State)
      → value now k s ≡ some n
      → now ≤ t
      → t < now + 1000 * window
      → value t k (expire now k window s) ≡ some n
  pub value_expire_other :
      (now t : ℕ) (k j : String) (window : ℕ) (s : State)
      → j ≢ k
      → value t j (expire now k window s) ≡ value t j s

-- GET, SET and SETEX with seconds, SADD, SMEMBERS, EXPIRE and DEL, on keys that hold values or sets of
-- texts. A key that has gone does not come back by itself.
pub record Caches (V : Type 0) : Type 1 where
  pub State : Type 0
  pub get : ℕ → String → State → Option V
  pub set : ℕ → String → V → Option ℕ → State → State
  pub members : ℕ → String → State → List String
  pub sadd : ℕ → String → String → State → State
  pub expire : ℕ → String → ℕ → State → State
  pub del : List String → State → ℕ × State
  pub get_set :
      (now t : ℕ) (k : String) (v : V) (ttl : ℕ) (s : State)
      → now ≤ t
      → t < now + 1000 * ttl
      → get t k (set now k v (some ttl) s) ≡ some v
  pub get_set_late :
      (now t : ℕ) (k : String) (v : V) (ttl : ℕ) (s : State)
      → now + 1000 * ttl ≤ t
      → get t k (set now k v (some ttl) s) ≡ none
  pub get_set_other :
      (now t : ℕ) (k j : String) (v : V) (ttl : Option ℕ) (s : State)
      → j ≢ k
      → get t j (set now k v ttl s) ≡ get t j s
  pub get_sadd_other :
      (now t : ℕ) (k j m : String) (s : State) → j ≢ k → get t j (sadd now k m s) ≡ get t j s
  pub get_expire_other :
      (now t : ℕ) (k j : String) (ttl : ℕ) (s : State)
      → j ≢ k
      → get t j (expire now k ttl s) ≡ get t j s
  pub get_gone :
      (now t : ℕ) (k : String) (s : State) → get now k s ≡ none → now ≤ t → get t k s ≡ none
  pub get_del :
      (t : ℕ) (k : String) (ks : List String) (s : State)
      → is_listed k ks ≡ true
      → get t k (del ks s).1 ≡ none
  pub get_del_gone :
      (t : ℕ) (k : String) (ks : List String) (s : State)
      → get t k s ≡ none
      → get t k (del ks s).1 ≡ none
  pub members_set_other :
      (now t : ℕ) (k j : String) (v : V) (ttl : Option ℕ) (s : State)
      → j ≢ k
      → members t j (set now k v ttl s) ≡ members t j s
  pub members_sadd :
      (now : ℕ) (k m : String) (s : State)
      → get now k s ≡ none
      → is_listed m (members now k (sadd now k m s)) ≡ true
  pub members_sadd_more :
      (now t : ℕ) (k m x : String) (s : State)
      → now ≤ t
      → is_listed x (members t k s) ≡ true
      → is_listed x (members t k (sadd now k m s)) ≡ true
  pub members_sadd_other :
      (now t : ℕ) (k j m : String) (s : State)
      → j ≢ k
      → members t j (sadd now k m s) ≡ members t j s
  pub members_expire :
      (now t : ℕ) (k x : String) (ttl : ℕ) (s : State)
      → is_listed x (members now k s) ≡ true
      → now ≤ t
      → t < now + 1000 * ttl
      → is_listed x (members t k (expire now k ttl s)) ≡ true
  pub members_expire_other :
      (now t : ℕ) (k j : String) (ttl : ℕ) (s : State)
      → j ≢ k
      → members t j (expire now k ttl s) ≡ members t j s
  pub members_del_other :
      (t : ℕ) (k : String) (ks : List String) (s : State)
      → is_listed k ks ≡ false
      → members t k (del ks s).1 ≡ members t k s
  pub members_alive :
      (now t : ℕ) (k x : String) (s : State)
      → now ≤ t
      → is_listed x (members t k s) ≡ true
      → is_listed x (members now k s) ≡ true
  pub members_set_only :
      (now t : ℕ) (k j x : String) (v : V) (ttl : Option ℕ) (s : State)
      → is_listed x (members t j (set now k v ttl s)) ≡ true
      → is_listed x (members t j s) ≡ true
  pub members_sadd_only :
      (now t : ℕ) (k j m x : String) (s : State)
      → x ≢ m
      → is_listed x (members t j (sadd now k m s)) ≡ true
      → is_listed x (members t j s) ≡ true
  pub members_expire_only :
      (now t : ℕ) (k x : String) (ttl : ℕ) (s : State)
      → is_listed x (members t k (expire now k ttl s)) ≡ true
      → is_listed x (members now k s) ≡ true
  pub members_del_only :
      (t : ℕ) (j x : String) (ks : List String) (s : State)
      → is_listed x (members t j (del ks s).1) ≡ true
      → is_listed x (members t j s) ≡ true
