-- ===== src/Redis/Tests/Tagged.antt =====
-- A server for tagged caches that keeps its keys as a function.
mod Cached
use Prim.Native.String.{String}
use text.Mathlib.Text.{◌==◌ as str_eq}
use text.Mathlib.TextPositions.{eq_refl}
use enix_backend.Base.{
  ℕ, subst, length, ◌+◌, ◌*◌, ◌<◌, ◌≤◌, ◌≡◌, ◌≢◌, refl, sym, inl, inr, Bool, true, false,
  Bool-cases, Option, none, some, List, [], ◌∷◌, ltb, arith, if◌then◌else◌,
}
use enix_backend.Base.Texts.{str_eq-cases, str_eq-false}
use enix_backend.Effects.{final, pure, ◌>>=◌, ◌>>◌}
use enix_backend.Redis.Client.{Caches, is_listed}
use enix_backend.Redis.Tags.{cache_set, get_or_set}
use enix_backend.Redis.Tags.Covered.{calm}
use enix_backend.Redis.Tags.Runs.{here, next, store}
use enix_backend.Redis.Tags.Fresh.{set_at, invalidated_at, get_or_set_fresh}
use enix_backend.Caching.{LookupType, user_cache_key}
use enix_backend.Caching.Keys.{user_cache_key-IsApart}

data Held : Type 0 where
  plain : String → Held
  set_of : List String → Held

abbrev Entry : Type 0
Entry = Option (Held × Option ℕ)

abbrev Entries : Type 0
Entries = String → Entry

abbrev lives : ℕ → Option ℕ → Bool
lives now none = true
lives now (some d) = ltb now d

-- the value and the members that an entry holds at a time
abbrev value_at : ℕ → Entry → Option String
value_at now none = none
value_at now (some (plain v, d)) = if lives now d then some v else none
value_at now (some (set_of xs, d)) = none

abbrev members_at : ℕ → Entry → List String
members_at now none = []
members_at now (some (plain v, d)) = []
members_at now (some (set_of xs, d)) = if lives now d then xs else []

abbrev put : String → Entry → Entries → Entries
put k e s j = if str_eq j k then e else s j

abbrev deadline : ℕ → Option ℕ → Option ℕ
deadline now none = none
deadline now (some ttl) = some (now + 1000 * ttl)

-- SADD and EXPIRE on an entry; a key with a value refuses members, a key that is gone has none.
abbrev with_member : ℕ → String → Entry → Entry
with_member now m none = some (set_of (m ∷ []), none)
with_member now m (some (plain v, d)) =
    if lives now d then some (plain v, d) else some (set_of (m ∷ []), none)
with_member now m (some (set_of xs, d)) =
    if lives now d then some (set_of (m ∷ xs), d) else some (set_of (m ∷ []), none)

abbrev until : ℕ → ℕ → Entry → Entry
until now ttl none = none
until now ttl (some (h, d)) = if lives now d then some (h, some (now + 1000 * ttl)) else none

abbrev without : List String → Entries → Entries
without ks s j = if is_listed j ks then none else s j

value_set :
    (now t ttl : ℕ) (v : String)
    → t < now + 1000 * ttl
    → value_at t (some (plain v, some (now + 1000 * ttl))) ≡ some v
value_set now t ttl v h = ground arith

value_late :
    (now t ttl : ℕ) (v : String)
    → now + 1000 * ttl ≤ t
    → value_at t (some (plain v, some (now + 1000 * ttl))) ≡ none
value_late now t ttl v h = ground arith

value_gone : (now t : ℕ) (e : Entry) → value_at now e ≡ none → now ≤ t → value_at t e ≡ none
value_gone now t none h le = refl
value_gone now t (some (set_of xs, d)) h le = refl
value_gone now t (some (plain v, none)) h le = cc h
value_gone now t (some (plain v, some d)) h le = ground (arith, h)

member_new :
    (now : ℕ) (m : String) (e : Entry)
    → value_at now e ≡ none
    → is_listed m (members_at now (with_member now m e)) ≡ true
member_new now m none h = rw (eq_refl m) refl
member_new now m (some (plain v, none)) h = absurd (cc h)
member_new now m (some (plain v, some d)) h = ground (arith, h, eq_refl m)
member_new now m (some (set_of xs, none)) h = rw (eq_refl m) refl
member_new now m (some (set_of xs, some d)) h = ground (arith, eq_refl m)

member_more :
    (now t : ℕ) (m x : String) (e : Entry)
    → now ≤ t
    → is_listed x (members_at t e) ≡ true
    → is_listed x (members_at t (with_member now m e)) ≡ true
member_more now t m x none le h = absurd (cc h)
member_more now t m x (some (plain v, d)) le h = absurd (cc h)
member_more now t m x (some (set_of xs, none)) le h = ground (arith, h)
member_more now t m x (some (set_of xs, some d)) le h = ground (arith, h)

member_kept :
    (now t : ℕ) (x : String) (ttl : ℕ) (e : Entry)
    → is_listed x (members_at now e) ≡ true
    → t < now + 1000 * ttl
    → is_listed x (members_at t (until now ttl e)) ≡ true
member_kept now t x ttl none h before = absurd (cc h)
member_kept now t x ttl (some (plain v, d)) h before = absurd (cc h)
member_kept now t x ttl (some (set_of xs, none)) h before = ground (arith, h)
member_kept now t x ttl (some (set_of xs, some d)) h before = ground (arith, h)

member_alive :
    (now t : ℕ) (x : String) (e : Entry)
    → now ≤ t
    → is_listed x (members_at t e) ≡ true
    → is_listed x (members_at now e) ≡ true
member_alive now t x none le h = h
member_alive now t x (some (plain v, d)) le h = h
member_alive now t x (some (set_of xs, none)) le h = h
member_alive now t x (some (set_of xs, some d)) le h = ground (arith, h)

member_only :
    (now t : ℕ) (m x : String) (e : Entry)
    → x ≢ m
    → is_listed x (members_at t (with_member now m e)) ≡ true
    → is_listed x (members_at t e) ≡ true
member_only now t m x none other h = absurd (cc (rw (str_eq-false m x (λ e. other (sym e))) at h))
member_only now t m x (some (plain v, d)) other h =
    ground (arith, h, str_eq-false m x (λ e. other (sym e)))
member_only now t m x (some (set_of xs, none)) other h =
    ground (arith, h, str_eq-false m x (λ e. other (sym e)))
member_only now t m x (some (set_of xs, some d)) other h =
    ground (arith, h, str_eq-false m x (λ e. other (sym e)))

member_until_only :
    (now t : ℕ) (x : String) (ttl : ℕ) (e : Entry)
    → is_listed x (members_at t (until now ttl e)) ≡ true
    → is_listed x (members_at now e) ≡ true
member_until_only now t x ttl none h = h
member_until_only now t x ttl (some (plain v, none)) h = ground (arith, h)
member_until_only now t x ttl (some (plain v, some d)) h = ground (arith, h)
member_until_only now t x ttl (some (set_of xs, none)) h = ground (arith, h)
member_until_only now t x ttl (some (set_of xs, some d)) h = ground (arith, h)

members_set_fewer :
    (j k x v : String) (t : ℕ) (d : Option ℕ) (s : Entries)
    → is_listed x (members_at t (put k (some (plain v, d)) s j)) ≡ true
    → is_listed x (members_at t (s j)) ≡ true
members_set_fewer j k x v t d s h = elim (str_eq-cases j k) [
  | inl (hit, _) ↦ absurd (cc (rw hit at h))
  | inr (miss, _) ↦ rw miss at h
]

members_sadd_fewer :
    (now t : ℕ) (k j m x : String) (s : Entries)
    → x ≢ m
    → is_listed x (members_at t (put k (with_member now m (s k)) s j)) ≡ true
    → is_listed x (members_at t (s j)) ≡ true
members_sadd_fewer now t k j m x s other h = elim (str_eq-cases j k) [
  | inl (hit, same) ↦
      subst (λ i. is_listed x (members_at t (s i)) ≡ true) (sym same)
        (member_only now t m x (s k) other (rw hit at h))
  | inr (miss, _) ↦ rw miss at h
]

members_del_fewer :
    (t : ℕ) (j x : String) (ks : List String) (s : Entries)
    → is_listed x (members_at t (without ks s j)) ≡ true
    → is_listed x (members_at t (s j)) ≡ true
members_del_fewer t j x ks s h = elim (Bool-cases (is_listed j ks)) [
  | inl hit ↦ absurd (cc (rw hit at h))
  | inr miss ↦ rw miss at h
]

value_del :
    (t : ℕ) (k : String) (ks : List String) (s : Entries)
    → value_at t (s k) ≡ none
    → value_at t (without ks s k) ≡ none
value_del t k ks s h = elim (Bool-cases (is_listed k ks)) [
  | inl hit ↦ rw hit refl
  | inr miss ↦ rw miss h
]

unfoldable caches : Caches String
caches = record {
  State = Entries;
  get = λ now k s. value_at now (s k);
  set = λ now k v ttl s. put k (some (plain v, deadline now ttl)) s;
  members = λ now k s. members_at now (s k);
  sadd = λ now k m s. put k (with_member now m (s k)) s;
  expire = λ now k ttl s. put k (until now ttl (s k)) s;
  del = λ ks s. (length ks, without ks s);
  get_set = λ now t k v ttl s from before. rw (eq_refl k) (value_set now t ttl v before);
  get_set_late = λ now t k v ttl s late. rw (eq_refl k) (value_late now t ttl v late);
  get_set_other = λ now t k j v ttl s other. rw (str_eq-false j k other) refl;
  get_sadd_other = λ now t k j m s other. rw (str_eq-false j k other) refl;
  get_expire_other = λ now t k j ttl s other. rw (str_eq-false j k other) refl;
  get_gone = λ now t k s h le. value_gone now t (s k) h le;
  get_del = λ t k ks s h. rw h refl;
  get_del_gone = λ t k ks s h. value_del t k ks s h;
  members_set_other = λ now t k j v ttl s other. rw (str_eq-false j k other) refl;
  members_sadd = λ now k m s free. rw (eq_refl k) (member_new now m (s k) free);
  members_sadd_more = λ now t k m x s le h. rw (eq_refl k) (member_more now t m x (s k) le h);
  members_sadd_other = λ now t k j m s other. rw (str_eq-false j k other) refl;
  members_expire =
      λ now t k x ttl s h le before. rw (eq_refl k) (member_kept now t x ttl (s k) h before);
  members_expire_other = λ now t k j ttl s other. rw (str_eq-false j k other) refl;
  members_del_other = λ t k ks s h. rw h refl;
  members_alive = λ now t k x s le h. member_alive now t x (s k) le h;
  members_set_only = λ now t k j x v ttl s h. members_set_fewer j k x v t (deadline now ttl) s h;
  members_sadd_only = λ now t k j m x s other h. members_sadd_fewer now t k j m x s other h;
  members_expire_only =
      λ now t k x ttl s h. member_until_only now t x ttl (s k) (rw (eq_refl k) at h);
  members_del_only = λ t j x ks s h. members_del_fewer t j x ks s h;
}
