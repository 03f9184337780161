-- ===== src/Redis/Tests/Memory.antt =====
-- A server that keeps its keys as a function, each with the time it goes away, if any.
use Prim.Native.String.{String}
use text.Mathlib.Text.{◌==◌ as str_eq}
use text.Mathlib.TextPositions.{eq_refl}
use enix_backend.Base.{
  ℕ, suc, ◌+◌, ◌*◌, ◌<◌, ◌≡◌, ◌≢◌, refl, Bool, true, false, Option, none, some, ltb, arith,
  if◌then◌else◌, pos,
}
use enix_backend.Base.Texts.{str_eq-false}
use enix_backend.Redis.Client.{Locks, Counters}

abbrev lives : ℕ → Option ℕ → Bool
lives now none = true
lives now (some d) = ltb now d

module _ {A : Type 0} where
  abbrev alive : ℕ → Option (A × Option ℕ) → Option A
  alive now none = none
  alive now (some (a, d)) = if lives now d then some a else none

  abbrev put :
      String
      → Option (A × Option ℕ)
      → (String → Option (A × Option ℕ))
      → String
      → Option (A × Option ℕ)
  put k e s j = if str_eq j k then e else s j

before-alive : {A : Type 0} (a : A) (t d : ℕ) → t < d → alive t (some (a, some d)) ≡ some a
before-alive a t d before = ground arith

abbrev Texts : Type 0
Texts = String → Option (String × Option ℕ)

abbrev get : ℕ → String → Texts → Option String
get now k s = alive now (s k)

abbrev set_if_free : Option String → ℕ → String → String → ℕ → Texts → Bool × Texts
set_if_free none now k v px s = (true, put k (some (v, some (now + px))) s)
set_if_free (some w) now k v px s = (false, s)

set-other :
    (o : Option String) (now t : ℕ) (k j v : String) (px : ℕ) (s : Texts)
    → j ≢ k
    → get t j (set_if_free o now k v px s).1 ≡ get t j s
set-other none now t k j v px s other = rw (str_eq-false j k other) refl
set-other (some w) now t k j v px s other = refl

unfoldable pub locks : Locks
unfolding set-other before-alive
locks = record {
  State = Texts;
  get = get;
  set_nx = λ now k v px s. set_if_free (get now k s) now k v px s;
  del = λ k s. put k none s;
  set_taken = λ now k v w px s h. rw h refl;
  set_free = λ now k v px s h. rw h refl;
  get_set = λ now t k v px s h from before. rw h (rw (eq_refl k) (before-alive _ t _ before));
  get_set_other = λ now t k j v px s other. set-other (get now k s) now t k j v px s other;
  get_del = λ t k s. rw (eq_refl k) refl;
  get_del_other = λ t k j s other. rw (str_eq-false j k other) refl;
}

abbrev Numbers : Type 0
Numbers = String → Option (ℕ × Option ℕ)

abbrev value : ℕ → String → Numbers → Option ℕ
value now k s = alive now (s k)

abbrev deadline_of : Option (ℕ × Option ℕ) → Option ℕ
deadline_of none = none
deadline_of (some (m, d)) = d

-- What INCR makes of a key's entry, given its value now.
abbrev bumped : Option ℕ → Option (ℕ × Option ℕ) → ℕ × Option ℕ
bumped none e = (1, none)
bumped (some n) e = (suc n, deadline_of e)

abbrev incr : ℕ → String → Numbers → ℕ × Numbers
incr now k s = ((bumped (value now k s) (s k)).0, put k (some (bumped (value now k s) (s k))) s)

abbrev timed : Option ℕ → ℕ → Option (ℕ × Option ℕ)
timed none d = none
timed (some n) d = some (n, some d)

abbrev expire : ℕ → String → ℕ → Numbers → Numbers
expire now k window s = put k (timed (value now k s) (now + 1000 * window)) s

bumped-alive :
    (e : Option (ℕ × Option ℕ)) (now t n : ℕ)
    → alive now e ≡ some n
    → alive t e ≡ some n
    → alive t (some (bumped (some n) e)) ≡ some (suc n)
bumped-alive none now t n h j = cc
bumped-alive (some (m, d)) now t n h j = ground (arith, h, j)

unfoldable pub counters : Counters
unfolding bumped-alive before-alive
counters = record {
  State = Numbers;
  value = value;
  incr = incr;
  expire = expire;
  ttl = λ now k s. pos 60;
  del = λ k s. put k none s;
  incr_absent = λ now k s h. rw h refl;
  incr_present = λ now n k s h. rw h refl;
  value_incr_absent = λ now t k s h late. rw h (rw (eq_refl k) refl);
  value_incr_present =
      λ now t n k s h j late. rw h (rw (eq_refl k) (bumped-alive (s k) now t n h j));
  value_incr_other = λ now t k j s other. rw (str_eq-false j k other) refl;
  value_expire =
      λ now t n k window s h late before. rw h (rw (eq_refl k) (before-alive _ t _ before));
  value_expire_other = λ now t k j window s other. rw (str_eq-false j k other) refl;
}
