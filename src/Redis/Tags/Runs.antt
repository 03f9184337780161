-- ===== src/Redis/Tags/Runs.antt =====
-- A cached key from the moment it is stored on, under the requests of others.
use Prim.Native.String.{String, ◌++◌}
use text.Mathlib.TextLemmas.{append_cancel_left, cons-append}
use Prim.Native.Char.{code}
use enix_backend.Base.{
  ℕ, ◌+◌, ◌*◌, ◌≤◌, ◌<◌, ◌≡◌, ◌≢◌, refl, ap, subst, sym, ◌∙◌, inl, inr, true, Bool-cases, Option,
  none, some, List, [], ◌∷◌, ◌==◌, arith,
}
use enix_backend.Base.Texts.{str_eq-cases}
use enix_backend.Effects.{returned, final}
use enix_backend.Redis.Client.{Caches, is_listed}
use enix_backend.Redis.Keys.{tag, tags_of}
use enix_backend.Redis.Tags.{Json, invalidate_by_tags, cache_set, if_given}
use enix_backend.Redis.Tags.Covered.{
  calm, tagged, add_tags-eq, IsApart, IsCovered, IsCovered-later, IsCovered-set, IsCovered-tagged,
  IsLong,
}
use enix_backend.Redis.Tags.Proper.{IsProper, IsProper-set, IsProper-tagged}
use enix_backend.Redis.Tags.Forgotten.{invalidate_by_tags-ends}

-- the code of the first character
abbrev pub first : String → ℕ
first String.[] = 0
first (String.◌∷◌ c s) = code c

abbrev tail_of : String → String → String
tail_of kind name = kind ++ (":" ++ name)

tag-ne-tags_of : (prefix name other : String) → tag prefix name ≢ tags_of prefix other
tag-ne-tags_of prefix name other same =
    let rest = append_cancel_left ":" _ _ (append_cancel_left prefix _ _ same) in
    let t : first (tail_of "tag" name) ≡ b't' = ap first (cons-append "t" "ag" (":" ++ name)) in
    let c : first (tail_of "cache:tags" other) ≡ b'c' =
      ap first (cons-append "c" "ache:tags" (":" ++ other)) in
    let starts : ◌≡◌ {A = ℕ} b't' b'c' = sym t ∙ ap first rest ∙ c in absurd (omega (arith, starts))

tag-inj : (prefix a b : String) → tag prefix a ≡ tag prefix b → a ≡ b
tag-inj prefix a b same = append_cancel_left ":" a b (
    append_cancel_left "tag" (":" ++ a) (":" ++ b) (
      append_cancel_left ":" (tail_of "tag" a) (tail_of "tag" b)
        (append_cancel_left prefix _ _ same)))

module _ {V W : Type 0} (redis : Caches W) (json : Json V W) (prefix : String) where
  abbrev pub stored : ℕ → String → V → Option ℕ → List String → redis.State → redis.State
  stored now key value ttl [] s = redis.set now key (json.write value) (if_given ttl) s
  stored now key value ttl (name ∷ names) s =
      tagged redis prefix now key (if_given ttl) (name ∷ names) (
        redis.set now (tags_of prefix key) (json.write_tags (name ∷ names)) (if_given ttl)
          (redis.set now key (json.write value) (if_given ttl) s))

  pub cache_set-eq :
      (now : ℕ) (key : String) (value : V) (ttl : Option ℕ) (names : List String) (s : redis.State)
      → cache_set redis json prefix now key value ttl names (calm redis prefix s)
        ≡ returned tt (calm redis prefix (stored now key value ttl names s))
  unfolding cache_set
  cache_set-eq now key value ttl [] s = refl
  cache_set-eq now key value ttl (name ∷ names) s =
      add_tags-eq redis prefix now key (if_given ttl) (name ∷ names) _

  module _ (key mine : String) (ends : ℕ) (apart : IsApart redis prefix key) where
    abbrev pub set_key : String
    set_key = tag prefix mine

    abbrev pub Covers : ℕ → redis.State → Type 0
    Covers now s = IsCovered redis prefix key mine ends now s

    abbrev pub Sound : ℕ → redis.State → Type 0
    Sound now s = Covers now s × IsProper redis prefix set_key s

    -- the tags of the key itself
    tagged-Covers :
        (now n : ℕ) (names : List String) (s : redis.State)
        → now + 1000 * n ≡ ends
        → is_listed mine names ≡ true
        → ((t : ℕ) → ends ≤ t → redis.get t key s ≡ none)
        → redis.get now set_key s ≡ none
        → Covers now (tagged redis prefix now key (some n) names s)
    tagged-Covers now n [] s long listed late free = absurd (cc listed)
    tagged-Covers now n (name ∷ names) s long listed late free =
        let set = tag prefix name in
        let added = redis.sadd now set key s in
        let u = redis.expire now set n added in
        let still : (t : ℕ) → ends ≤ t → redis.get t key u ≡ none = λ t after.
          redis.get_expire_other now t set key n added (apart.no_tag name)
          ∙ redis.get_sadd_other now t set key key s (apart.no_tag name)
          ∙ late t after in
        elim (str_eq-cases name mine) [
          | inr (differ, other) ↦
              let apart_set : set_key ≢ set = λ e. other (sym (tag-inj prefix mine name e)) in
              tagged-Covers now n names u long (ground (listed, differ, arith)) still (
                redis.get_expire_other now now set set_key n added apart_set
                ∙ redis.get_sadd_other now now set set_key key s apart_set
                ∙ free)
          | inl (_, same) ↦
              let own : (t : ℕ)
                  → now ≤ t
                  → t < ends
                  → is_listed key (redis.members t set u) ≡ true =
                λ t from before.
                  redis.members_expire now t set key n added
                    (redis.members_sadd now set key s
                      (subst (λ m. redis.get now (tag prefix m) s ≡ none) (sym same) free))
                    from (omega arith) in
              IsCovered-tagged redis prefix key mine ends now key (some n) names u apart
                (omega arith)
                (record {
                  named = λ t from before. inr (
                      subst (λ m. is_listed key (redis.members t (tag prefix m) u) ≡ true) same
                        (own t from before));
                  late = still;
                })
        ]

    IsLong-enough :
        (now ttl : ℕ)
        → ends ≤ now + 1000 * ttl
        → IsLong redis prefix key mine ends now (if_given (some ttl))
    IsLong-enough now ttl h = elim (Bool-cases (ttl == 0)) [
      | inl nothing ↦ rw nothing tt
      | inr given ↦ rw given h
    ]

    stored-Sound :
        (now : ℕ) (other : String) (value : V) (ttl : ℕ) (names : List String) (s : redis.State)
        → key ≢ other
        → set_key ≢ other
        → ends ≤ now + 1000 * ttl
        → Sound now s
        → Sound now (stored now other value (some ttl) names s)
    stored-Sound now other value ttl [] s differs no_set long (h, proper) = (
      IsCovered-set redis prefix key mine ends now other (json.write value) (if_given (some ttl)) s
          differs no_set h,
      IsProper-set redis prefix set_key now other (json.write value) (if_given (some ttl)) s proper,
    )
    stored-Sound now other value ttl (name ∷ names) s differs no_set long (h, proper) = (
      IsCovered-tagged redis prefix key mine ends now other (if_given (some ttl)) (name ∷ names) _
          apart (IsLong-enough now ttl long)
          (IsCovered-set redis prefix key mine ends now (tags_of prefix other)
            (json.write_tags (name ∷ names)) (if_given (some ttl)) _ (apart.no_tags other)
            (tag-ne-tags_of prefix mine other)
            (IsCovered-set redis prefix key mine ends now other (json.write value)
              (if_given (some ttl)) s differs no_set h)),
      IsProper-tagged redis prefix set_key now other (if_given (some ttl)) (name ∷ names) _ no_set (
          IsProper-set redis prefix set_key now (tags_of prefix other)
            (json.write_tags (name ∷ names)) (if_given (some ttl)) _
            (IsProper-set redis prefix set_key now other (json.write value) (if_given (some ttl)) s
              proper)),
    )

    -- What other requests do in the meantime: they store other keys, whose sets of tags live until
    -- `ends` at least, and invalidate any tags.
    pub data Step : ℕ → redis.State → ℕ → redis.State → Type 0 where
      store :
          {now later : ℕ} {s : redis.State} (other : String) (value : V) (ttl : ℕ)
          (names : List String)
          → now ≤ later
          → key ≢ other
          → set_key ≢ other
          → ends ≤ later + 1000 * ttl
          → Step now s later (
              (final (
                cache_set redis json prefix later other value
                  (some ttl)
                  names
                  (calm redis prefix s))).server)
      drop :
          {now later : ℕ} {s : redis.State} (names : List String)
          → now ≤ later
          → Step now s later
              (final (invalidate_by_tags redis prefix later names (calm redis prefix s))).server

    pub data Reach (now : ℕ) (s : redis.State) : ℕ → redis.State → Type 0 where
      here : Reach now s now s
      next :
          {t later : ℕ} {u v : redis.State}
          → Reach now s t u
          → Step t u later v
          → Reach now s later v

    pub no_tags_of : (other : String) → set_key ≢ tags_of prefix other
    no_tags_of other = tag-ne-tags_of prefix mine other

    Step-Sound :
        {now later : ℕ} {s u : redis.State} → Step now s later u → Sound now s → Sound later u
    Step-Sound {later = later} {s = s} (store other value ttl names order differs no_set long)
          (h, proper) =
        rw (cache_set-eq later other value (some ttl) names s) (
          stored-Sound later other value ttl names s differs no_set long
            (IsCovered-later redis prefix key mine ends order h, proper))
    Step-Sound {later = later} {s = s} (drop names order) (h, proper) =
        let (n, u, e, (sound, rest)) =
          invalidate_by_tags-ends redis prefix key mine ends apart no_tags_of later names s
            (IsCovered-later redis prefix key mine ends order h, proper) in
        rw e sound

    pub Reach-Sound :
        {now : ℕ} {s : redis.State} {later : ℕ} {u : redis.State}
        → Reach now s later u
        → Sound now s
        → Sound later u
    Reach-Sound here h = h
    Reach-Sound (next r st) h = Step-Sound st (Reach-Sound r h)

    pub first_stored :
        (now : ℕ) (value : V) (ttl : ℕ) (names : List String) (s : redis.State)
        → 0 < ttl
        → now + 1000 * ttl ≡ ends
        → is_listed mine names ≡ true
        → IsProper redis prefix set_key s
        → redis.get now set_key s ≡ none
        → Sound now (stored now key value (some ttl) names s)
    first_stored now value ttl [] s pos long listed proper free = absurd (cc listed)
    first_stored now value ttl (name ∷ names) s pos long listed proper free =
        let given : some ttl ≡ if_given (some ttl) = ground arith in
        let own : set_key ≢ key = λ same. apart.no_tag mine (sym same) in
        let late : (t : ℕ)
            → ends ≤ t
            → redis.get t key (
                redis.set now (tags_of prefix key) (json.write_tags (name ∷ names)) (some ttl)
                  (redis.set now key (json.write value) (some ttl) s))
              ≡ none =
          λ t after.
            redis.get_set_other now t (tags_of prefix key) key (json.write_tags (name ∷ names))
              (some ttl) _ (apart.no_tags key)
            ∙ redis.get_set_late now t key (json.write value) ttl s (omega arith) in
        subst
          (λ o. Sound now (
            tagged redis prefix now key o (name ∷ names) (
              redis.set now (tags_of prefix key) (json.write_tags (name ∷ names)) o
                (redis.set now key (json.write value) o s))))
          given
          (
            tagged-Covers now ttl (name ∷ names) _ long listed late (
                redis.get_set_other now now (tags_of prefix key) set_key
                  (json.write_tags (name ∷ names)) (some ttl) _ (tag-ne-tags_of prefix mine key)
                ∙ redis.get_set_other now now key set_key (json.write value) (some ttl) s own
                ∙ free),
            IsProper-tagged redis prefix set_key now key (some ttl) (name ∷ names) _ own (
                IsProper-set redis prefix set_key now (tags_of prefix key)
                  (json.write_tags (name ∷ names)) (some ttl) _
                  (IsProper-set redis prefix set_key now key (json.write value) (some ttl) s
                    proper)),
          )
