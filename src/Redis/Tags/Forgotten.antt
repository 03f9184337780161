-- ===== src/Redis/Tags/Forgotten.antt =====
-- What an invalidation by tags leaves of a key that was stored under one of them.
use Prim.Native.String.{String}
use enix_backend.Base.{
  ℕ, ◌+◌, ◌≤◌, ◌≡◌, ◌≢◌, refl, ap, subst, sym, inl, inr, ◌⊎◌, true, false, Bool-cases, none, List,
  [], ◌∷◌, ltb, arith,
}
use enix_backend.Base.Texts.{str_eq-cases}
use enix_backend.Effects.{returned, after}
use enix_backend.Redis.Client.{Caches, is_listed}
use enix_backend.Redis.Keys.{tag, tags_of}
use enix_backend.Redis.Tags.{delete_members, invalidate_by_tags}
use enix_backend.Redis.Tags.Covered.{calm, untagged, delete_tags_of-eq, IsApart, IsCovered, IsGone}
use enix_backend.Redis.Tags.Proper.{IsProper, IsProper-del, IsProper-untagged}

module _ {V : Type 0} (redis : Caches V) (prefix key mine : String) (ends : ℕ)
    (apart : IsApart redis prefix key) where
  abbrev set_key : String
  set_key = tag prefix mine

  abbrev Covers : ℕ → redis.State → Type 0
  Covers now s = IsCovered redis prefix key mine ends now s

  abbrev Gone : ℕ → redis.State → Type 0
  Gone now s = IsGone redis prefix key mine ends now s

  -- An invalidation of the members of a tag, which the server names at that time.
  IsCovered-del :
      (now : ℕ) (keys : List String) (s : redis.State)
      → is_listed set_key keys ≡ false
      → Covers now s
      → Covers now (redis.del keys s).1
  IsCovered-del now keys s kept h = record {
    named = λ t from before. still t (h.named t from before);
    late = λ t after. redis.get_del_gone t key keys s (h.late t after);
  }
    where
      still :
          (t : ℕ)
          → (redis.get t key s ≡ none) ⊎ (is_listed key (redis.members t set_key s) ≡ true)
          → (redis.get t key (redis.del keys s).1 ≡ none)
            ⊎ (is_listed key (redis.members t set_key (redis.del keys s).1) ≡ true)
      still t (inl gone) = inl (redis.get_del_gone t key keys s gone)
      still t (inr listed) = inr (rw (redis.members_del_other t set_key keys s kept) listed)

  IsGone-del :
      (now : ℕ) (keys : List String) (s : redis.State) → Gone now s → Gone now (redis.del keys s).1
  IsGone-del now keys s h t from = redis.get_del_gone t key keys s (h t from)

  IsGone-untagged :
      (now : ℕ) (keys : List String) (s : redis.State)
      → Gone now s
      → Gone now (untagged redis prefix keys s)
  IsGone-untagged now [] s h = h
  IsGone-untagged now (k ∷ keys) s h =
      IsGone-untagged now keys _ (IsGone-del now (tags_of prefix k ∷ []) s h)

  IsCovered-untagged :
      (now : ℕ) (keys : List String) (s : redis.State)
      → ((other : String) → set_key ≢ tags_of prefix other)
      → Covers now s
      → Covers now (untagged redis prefix keys s)
  IsCovered-untagged now [] s other h = h
  IsCovered-untagged now (k ∷ keys) s other h =
      IsCovered-untagged now keys _ other
        (IsCovered-del now (tags_of prefix k ∷ []) s (alone (tags_of prefix k) (other k)) h)
    where
      alone : (j : String) → set_key ≢ j → is_listed set_key (j ∷ []) ≡ false
      alone j differs = elim (str_eq-cases j set_key) [
        | inl (_, same) ↦ absurd (differs (sym same))
        | inr (e, _) ↦ rw e refl
      ]

  -- Where the key is covered, whoever deletes all members of the tag deletes it.
  IsGone-members :
      (now : ℕ) (s : redis.State)
      → Covers now s
      → Gone now (redis.del (redis.members now set_key s) s).1
  IsGone-members now s h t from = elim (Bool-cases (ltb now ends)) [
    | inr over ↦ redis.get_del_gone t key _ s (h.late t (ground (arith, over)))
    | inl before ↦ elim (h.named now (omega arith) (ground (arith, before))) [
      | inl gone ↦ redis.get_del_gone t key _ s (redis.get_gone now t key s gone from)
      | inr listed ↦ redis.get_del t key (redis.members now set_key s) s listed
    ]
  ]

  IsGone-IsCovered :
      (now : ℕ) (s : redis.State)
      → ((t : ℕ) → ends ≤ t → redis.get t key s ≡ none)
      → Gone now s
      → Covers now s
  IsGone-IsCovered now s late gone = record {
    named = λ t from before. inl (gone t from);
    late = late;
  }

  -- The set of the tag is no list of tags of a key.
  module _ (differs : (other : String) → set_key ≢ tags_of prefix other) (now : ℕ) where
    abbrev Sound : redis.State → Type 0
    Sound s = Covers now s × IsProper redis prefix set_key s

    -- what the server is after the members of a tag were deleted
    abbrev without : String → List String → redis.State → redis.State
    without name [] s = s
    without name (k ∷ ks) s =
        (redis.del (tag prefix name ∷ [])
          (untagged redis prefix (k ∷ ks) (redis.del (k ∷ ks) s).1)).1

    abbrev deleted_of : List String → redis.State → ℕ
    deleted_of [] s = 0
    deleted_of (k ∷ ks) s = (redis.del (k ∷ ks) s).0

    delete_members-eq :
        (name : String) (keys : List String) (s : redis.State)
        → delete_members redis prefix name keys (calm redis prefix s)
          ≡ returned (deleted_of keys s) (calm redis prefix (without name keys s))
    delete_members-eq name [] s = refl
    delete_members-eq name (k ∷ ks) s =
        rw
          (delete_tags_of-eq redis prefix ks
            (redis.del (tags_of prefix k ∷ []) (redis.del (k ∷ ks) s).1).1)
          refl

    IsGone-without :
        (name : String) (keys : List String) (s : redis.State)
        → Gone now s
        → Gone now (without name keys s)
    IsGone-without name [] s h = h
    IsGone-without name (k ∷ ks) s h =
        IsGone-del now (tag prefix name ∷ []) _
          (IsGone-untagged now (k ∷ ks) _ (IsGone-del now (k ∷ ks) s h))

    IsProper-without :
        (name : String) (keys : List String) (s : redis.State)
        → IsProper redis prefix set_key s
        → IsProper redis prefix set_key (without name keys s)
    IsProper-without name [] s h = h
    IsProper-without name (k ∷ ks) s h =
        IsProper-del redis prefix set_key (tag prefix name ∷ []) _ (
          IsProper-untagged redis prefix set_key (k ∷ ks) _
            (IsProper-del redis prefix set_key (k ∷ ks) s h))

    -- the tag itself
    IsGone-own :
        (name : String) (keys : List String) (s : redis.State)
        → redis.members now set_key s ≡ keys
        → Covers now s
        → Gone now (without name keys s)
    IsGone-own name [] s e h = λ t from. elim (Bool-cases (ltb now ends)) [
      | inr over ↦ h.late t (ground (arith, over))
      | inl before ↦ elim (h.named now (omega arith) (ground (arith, before))) [
        | inl gone ↦ redis.get_gone now t key s gone from
        | inr listed ↦ absurd (cc (rw e at listed))
      ]
    ]
    IsGone-own name (k ∷ ks) s e h = IsGone-del now (tag prefix name ∷ []) _ (
        IsGone-untagged now (k ∷ ks) _
          (subst (λ l. Gone now (redis.del l s).1) e (IsGone-members now s h)))

    late-without :
        (name : String) (keys : List String) (s : redis.State) (t : ℕ)
        → redis.get t key s ≡ none
        → redis.get t key (without name keys s) ≡ none
    late-without name [] s t h = h
    late-without name (k ∷ ks) s t h =
        redis.get_del_gone t key (tag prefix name ∷ []) _
          (untouched (k ∷ ks) _ (redis.get_del_gone t key (k ∷ ks) s h))
      where
        untouched :
            (l : List String) (u : redis.State)
            → redis.get t key u ≡ none
            → redis.get t key (untagged redis prefix l u) ≡ none
        untouched [] u e = e
        untouched (j ∷ l) u e = untouched l _ (redis.get_del_gone t key (tags_of prefix j ∷ []) u e)

    IsCovered-without :
        (name : String) (keys : List String) (s : redis.State)
        → set_key ≢ tag prefix name
        → is_listed set_key keys ≡ false
        → Covers now s
        → Covers now (without name keys s)
    IsCovered-without name [] s other kept h = h
    IsCovered-without name (k ∷ ks) s other kept h =
        IsCovered-del now (tag prefix name ∷ []) _ (alone (tag prefix name) other)
          (IsCovered-untagged now (k ∷ ks) _ differs (IsCovered-del now (k ∷ ks) s kept h))
      where
        alone : (j : String) → set_key ≢ j → is_listed set_key (j ∷ []) ≡ false
        alone j different = elim (str_eq-cases j set_key) [
          | inl (_, same) ↦ absurd (different (sym same))
          | inr (e, _) ↦ rw e refl
        ]

    Sound-without :
        (name : String) (s : redis.State)
        → Sound s
        → Sound (without name (redis.members now (tag prefix name) s) s)
          × (set_key ≡ tag prefix name
              → Gone now (without name (redis.members now (tag prefix name) s) s))
    Sound-without name s (covered, proper) =
        let keys = redis.members now (tag prefix name) s in
        let own : set_key ≡ tag prefix name → Gone now (without name keys s) =
          λ same. IsGone-own name keys s (ap (λ g. redis.members now g s) same) covered in
        let still : Covers now (without name keys s) =
          elim (str_eq-cases set_key (tag prefix name)) [
            | inl (_, same) ↦
                IsGone-IsCovered now _
                  (λ t after. late-without name keys s t (covered.late t after)) (own same)
            | inr (_, other) ↦
                IsCovered-without name keys s other (proper now (tag prefix name)) covered
          ] in
        ((still, IsProper-without name keys s proper), own)

    -- How `invalidateByTags` ends, and what it leaves.
    pub invalidate_by_tags-ends :
        (names : List String) (s : redis.State)
        → Sound s
        → (n : ℕ) × (u : redis.State) × (invalidate_by_tags redis prefix now names
              (calm redis prefix s)
            ≡ returned n (calm redis prefix u))
          × (Sound u × ((Gone now s → Gone now u) × (is_listed mine names ≡ true → Gone now u)))
    unfolding invalidate_by_tags
    invalidate_by_tags-ends [] s h = (0, s, refl, (h, ((λ g. g), (λ never. absurd (cc never)))))
    invalidate_by_tags-ends (name ∷ names) s h =
        let keys = redis.members now (tag prefix name) s in
        let (sound, own) = Sound-without name s h in
        let (n, u, e, (after, (stays, named))) =
          invalidate_by_tags-ends names (without name keys s) sound in
        (
          deleted_of keys s + n,
          u,
          rw (delete_members-eq name keys s) (rw e refl),
          (
            after,
            (
              (λ gone. stays (IsGone-without name keys s gone)),
              (λ listed. elim (str_eq-cases name mine) [
                | inl (_, same) ↦ stays (own (ap (tag prefix) (sym same)))
                | inr (differ, _) ↦ named (ground (listed, differ, arith))
              ]),
            ),
          ),
        )
