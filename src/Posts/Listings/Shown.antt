-- ===== src/Posts/Listings/Shown.antt =====
-- What a page of a listing shows to a reader, row by row.
use enix_backend.Base.{
  ℕ, ◌≡◌, refl, ap, ◌∙◌, sym, Bool, true, false, ◌&&◌, ◌||◌, Option, none, some, List, [], ◌∷◌, map,
  length, keep, any, ◌==◌, is_id, if◌then◌else◌, Bool-cases, inl, inr, All, subst, ==_iff, ==_refl,
}
use enix_backend.Paging.{PaginationDto, meta_of, slice}
use enix_backend.Posts.Entities.{Like}
use enix_backend.Posts.Db.{Db, returned, calm, contains, io, take_fault}
use enix_backend.Posts.Listings.{is_in, targets, has, find_likes, with_likes, list_page}

-- Does the user like the row of this identifier?
abbrev pub likes_it : (Like → Option ℕ) → Option ℕ → List Like → ℕ → Bool
likes_it target none likes k = false
likes_it target (some user_id) likes k =
    any (λ l. (l.user_id == user_id) && is_id (target l) k) likes

-- One like, among those of a page that has the row.
has-one :
    (o : Option ℕ) (mine : Bool) (k : ℕ) (ids : List ℕ) (rest : List (Option ℕ)) (more : Bool)
    → contains k ids ≡ true
    → has rest k ≡ more
    → has (if mine && is_in o ids then o ∷ rest else rest) k ≡ (mine && is_id o k) || more
has-one o false k ids rest more h e = e
has-one none true k ids rest more h e = e
has-one (some j) true k ids rest more h e = elim (Bool-cases (j == k)) [
  | inl same ↦
      let here : contains j ids ≡ true =
        subst (λ i. contains i ids ≡ true) (sym ((==_iff j k).0 same)) h in
      rw here (rw same refl)
  | inr other ↦ elim (Bool-cases (contains j ids)) [
    | inl in_page ↦ rw in_page (rw other e)
    | inr elsewhere ↦ rw elsewhere (rw other e)
  ]
]

module _ (target : Like → Option ℕ) (user_id : ℕ) (ids : List ℕ) (k : ℕ) where
  has-if :
      (b : Bool) (l : Like) (ls : List Like)
      → has (targets target (if b then l ∷ ls else ls)) k
        ≡ has (if b then target l ∷ targets target ls else targets target ls) k
  has-if true l ls = refl
  has-if false l ls = refl

  -- The likes that were read for a page tell of each of its rows whether the user likes it.
  has-likes :
      (likes : List Like)
      → contains k ids ≡ true
      → has (targets target (keep (λ l. (l.user_id == user_id) && is_in (target l) ids) likes)) k
        ≡ likes_it target (some user_id) likes k
  has-likes [] h = refl
  has-likes (l ∷ ls) h =
      has-if ((l.user_id == user_id) && is_in (target l) ids) l _
      ∙ has-one (target l) (l.user_id == user_id) k ids _ _ h (has-likes ls h)

map-agree :
    {A B : Type 0} (f g : A → B) (P : A → Type 0)
    → ((a : A) → P a → f a ≡ g a)
    → (xs : List A) → All P xs
    → map f xs ≡ map g xs
map-agree f g P same [] h = refl
map-agree f g P same (x ∷ xs) (h, hs) =
    ap (λ y. y ∷ map f xs) (same x h) ∙ ap (λ ys. g x ∷ ys) (map-agree f g P same xs hs)

or_right : (a b : Bool) → b ≡ true → (a || b) ≡ true
or_right true b h = refl
or_right false b h = h

module _ {A : Type 0} (id_of : A → ℕ) where
  All-among :
      (xs : List A) (ids : List ℕ)
      → ((k : ℕ) → contains k (map id_of xs) ≡ true → contains k ids ≡ true)
      → All (λ a. contains (id_of a) ids ≡ true) xs
  All-among [] ids among = tt
  All-among (x ∷ xs) ids among = (
    among (id_of x) (rw (==_refl (id_of x)) refl),
    All-among xs ids (λ k h. among k (or_right (id_of x == k) _ h)),
  )

  -- what a row of a listing shows to a reader
  abbrev pub shown : (Like → Option ℕ) → Option ℕ → List Like → A → A × Bool
  shown target user likes a = (a, likes_it target user likes (id_of a))

  module _ (target : Like → Option ℕ) (db : Db) where
    page-shown :
        (user : Option ℕ) (page : List A)
        → (liked : List (Option ℕ)) × (find_likes target user (map id_of page) (calm db)
            ≡ returned liked (calm db))
          × (with_likes id_of liked page ≡ map (shown target user db.likes) page)
    unfolding find_likes io take_fault
    page-shown none page = ([], refl, refl)
    page-shown (some user_id) [] = ([], refl, refl)
    page-shown (some user_id) (x ∷ xs) = (
      _,
      refl,
      map-agree _ _ (λ a. contains (id_of a) (map id_of (x ∷ xs)) ≡ true)
          (λ a h.
            ap (λ b. (a, b)) (has-likes target user_id (map id_of (x ∷ xs)) (id_of a) db.likes h))
          (x ∷ xs) (All-among (x ∷ xs) (map id_of (x ∷ xs)) (λ k h. h)),
    )

    pub list_page-shown :
        (user : Option ℕ) (dto : PaginationDto) (order_by : List A → List A) (rows : Db → List A)
        → list_page id_of target user dto order_by rows (calm db)
          ≡ returned
              (record {
                items = map (shown target user db.likes) (slice dto (order_by (rows (calm db))));
                meta = meta_of dto (length (rows (calm db)));
              })
              (calm db)
    unfolding list_page io take_fault
    list_page-shown user dto order_by rows =
        let (liked, found, same) = page-shown user (slice dto (order_by (rows (calm db)))) in
        rw found (rw same refl)
