-- ===== src/Base/Rows.antt =====
-- Tables of rows under a primary key, the way a repository of the ORM reads and writes them: a
-- save of a new row, a removal by key, an update of the rows that a condition selects.
use enix_backend.Base.{
  ℕ, suc, ◌<◌, ◌≡◌, refl, sym, ap, ◌∙◌, ◌≢◌, inl, inr, ◌⊎◌, Bool, true, false, none, some, List, [],
  ◌∷◌, ◌++◌, arith, ◌==◌, if◌then◌else◌, find?, count, All, All-append, All-find?, Bool-cases, ⊤,
  subst, ==_refl,
}

module _ {ℓ} {A : Type ℓ} where
  -- `UPDATE … WHERE test`
  unfoldable pub update_where : (A → Bool) → (A → A) → List A → List A
  update_where test f [] = []
  update_where test f (x ∷ xs) = (if test x then f x else x) ∷ update_where test f xs

  pub All-update_where {κ} :
      (P Q : A → Type κ) (test : A → Bool) (f : A → A) (xs : List A)
      → ((x : A) → P x → test x ≡ true → Q (f x))
      → ((x : A) → P x → test x ≡ false → Q x)
      → All P xs
      → All Q (update_where test f xs)
  unfolding update_where
  All-update_where P Q test f [] hit miss h = tt
  All-update_where P Q test f (x ∷ xs) hit miss (p, h) =
      (here (Bool-cases (test x)), All-update_where P Q test f xs hit miss h)
    where
      here : (test x ≡ true) ⊎ (test x ≡ false) → Q (if test x then f x else x)
      here (inl e) = rw e (hit x p e)
      here (inr e) = rw e (miss x p e)

  pub count-update_where :
      (p test : A → Bool) (f : A → A) (xs : List A)
      → ((x : A) → p (f x) ≡ p x)
      → count p (update_where test f xs) ≡ count p xs
  unfolding update_where
  count-update_where p test f [] same = refl
  count-update_where p test f (x ∷ xs) same =
      ground (arith, same x, count-update_where p test f xs same)

  -- A search that the change of a row does not affect finds the changed row.
  pub find?-update_where :
      (p test : A → Bool) (f : A → A) (xs : List A) {x : A}
      → ((y : A) → p (f y) ≡ p y)
      → find? p xs ≡ some x
      → test x ≡ true
      → find? p (update_where test f xs) ≡ some (f x)
  unfolding update_where
  find?-update_where p test f [] same found e = cc
  find?-update_where p test f (y ∷ xs) {x} same found e =
      ground (arith, same y, find?-update_where p test f xs {x = x} same, e)

  pub All-map {κ κ₂} :
      (P : A → Type κ) (Q : A → Type κ₂) (xs : List A) → ((x : A) → P x → Q x) → All P xs → All Q xs
  All-map P Q [] f h = tt
  All-map P Q (x ∷ xs) f (p, h) = (f x p, All-map P Q xs f h)

  pub count-append :
      (p : A → Bool) (xs : List A) (x : A)
      → count p (xs ++ x ∷ []) ≡ (if p x then suc (count p xs) else count p xs)
  count-append p [] x = refl
  count-append p (y ∷ xs) x = ground (arith, count-append p xs x)

  pub count-eq-zero : (p : A → Bool) (xs : List A) → All (λ x. p x ≡ false) xs → count p xs ≡ 0
  count-eq-zero p [] h = refl
  count-eq-zero p (x ∷ xs) (e, h) = rw e (count-eq-zero p xs h)

  pub count-find?-none : (p : A → Bool) (xs : List A) → find? p xs ≡ none → count p xs ≡ 0
  count-find?-none p [] h = refl
  count-find?-none p (x ∷ xs) h = ground (arith, count-find?-none p xs)

module _ {ℓ} {A : Type ℓ} (key : A → ℕ) where
  -- `findOne({ where: { id } })`
  abbrev pub by_key : ℕ → A → Bool
  by_key k x = key x == k

  -- `DELETE … WHERE id = k`
  unfoldable pub delete_key : ℕ → List A → List A
  delete_key k [] = []
  delete_key k (x ∷ xs) = if key x == k then delete_key k xs else x ∷ delete_key k xs

  -- The primary key of each row is its own.
  abbrev pub HasKeys : List A → Type 0
  HasKeys [] = ⊤
  HasKeys (x ∷ xs) = All (λ y. key y ≢ key x) xs × HasKeys xs

  pub All-delete_key {κ} :
      (P : A → Type κ) (k : ℕ) (xs : List A) → All P xs → All P (delete_key k xs)
  unfolding delete_key
  All-delete_key P k [] h = tt
  All-delete_key P k (x ∷ xs) (p, h) = elim (Bool-cases (key x == k)) [
    | inl e ↦ rw e (All-delete_key P k xs h)
    | inr e ↦ rw e (p, All-delete_key P k xs h)
  ]

  pub delete_key-HasKeys : (k : ℕ) (xs : List A) → HasKeys xs → HasKeys (delete_key k xs)
  unfolding delete_key
  delete_key-HasKeys k [] h = tt
  delete_key-HasKeys k (x ∷ xs) (p, h) = elim (Bool-cases (key x == k)) [
    | inl e ↦ rw e (delete_key-HasKeys k xs h)
    | inr e ↦ rw e (All-delete_key (λ y. key y ≢ key x) k xs p, delete_key-HasKeys k xs h)
  ]

  delete_key_absent : (k : ℕ) (xs : List A) → All (λ y. key y ≢ k) xs → delete_key k xs ≡ xs
  unfolding delete_key
  delete_key_absent k [] h = refl
  delete_key_absent k (x ∷ xs) h = ground (arith, delete_key_absent k xs h.1)

  -- Removal of a row that is found takes it, and it alone, out of every count.
  pub count-delete_key :
      (p q : A → Bool) (xs : List A) {x : A}
      → HasKeys xs
      → find? q xs ≡ some x
      → count p xs
        ≡ (if p x then suc (count p (delete_key (key x) xs)) else count p (delete_key (key x) xs))
  unfolding delete_key
  count-delete_key p q [] h e = cc
  count-delete_key p q (y ∷ xs) {x} h e = elim (Bool-cases (q y)) [
    | inl hit ↦
        let same : y ≡ x = ground arith in
        let gone : delete_key (key x) xs ≡ xs =
          delete_key_absent (key x) xs (subst (λ z. All (λ w. key w ≢ key z) xs) same h.0) in
        ground (arith, ==_refl (key x))
    | inr miss ↦
        let found : find? q xs ≡ some x = ground arith in
        let other : key x ≢ key y = (All-find? (λ w. key w ≢ key y) q xs h.0 found).0 in
        ground (arith, count-delete_key p q xs {x = x} h.1 found)
  ]

  pub append-HasKeys :
      (xs : List A) (x : A) → HasKeys xs → All (λ y. key y < key x) xs → HasKeys (xs ++ x ∷ [])
  append-HasKeys [] x h b = (tt, tt)
  append-HasKeys (y ∷ xs) x (apart, h) (below, b) =
      (All-append (λ z. key z ≢ key y) xs apart (omega arith), append-HasKeys xs x h b)

  All-ne-update_where :
      (k : ℕ) (test : A → Bool) (f : A → A) (xs : List A)
      → ((x : A) → key (f x) ≡ key x)
      → All (λ y. key y ≢ k) xs
      → All (λ y. key y ≢ k) (update_where test f xs)
  All-ne-update_where k test f xs same h =
      All-update_where (λ y. key y ≢ k) (λ y. key y ≢ k) test f xs
        (λ x p _. subst (λ j. j ≢ k) (sym (same x)) p) (λ x p _. p) h

  pub update_where-HasKeys :
      (test : A → Bool) (f : A → A) (xs : List A)
      → ((x : A) → key (f x) ≡ key x)
      → HasKeys xs
      → HasKeys (update_where test f xs)
  unfolding update_where
  update_where-HasKeys test f [] same h = tt
  update_where-HasKeys test f (x ∷ xs) same (apart, h) = (
    subst (λ k. All (λ y. key y ≢ k) (update_where test f xs)) (sym (head (Bool-cases (test x))))
        (All-ne-update_where (key x) test f xs same apart),
    update_where-HasKeys test f xs same h,
  )
    where
      head : (test x ≡ true) ⊎ (test x ≡ false) → key (if test x then f x else x) ≡ key x
      head (inl e) = rw e (same x)
      head (inr e) = rw e

  -- A row that is found is the only one with its key.
  pub find?-unique :
      (q : A → Bool) (xs : List A) {x : A}
      → HasKeys xs
      → find? q xs ≡ some x
      → All (λ y. key y ≡ key x → y ≡ x) xs
  find?-unique q [] h e = tt
  find?-unique q (y ∷ xs) {x} (apart, h) e = elim (Bool-cases (q y)) [
    | inl hit ↦
        let same : y ≡ x = ground arith in
        (λ _. same, All-map _ _ xs (λ z other k. absurd (other (k ∙ sym (ap key same)))) apart)
    | inr miss ↦
        let found : find? q xs ≡ some x = ground arith in
        let other : key x ≢ key y = (All-find? (λ w. key w ≢ key y) q xs apart found).0 in
        (λ k. absurd (other (sym k)), find?-unique q xs {x = x} h found)
  ]
