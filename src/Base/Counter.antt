-- ===== src/Base/Counter.antt =====
-- Counter columns. A row of one table carries the number of rows of another table that refer to it,
-- and every handler that writes the second table adjusts the column. Likes, comments, replies,
-- shares, bookmarks, reports and follows all keep such a column.
use enix_backend.Base.{
  ℕ, ℤ, pos, incr, decr, ◌≡◌, refl, Bool, true, false, Option, none, some, List, [], ◌∷◌, ◌++◌,
  arith, find?, count, All, All-append, suc, ◌<◌, is_id,
}
use enix_backend.Base.Rows.{
  append-HasKeys, All-delete_key, delete_key-HasKeys, update_where, by_key, delete_key, HasKeys,
  All-update_where, All-map, count-append, count-delete_key, count-eq-zero,
}

-- A column of a row type, with the row's key: an adjustment changes the column and keeps the key.
pub record Counter (A : Type 0) : Type 0 where
  pub key : A → ℕ
  pub get : A → ℤ
  pub bump : (ℤ → ℤ) → A → A
  pub get-bump : (f : ℤ → ℤ) (a : A) → get (bump f a) ≡ f (get a)
  pub key-bump : (f : ℤ → ℤ) (a : A) → key (bump f a) ≡ key a

-- `increment` or `decrement` of the row that is referred to, if there is one
abbrev pub bumped : {A : Type 0} → Counter A → (ℤ → ℤ) → Option ℕ → List A → List A
bumped c f none rows = rows
bumped c f (some k) rows = update_where (by_key c.key k) (c.bump f) rows

module _ {A B : Type 0} (c : Counter A) (ref : B → Option ℕ) where
  abbrev pub refers : ℕ → B → Bool
  refers k b = is_id (ref b) k

  -- The column of each row is the number of rows that refer to it.
  abbrev pub IsCounted : List A → List B → Type 0
  IsCounted rows bs = All (λ a. c.get a ≡ pos (count (refers (c.key a)) bs)) rows

  IsCounted-bumped :
      (f : ℤ → ℤ) (o : Option ℕ) (rows : List A) (bs bs' : List B)
      → ((a : A)
          → c.get a ≡ pos (count (refers (c.key a)) bs)
          → is_id o (c.key a) ≡ true
          → f (c.get a) ≡ pos (count (refers (c.key a)) bs'))
      → ((a : A)
          → c.get a ≡ pos (count (refers (c.key a)) bs)
          → is_id o (c.key a) ≡ false
          → c.get a ≡ pos (count (refers (c.key a)) bs'))
      → IsCounted rows bs
      → IsCounted (bumped c f o rows) bs'
  IsCounted-bumped f none rows bs bs' hit miss h = All-map _ _ rows (λ a e. miss a e refl) h
  IsCounted-bumped f (some k) rows bs bs' hit miss h =
      All-update_where _ _ (by_key c.key k) (c.bump f) rows
        (λ a e t. rw (c.get-bump f a, c.key-bump f a) (hit a e (ground arith)))
        (λ a e t. miss a e (ground arith)) h

  -- A new row, and the increment of what it refers to.
  pub IsCounted-append :
      (rows : List A) (bs : List B) (b : B)
      → IsCounted rows bs
      → IsCounted (bumped c incr (ref b) rows) (bs ++ b ∷ [])
  IsCounted-append rows bs b h =
      IsCounted-bumped incr (ref b) rows bs (bs ++ b ∷ [])
        (λ a e t. ground (arith, count-append (refers (c.key a)) bs b))
        (λ a e t. ground (arith, count-append (refers (c.key a)) bs b)) h

  -- A row that is found is removed, and what it referred to is decremented.
  pub IsCounted-delete :
      (key : B → ℕ) (q : B → Bool) (rows : List A) (bs : List B) (b : B)
      → HasKeys key bs
      → find? q bs ≡ some b
      → IsCounted rows bs
      → IsCounted (bumped c decr (ref b) rows) (delete_key key (key b) bs)
  IsCounted-delete key q rows bs b keys found h =
      IsCounted-bumped decr (ref b) rows bs (delete_key key (key b) bs)
        (λ a e t. ground (arith, count-delete_key key (refers (c.key a)) q bs keys found))
        (λ a e t. ground (arith, count-delete_key key (refers (c.key a)) q bs keys found)) h

  -- A change of a row that leaves its key and its column alone.
  pub IsCounted-edit :
      (test : A → Bool) (f : A → A) (rows : List A) (bs : List B)
      → ((a : A) → c.key (f a) ≡ c.key a)
      → ((a : A) → c.get (f a) ≡ c.get a)
      → IsCounted rows bs
      → IsCounted (update_where test f rows) bs
  IsCounted-edit test f rows bs keys gets h =
      All-update_where _ _ test f rows (λ a e t. rw (keys a, gets a) e) (λ a e t. e) h

  -- A new row that starts at zero, and to which nothing refers yet.
  pub IsCounted-zero :
      (a : A) (bs : List B)
      → c.get a ≡ pos 0
      → All (λ b. refers (c.key a) b ≡ false) bs
      → c.get a ≡ pos (count (refers (c.key a)) bs)
  IsCounted-zero a bs e h = rw (count-eq-zero (refers (c.key a)) bs h) e

-- A table that refers to counted rows: its keys are its own, all below the next one to be given.
pub record IsLinked {A B : Type 0} (c : Counter A) (ref : B → Option ℕ) (key : B → ℕ)
    (rows : List A) (bs : List B) (next : ℕ) : Type 0 where
  pub counted : IsCounted c ref rows bs
  pub keys : HasKeys key bs
  pub fresh : All (λ b. key b < next) bs

module _ {A B : Type 0} (c : Counter A) (ref : B → Option ℕ) (key : B → ℕ) {rows : List A}
    {bs : List B} {next : ℕ} (h : IsLinked c ref key rows bs next) where
  pub IsLinked-append :
      (b : B)
      → key b ≡ next
      → IsLinked c ref key (bumped c incr (ref b) rows) (bs ++ b ∷ []) (suc next)
  IsLinked-append b e = record {
    counted = IsCounted-append c ref rows bs b h.counted;
    keys = append-HasKeys key bs b h.keys (All-map _ _ bs (λ x p. omega arith) h.fresh);
    fresh = All-append _ bs (All-map _ _ bs (λ x p. omega arith) h.fresh) (omega arith);
  }

  pub IsLinked-delete :
      (q : B → Bool) (b : B)
      → find? q bs ≡ some b
      → IsLinked c ref key (bumped c decr (ref b) rows) (delete_key key (key b) bs) next
  IsLinked-delete q b found = record {
    counted = IsCounted-delete c ref key q rows bs b h.keys found h.counted;
    keys = delete_key-HasKeys key (key b) bs h.keys;
    fresh = All-delete_key key _ (key b) bs h.fresh;
  }

  -- A change of the rows that are counted for that leaves their keys and this column alone.
  pub IsLinked-edit :
      (test : A → Bool) (f : A → A)
      → ((a : A) → c.key (f a) ≡ c.key a)
      → ((a : A) → c.get (f a) ≡ c.get a)
      → IsLinked c ref key (update_where test f rows) bs next
  IsLinked-edit test f same_key same_get = record {
    counted = IsCounted-edit c ref test f rows bs same_key same_get h.counted;
    keys = h.keys;
    fresh = h.fresh;
  }
