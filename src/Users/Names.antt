-- ===== src/Users/Names.antt =====
-- The names of users, over registrations and changes of users.
use Prim.Native.String.{String}
use text.Mathlib.Text.{◌==◌ as str_eq}
use text.Mathlib.TextEquality.{eq_iff}
use enix_backend.Base.{
  ℕ, ◌≡◌, refl, ◌∙◌, sym, inl, inr, ◌⊎◌, Bool, true, false, Bool-cases, ⊤, Option, none, some, List,
  [], ◌∷◌, ◌++◌, arith, find?, Option-cases, All, All-append, All-find?,
}
use enix_backend.Base.Rows.{update_where, by_key, All-update_where, All-map}
use enix_backend.Effects.{final}
use enix_backend.Accounts.{Accounts, User, user_key, find_user, find_user_by_email}
use enix_backend.Auth.Passwords.{on_security}
use enix_backend.Auth.Registration.{
  Registration, register, create, new_user, with_verification, find_user_by_username,
  find_user_by_display_name,
}
use enix_backend.Users.{
  UpdateUserDto, update_user, with_names, or_old, is_username_taken, is_display_name_taken,
}

-- The two names that no two users may share.
pub data Name : Type 0 where
  username display_name : Name

abbrev pub name_of : Name → User → String
name_of Name.username u = u.username
name_of Name.display_name u = u.display_name

-- Who has the name of a user is that user.
abbrev pub Apart : Name → User → User → Type 0
Apart n u v = name_of n u ≡ name_of n v → u.id ≡ v.id

abbrev pub HasOwn : Name → Accounts → Type 0
HasOwn n a = All (λ u. All (λ v. Apart n u v) a.users) a.users

abbrev pub HasOwnNames : Accounts → Type 0
HasOwnNames a = HasOwn Name.username a × HasOwn Name.display_name a

Apart-sym : (n : Name) (u v : User) → Apart n u v → Apart n v u
Apart-sym n u v h e = sym (h (sym e))

All-zip :
    {A : Type 0} (P Q : A → Type 0) (xs : List A) → All P xs → All Q xs → All (λ x. P x × Q x) xs
All-zip P Q [] h k = tt
All-zip P Q (x ∷ xs) (p, h) (q, k) = ((p, q), All-zip P Q xs h k)

find?-none :
    {A : Type 0} (p : A → Bool) (xs : List A) → find? p xs ≡ none → All (λ x. p x ≡ false) xs
find?-none p [] e = tt
find?-none p (x ∷ xs) e = elim (Bool-cases (p x)) [
  | inl hit ↦ absurd (ground (arith, hit, e))
  | inr miss ↦ (miss, find?-none p xs (ground (arith, miss, e)))
]

-- the new name that a request asks for
abbrev asked : Name → UpdateUserDto → Option String
asked Name.username dto = dto.username
asked Name.display_name dto = dto.display_name

name_of-with_names :
    (n : Name) (dto : UpdateUserDto) (u : User)
    → name_of n (with_names dto u) ≡ or_old (asked n dto) (name_of n u)
name_of-with_names Name.username dto u = refl
name_of-with_names Name.display_name dto u = refl

-- Nobody but the user has the name that was asked for.
abbrev IsFree : Name → ℕ → Option String → User → Type 0
IsFree n id none v = ⊤
IsFree n id (some name) v = name ≡ name_of n v → v.id ≡ id

-- whether somebody else has it
abbrev is_other_named : Name → ℕ → Option String → Accounts → Bool
is_other_named Name.username = is_username_taken
is_other_named Name.display_name = is_display_name_taken

IsFree-found :
    (n : Name) (id : ℕ) (name : Option String) (a : Accounts)
    → HasOwn n a
    → is_other_named n id name a ≡ false
    → All (IsFree n id name) a.users
IsFree-found n id none a h e = All-map _ _ a.users (λ v p. tt) h
IsFree-found n id (some name) a h e =
    let test : User → Bool = λ u. str_eq (name_of n u) name in
    elim (Option-cases (find? test a.users)) [
      | inl missing ↦
          All-map _ (IsFree n id (some name)) a.users
            (λ v apart same.
              absurd (ground (arith, apart, (eq_iff (name_of n v) name).1 (sym same))))
            (find?-none test a.users missing)
      | inr (u, found) ↦
          let (apart, named) = All-find? _ test a.users h found in
          let own : u.id ≡ id = ground (arith, e, found) in
          All-map _ (IsFree n id (some name)) a.users
            (λ v p same. sym (p ((eq_iff (name_of n u) name).0 named ∙ same)) ∙ own) apart
    ]

by_name :
    (n : Name) (id : ℕ) (u v : User) (name : Option String)
    → u.id ≡ id
    → Apart n u v
    → IsFree n id name v
    → or_old name (name_of n u) ≡ name_of n v
    → u.id ≡ v.id
by_name n id u v none own p free e = p e
by_name n id u v (some name) own p free e = own ∙ sym (free e)

Apart-renamed :
    (n : Name) (id : ℕ) (dto : UpdateUserDto) (u v : User)
    → u.id ≡ id
    → Apart n u v
    → IsFree n id (asked n dto) v
    → Apart n (with_names dto u) v
Apart-renamed n id dto u v own p free e =
    by_name n id u v (asked n dto) own p free (sym (name_of-with_names n dto u) ∙ e)

abbrev renamed : ℕ → UpdateUserDto → Accounts → Accounts
renamed id dto a = record a { users = update_where (by_key user_key id) (with_names dto) a.users }

own_id : (id : ℕ) (u : User) → by_key user_key id u ≡ true → u.id ≡ id
own_id id u e = ground (arith, e)

renamed-HasOwn :
    (n : Name) (id : ℕ) (dto : UpdateUserDto) (a : Accounts)
    → HasOwn n a
    → All (IsFree n id (asked n dto)) a.users
    → HasOwn n (renamed id dto a)
renamed-HasOwn n id dto a h free =
    let test = by_key user_key id in
    let f = with_names dto in
    All-update_where _ (λ u. All (λ v. Apart n u v) (renamed id dto a).users) test f a.users
      (λ u (row, k) own.
        All-update_where _ (λ v. Apart n (f u) v) test f a.users
          (λ v p other. λ e. own_id id u own ∙ sym (own_id id v other))
          (λ v (p, g) other. Apart-renamed n id dto u v (own_id id u own) p g)
          (All-zip _ _ a.users row free))
      (λ u (row, k) own.
        All-update_where _ (λ v. Apart n u v) test f a.users
          (λ v (p, g) other.
            Apart-sym n (f v) u
              (Apart-renamed n id dto v u (own_id id v other) (Apart-sym n u v p) k))
          (λ v (p, g) other. p) (All-zip _ _ a.users row free))
      (All-zip _ _ a.users h free)

update_user-ends :
    (id : ℕ) (dto : UpdateUserDto) (a : Accounts)
    → (final (update_user id dto a) ≡ a)
      ⊎ ((is_username_taken id dto.username a ≡ false)
          × (is_display_name_taken id dto.display_name a ≡ false)
          × (final (update_user id dto a) ≡ renamed id dto a))
unfolding update_user
update_user-ends id dto a = elim (Option-cases (find_user id a)) [
  | inl missing ↦ inl (rw missing refl)
  | inr (u, found) ↦ elim (Bool-cases (is_username_taken id dto.username a)) [
    | inl taken ↦ inl (rw found (rw taken refl))
    | inr free ↦ elim (Bool-cases (is_display_name_taken id dto.display_name a)) [
      | inl taken ↦ inl (rw found (rw free (rw taken refl)))
      | inr shown ↦ inr (
        free,
        shown,
        elim (Option-cases (find_user id (renamed id dto a))) [
          | inl gone ↦ rw found (rw free (rw shown (rw found (rw gone refl))))
          | inr (v, there) ↦ rw found (rw free (rw shown (rw found (rw there refl))))
        ],
      )
    ]
  ]
]

update_user-HasOwnNames :
    (id : ℕ) (dto : UpdateUserDto) (a : Accounts)
    → HasOwnNames a
    → HasOwnNames (final (update_user id dto a))
update_user-HasOwnNames id dto a (h, k) = elim (update_user-ends id dto a) [
  | inl same ↦ rw same (h, k)
  | inr (free, shown, e) ↦ rw e (
    renamed-HasOwn Name.username id dto a h (IsFree-found Name.username id dto.username a h free),
    renamed-HasOwn Name.display_name id dto a k
        (IsFree-found Name.display_name id dto.display_name a k shown),
  )
]

abbrev added : (String → String) → Registration → Accounts → Accounts
added hash r a = record a { users = a.users ++ new_user hash r ∷ [] }

abbrev verifying : (String → String) → Registration → Accounts → Accounts
verifying hash r a = record a {
  users =
      update_where (by_key user_key r.id) (on_security (with_verification r.token))
        (added hash r a).users;
}

-- a new user has the one name twice
name_of-new_user :
    (n : Name) (hash : String → String) (r : Registration)
    → name_of n (new_user hash r) ≡ r.username
name_of-new_user Name.username hash r = refl
name_of-new_user Name.display_name hash r = refl

name_of-on_security :
    (n : Name) (token : String) (u : User)
    → name_of n (on_security (with_verification token) u) ≡ name_of n u
name_of-on_security Name.username token u = refl
name_of-on_security Name.display_name token u = refl

added-HasOwn :
    (n : Name) (hash : String → String) (r : Registration) (a : Accounts)
    → HasOwn n a
    → All (λ v. str_eq (name_of n v) r.username ≡ false) a.users
    → HasOwn n (added hash r a)
added-HasOwn n hash r a h free =
    let new : User = new_user hash r in
    let differs : (v : User) → str_eq (name_of n v) r.username ≡ false → Apart n v new =
      λ v other same. absurd (
        ground
          (arith, other, (eq_iff (name_of n v) r.username).1 (same ∙ name_of-new_user n hash r))) in
    All-append _ a.users
      (All-map _ _ a.users (λ u (row, other). All-append _ a.users row (differs u other))
        (All-zip _ _ a.users h free))
      (All-append _ a.users
        (All-map _ _ a.users (λ v other. Apart-sym n v new (differs v other)) free) (λ e. refl))

verifying-HasOwn :
    (n : Name) (hash : String → String) (r : Registration) (a : Accounts)
    → HasOwn n (added hash r a)
    → HasOwn n (verifying hash r a)
verifying-HasOwn n hash r a h =
    let test = by_key user_key r.id in
    let f = on_security (with_verification r.token) in
    let same : (u : User) → name_of n (f u) ≡ name_of n u = name_of-on_security n r.token in
    All-update_where _ (λ u. All (λ v. Apart n u v) (verifying hash r a).users) test f _
      (λ u row own.
        All-update_where _ (λ v. Apart n (f u) v) test f _
          (λ v p e. λ alike. p (sym (same u) ∙ alike ∙ same v))
          (λ v p e. λ alike. p (sym (same u) ∙ alike)) row)
      (λ u row own.
        All-update_where _ (λ v. Apart n u v) test f _ (λ v p e. λ alike. p (alike ∙ same v))
          (λ v p e. p) row)
      h

register-ends :
    (hash : String → String) (r : Registration) (a : Accounts)
    → (final (register hash r a) ≡ a)
      ⊎ ((find_user_by_username r.username a ≡ none)
          × (find_user_by_display_name r.username a ≡ none)
          × (final (register hash r a) ≡ verifying hash r a))
unfolding register create
register-ends hash r a = elim (Option-cases (find_user_by_email r.email a)) [
  | inr (u, known) ↦ inl (rw known refl)
  | inl unknown ↦ elim (Option-cases (find_user_by_username r.username a)) [
    | inr (u, known) ↦ inl (rw unknown (rw known refl))
    | inl free ↦ elim (Option-cases (find_user_by_display_name r.username a)) [
      | inr (u, shows) ↦ inl (rw unknown (rw free (rw unknown (rw free (rw shows refl)))))
      | inl shown ↦ inr (free, shown, rw unknown (rw free (rw unknown (rw free (rw shown refl)))))
    ]
  ]
]

register-HasOwnNames :
    (hash : String → String) (r : Registration) (a : Accounts)
    → HasOwnNames a
    → HasOwnNames (final (register hash r a))
register-HasOwnNames hash r a (h, k) = elim (register-ends hash r a) [
  | inl same ↦ rw same (h, k)
  | inr (free, shown, e) ↦ rw e (
    verifying-HasOwn Name.username hash r a
        (added-HasOwn Name.username hash r a h (find?-none _ a.users free)),
    verifying-HasOwn Name.display_name hash r a
        (added-HasOwn Name.display_name hash r a k (find?-none _ a.users shown)),
  )
]

-- If no two users have the same username and no two the same display name, then so it is after any
-- registration and after any change of a user by updateUser, whether it returns or throws, when one
-- request runs at a time.
pub register-update_user-HasOwnNames :
    (a : Accounts)
    → HasOwnNames a
    → ((hash : String → String) (r : Registration) → HasOwnNames (final (register hash r a)))
      × ((id : ℕ) (dto : UpdateUserDto) → HasOwnNames (final (update_user id dto a)))
register-update_user-HasOwnNames a h =
    (λ hash r. register-HasOwnNames hash r a h, λ id dto. update_user-HasOwnNames id dto a h)
