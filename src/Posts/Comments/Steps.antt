-- ===== src/Posts/Comments/Steps.antt =====
-- What the steps of creating a comment write, whatever calls throw.
use Prim.Native.String.{String}
use enix_backend.Base.{
  ℕ, suc, pos, incr, ⊤, ◌≡◌, refl, sym, ap, ◌∙◌, subst, Option, none, some, [], ◌∷◌, ◌++◌, arith,
  find?, All-find?,
}
use enix_backend.Base.Rows.{update_where, by_key}
use enix_backend.Base.Counter.{bumped}
use enix_backend.Http.{not_found}
use enix_backend.Posts.Entities.{Comment}
use enix_backend.Posts.Db.{Db, Tables, after, or_throw}
use enix_backend.Posts.Repo.{update_post, update_comment, post_id_of, comment_id_of, for_some}
use enix_backend.Posts.Keeps.{Ensures, io-Ensures, after-Ensures, Ensures-map}
use enix_backend.Posts.Comments.{
  parent_where, find_parent, count_reply, save_comment, write_comment, post_comments,
  comment_replies,
}
use enix_backend.Posts.Comments.Counted.{
  HasCountedComments, CommentsCounted, CommentsCounted-append, post_counter, reply_counter, IsBelow,
}

-- the reply count of a comment that is there
abbrev replied : Tables → ℕ → Tables
replied t k = record t {
  comments = update_where (by_key comment_id_of k) (comment_replies incr) t.comments;
}

abbrev Replied : Tables → ℕ → ℕ → ⊤ → Tables → Type 0
Replied t post k _ u =
    (x : Comment) × (find? (parent_where k post) t.comments ≡ some x) × (u ≡ replied t k)

update_comment-Ensures :
    (k : ℕ) (db : Db)
    → Ensures (λ _ u. u ≡ replied db.tables k) (update_comment k (comment_replies incr) db)
unfolding update_comment
update_comment-Ensures k db = io-Ensures _ db _ (λ db' e. ap (λ u. replied u k) e)

abbrev Found : Tables → ℕ → ℕ → Option Comment → Tables → Type 0
Found t post k o u = (o ≡ find? (parent_where k post) t.comments) × (u ≡ t)

find_parent-Ensures :
    (post k : ℕ) (db : Db) → Ensures (Found db.tables post k) (find_parent k post db)
unfolding find_parent
find_parent-Ensures post k db =
    io-Ensures (Found db.tables post k) db _
      (λ db' e. (ap (λ (u : Tables). find? (parent_where k post) u.comments) e, e))

reply_to-Ensures :
    (t : Tables) (post k : ℕ) (o : Option Comment) (db : Db)
    → Found t post k o db.tables
    → Ensures (Replied t post k) (
        after
          (or_throw o (not_found "Parent comment not found") db)
          (λ _. update_comment k (comment_replies incr)))
reply_to-Ensures t post k none db found = tt
reply_to-Ensures t post k (some x) db (found, same) =
    Ensures-map (λ _ u. u ≡ replied db.tables k) (Replied t post k)
      (update_comment k (comment_replies incr) db)
      (λ _ u e. (x, sym found, e ∙ ap (λ v. replied v k) same)) (update_comment-Ensures k db)

count_reply-Ensures :
    (post k : ℕ) (db : Db) → Ensures (Replied db.tables post k) (count_reply post k db)
unfolding count_reply
count_reply-Ensures post k db =
    after-Ensures (Found db.tables post k) (Replied db.tables post k) (find_parent k post db) _
      (find_parent-Ensures post k db) (λ o db' found. reply_to-Ensures db.tables post k o db' found)

abbrev Saved : Tables → ℕ → Option ℕ → Comment → Tables → Type 0
Saved t post parent c u =
    (c.id ≡ t.next_id)
    × (c.post_id ≡ post)
    × (c.parent_comment_id ≡ parent)
    × (c.replies_count ≡ pos 0)
    × (u ≡ record t { comments = t.comments ++ c ∷ []; next_id = suc t.next_id })

save_comment-Ensures :
    (content : String) (post user : ℕ) (parent : Option ℕ) (db : Db)
    → Ensures (Saved db.tables post parent) (save_comment content post user parent db)
unfolding save_comment
save_comment-Ensures content post user parent db =
    io-Ensures (Saved db.tables post parent) db _
      (λ db' e. (ap (λ (u : Tables). u.next_id) e, refl, refl, refl, rw e refl))

abbrev grown : Tables → Option ℕ → Tables
grown t none = t
grown t (some k) = replied t k

abbrev Grown : Tables → Option ℕ → ⊤ → Tables → Type 0
Grown t parent _ u = IsBelow t.next_id parent × (u ≡ grown t parent)

count_parent-Ensures :
    (post : ℕ) (parent : Option ℕ) (db : Db)
    → HasCountedComments db.tables
    → Ensures (Grown db.tables parent) (for_some parent (λ k. count_reply post k) db)
count_parent-Ensures post none db h = (tt, refl)
count_parent-Ensures post (some k) db h =
    after-Ensures (Replied db.tables post k) (Grown db.tables (some k)) (count_reply post k db) _
      (count_reply-Ensures post k db)
      (λ _ db' (x, found, e).
        let (below, matched) = All-find? _ (parent_where k post) db.comments h.fresh found in
        (ground arith, e))

abbrev with_post : Tables → ℕ → Tables
with_post t post = record t {
  posts = update_where (by_key post_id_of post) (post_comments incr) t.posts;
}

update_post-Ensures :
    (post : ℕ) (db : Db)
    → Ensures (λ _ u. u ≡ with_post db.tables post) (update_post post (post_comments incr) db)
unfolding update_post
update_post-Ensures post db = io-Ensures _ db _ (λ db' e. ap (λ u. with_post u post) e)

abbrev with_comment : Tables → Comment → Tables
with_comment t c = record t { comments = t.comments ++ c ∷ []; next_id = suc t.next_id }

-- the tables of posts and comments with a new comment on a post, in answer to another or not
abbrev Added : Tables → Comment → ℕ → Option ℕ → Type 0
Added t c post parent =
    CommentsCounted (bumped post_counter incr (some post) t.posts)
      (bumped reply_counter incr parent t.comments ++ c ∷ []) (suc t.next_id)

added :
    (t : Tables) (post : ℕ) (parent : Option ℕ) (c : Comment)
    → HasCountedComments t
    → IsBelow t.next_id parent
    → c.id ≡ t.next_id
    → c.post_id ≡ post
    → c.parent_comment_id ≡ parent
    → c.replies_count ≡ pos 0
    → Added t c post parent
added t post parent c h below new on to zero_replies =
    subst (λ o. Added t c post o) to
      (subst (λ k. Added t c k c.parent_comment_id) on
        (CommentsCounted-append h c new zero_replies (subst (IsBelow t.next_id) (sym to) below)))

counted_after :
    (t : Tables) (post : ℕ) (parent : Option ℕ) (c : Comment) (u u' u'' : Tables)
    → HasCountedComments t
    → Grown t parent tt u
    → Saved u post parent c u'
    → u'' ≡ with_post u' post
    → HasCountedComments u''
counted_after t post none c u u' u'' h (below, e0) (new, on, to, zero_replies, built) e =
    let final_tables : u'' ≡ with_post (with_comment t c) post =
      e ∙ ap (λ v. with_post v post) (built ∙ ap (λ v. with_comment v c) e0) in
    subst HasCountedComments (sym final_tables)
      (added t post none c h below (new ∙ ap (λ (v : Tables). v.next_id) e0) on to zero_replies)
counted_after t post (some k) c u u' u'' h (below, e0) (new, on, to, zero_replies, built) e =
    let final_tables : u'' ≡ with_post (with_comment (replied t k) c) post =
      e ∙ ap (λ v. with_post v post) (built ∙ ap (λ v. with_comment v c) e0) in
    subst HasCountedComments (sym final_tables)
      (added t post (some k) c h below (new ∙ ap (λ (v : Tables). v.next_id) e0) on to zero_replies)

pub write_comment-Ensures :
    (content : String) (post user : ℕ) (parent : Option ℕ) (db : Db)
    → HasCountedComments db.tables
    → Ensures (λ _ u. HasCountedComments u) (write_comment content post user parent db)
unfolding write_comment
write_comment-Ensures content post user parent db h =
    after-Ensures (Grown db.tables parent) _ (for_some parent (λ k. count_reply post k) db) _
      (count_parent-Ensures post parent db h)
      λ _ db1 g.
        after-Ensures (Saved db1.tables post parent) _ (save_comment content post user parent db1) _
          (save_comment-Ensures content post user parent db1)
          λ c db2 s.
            after-Ensures (λ _ u. u ≡ with_post db2.tables post) _
              (update_post post (post_comments incr) db2) _ (update_post-Ensures post db2)
              λ _ db3 e.
                counted_after db.tables post parent c db1.tables db2.tables db3.tables h g s e
