-- ===== src/Store/Bookmarks/Invariant.antt =====
-- internal/store/store.go: when the index of the bookmarks agrees with the list, and what the
-- operations do to that.
use homelab_homepage.Prelude.{
  ℕ, suc, String, ◌<◌, ◌≡◌, ◌≢◌, true, false, ◌||◌, none, some, List, [], ◌∷◌, ◌++◌, arith, ◌==◌,
  string_eq, nat_eq, if◌then◌else◌, subst, Option-cases, Bool-cases, inl, inr, refl, contains,
  contains-append,
}
use homelab_homepage.Go.Map.{lookup, lookup-insert, lookup-erase}
use homelab_homepage.Go.Heap.{Ref}
use homelab_homepage.Store.Data.{Bookmark}
use homelab_homepage.Store.Bookmarks.{
  Bookmarks, deref, empty, add_bookmark, replace_first, update_bookmark, delete_bookmark, set_order,
  reorder_from, reorder_bookmarks,
}

-- No pointer is listed twice.
abbrev pub Distinct : List Ref → Type 0
Distinct [] = Unit {0}
Distinct (p ∷ ps) = (contains ps p ≡ false) × Distinct ps

pub record IsIndexed (t : Bookmarks) : Type 0 where
  pub distinct : Distinct t.bookmarks
  pub listed :
      (p : Ref)
      → contains t.bookmarks p ≡ true
      → (lookup (deref t p).id t.bookmark_idx ≡ some p) × (p < t.heap.next)
  pub by_id :
      (i : String) (p : Ref)
      → lookup i t.bookmark_idx ≡ some p
      → ((deref t p).id ≡ i) × (contains t.bookmarks p ≡ true)

Distinct-append :
    (p : Ref) (ps : List Ref) → Distinct ps → contains ps p ≡ false → Distinct (ps ++ p ∷ [])
Distinct-append p [] d h = (refl, tt)
Distinct-append p (q ∷ ps) d h =
    (ground (arith, contains-append ps (p ∷ []) q), Distinct-append p ps d.1 (ground arith))

-- What the loop finds, in a list without repetitions.
pub record Replaced (t : Bookmarks) (id : String) (by ps : List Ref) (p : Ref) (qs : List Ref)
    : Type 0 where
  pub named : (deref t p).id ≡ id
  pub there : contains ps p ≡ true
  pub others :
      (q : Ref)
      → contains qs q ≡ (if p == q then contains by q else (contains ps q || contains by q))

pub replace_first-Replaced :
    (t : Bookmarks) (id : String) (by ps : List Ref)
    → Distinct ps
    → (p : Ref) (qs : List Ref) → replace_first t id by ps ≡ some (p, qs)
    → Replaced t id by ps p qs
unfolding replace_first
replace_first-Replaced t id by [] d p qs h = cc
replace_first-Replaced t id by (x ∷ ps) d p qs h = elim (Option-cases (replace_first t id by ps)) [
  | inl e ↦ record {
    named = ground (arith, h, e);
    there = ground (arith, h, e);
    others = λ q. ground (arith, h, e, contains-append by ps q, d.0);
  }
  | inr ((p', qs'), e) ↦
      let r = replace_first-Replaced t id by ps d.1 p' qs' e in
      record {
        named = ground (arith, h, e, r.named);
        there = ground (arith, h, e, r.there);
        others = λ q. ground (arith, h, e, contains-append by ps q, d.0, r.there, r.others q);
      }
]

pub replace_first-none :
    (t : Bookmarks) (id : String) (by ps : List Ref)
    → replace_first t id by ps ≡ none
    → (q : Ref) → contains ps q ≡ true
    → (deref t q).id ≢ id
unfolding replace_first
replace_first-none t id by [] h q m = cc
replace_first-none t id by (x ∷ ps) h q m =
    ground (arith, h, replace_first-none t id by ps (ground arith) q)

module _ (t : Bookmarks) (v : IsIndexed t) where
  fresh-ref : contains t.bookmarks t.heap.next ≡ false
  fresh-ref = ground (arith, v.listed t.heap.next)

  pub add_bookmark-IsIndexed :
      (b : Bookmark) → lookup b.id t.bookmark_idx ≡ none → IsIndexed (add_bookmark b t)
  unfolding add_bookmark
  add_bookmark-IsIndexed b fresh = record {
    distinct = Distinct-append t.heap.next t.bookmarks v.distinct fresh-ref;
    listed = λ p. simp (contains-append, lookup-insert) (λ h. ground (arith, v.listed p));
    by_id =
        λ i p. simp (contains-append, lookup-insert) (λ h. ground (arith, v.by_id i p, v.listed p));
  }

abbrev Apart : List Ref → List Ref → Type 0
Apart by ps = (q : Ref) → contains by q ≡ true → contains ps q ≡ false

Distinct-join : (by ps : List Ref) → Distinct by → Distinct ps → Apart by ps → Distinct (by ++ ps)
Distinct-join [] ps db dp a = dp
Distinct-join (x ∷ by) ps db dp a = (
  ground (arith, contains-append by ps x, db.0, a x),
  Distinct-join by ps db.1 dp (λ q h. a q (ground arith)),
)

replace_first-Distinct :
    (t : Bookmarks) (id : String) (by ps : List Ref)
    → Distinct by
    → Distinct ps
    → Apart by ps
    → (p : Ref) (qs : List Ref) → replace_first t id by ps ≡ some (p, qs)
    → Distinct qs
unfolding replace_first
replace_first-Distinct t id by [] db d a p qs h = cc
replace_first-Distinct t id by (x ∷ ps) db d a p qs h =
    let tail_apart : Apart by ps = λ q m. ground (arith, a q m) in
    elim (Bool-cases ((deref t x).id == id)) [
      | inl hit ↦ subst Distinct (ground (arith, h, hit)) (Distinct-join by ps db d.1 tail_apart)
      | inr miss ↦ elim (Option-cases (replace_first t id by ps)) [
        | inl e ↦ ground (arith, h, e, miss)
        | inr ((p', qs'), e) ↦
            let r = replace_first-Replaced t id by ps d.1 p' qs' e in
            let rest = replace_first-Distinct t id by ps db d.1 tail_apart p' qs' e in
            let new : contains qs' x ≡ false = ground (arith, r.others x, r.there, d.0, a x) in
            subst Distinct {x = x ∷ qs'} (ground (arith, h, e, miss)) (new, rest)
      ]
    ]

module _ (t : Bookmarks) (v : IsIndexed t) (id : String) where
  replaced-IsIndexed :
      (updated : Bookmark)
      → updated.id ≡ id
      → (p : Ref) (ps : List Ref) → replace_first t id (t.heap.next ∷ []) t.bookmarks ≡ some (p, ps)
      → IsIndexed (update_bookmark id updated t).1
  unfolding update_bookmark
  replaced-IsIndexed updated same p ps e =
      let r = replace_first-Replaced t id (t.heap.next ∷ []) t.bookmarks v.distinct p ps e in
      let d =
        replace_first-Distinct t id (t.heap.next ∷ []) t.bookmarks (refl, tt) v.distinct
          (λ q h. ground (arith, v.listed q)) p ps e in
      rw (e, update_bookmark)
        (record {
          distinct = d;
          listed = λ q.
              simp (lookup-insert, lookup-erase)
                (λ h. ground (arith, same, r.named, r.there, r.others q, v.listed q, v.listed p));
          by_id = λ i q.
              simp (lookup-insert, lookup-erase)
                (λ h. ground (arith, same, r.named, r.there, r.others q, v.by_id i q, v.listed q));
        })

  pub update_bookmark-IsIndexed :
      (updated : Bookmark) → updated.id ≡ id → IsIndexed (update_bookmark id updated t).1
  unfolding update_bookmark
  update_bookmark-IsIndexed updated same =
      elim (Option-cases (replace_first t id (t.heap.next ∷ []) t.bookmarks)) [
        | inl e ↦ rw (e, update_bookmark) v
        | inr ((p, ps), e) ↦ replaced-IsIndexed updated same p ps e
      ]

  pub delete_bookmark-IsIndexed : IsIndexed (delete_bookmark id t).1
  unfolding delete_bookmark
  delete_bookmark-IsIndexed = elim (Option-cases (replace_first t id [] t.bookmarks)) [
    | inl e ↦ rw (e, delete_bookmark) v
    | inr ((p, ps), e) ↦
        let r = replace_first-Replaced t id [] t.bookmarks v.distinct p ps e in
        let d = replace_first-Distinct t id [] t.bookmarks tt v.distinct (λ q h. cc) p ps e in
        rw (e, delete_bookmark)
          (record {
            distinct = d;
            listed = λ q.
                simp lookup-erase
                  (λ h. ground (arith, r.named, r.there, r.others q, v.listed q, v.listed p));
            by_id = λ i q.
                simp lookup-erase
                  (λ h. ground (arith, r.named, r.there, r.others q, v.by_id i q, v.listed p));
          })
  ]

pub set_order-IsIndexed :
    (i : ℕ) (id : String) (t : Bookmarks) → IsIndexed t → IsIndexed (set_order i id t)
unfolding set_order
set_order-IsIndexed i id t v = record {
  distinct = ground (arith, v.distinct);
  listed = λ q h. ground (arith, v.listed q);
  by_id = λ j q h. ground (arith, v.by_id j q);
}

reorder_from-IsIndexed :
    (i : ℕ) (ids : List String) (t : Bookmarks) → IsIndexed t → IsIndexed (reorder_from i ids t)
unfolding reorder_from
reorder_from-IsIndexed i [] t v = v
reorder_from-IsIndexed i (id ∷ ids) t v =
    reorder_from-IsIndexed (suc i) ids (set_order i id t) (set_order-IsIndexed i id t v)

pub reorder_bookmarks-IsIndexed :
    (ids : List String) (t : Bookmarks) → IsIndexed t → IsIndexed (reorder_bookmarks ids t)
unfolding reorder_bookmarks
reorder_bookmarks-IsIndexed ids t v = reorder_from-IsIndexed 0 ids t v

pub empty-IsIndexed : IsIndexed empty
unfolding lookup
empty-IsIndexed = record { distinct = tt; listed = λ p h. cc; by_id = λ i p h. cc }
