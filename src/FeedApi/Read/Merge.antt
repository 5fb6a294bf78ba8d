-- ===== src/FeedApi/Read/Merge.antt =====
-- feed/api/read.go: the posts on the way from the merged entries to the items of a page.
use alfred_brave_com.Base.{
  ℕ, zero, suc, ◌≡◌, ◌≤◌, refl, sym, ap, subst, inl, inr, String, Bool, true, false, not, ◌&&◌,
  ◌||◌, Option, none, some, List, [], ◌∷◌, arith, eq_iff, eq_refl, find, find-passes, exists,
  length, take, map, contains, ◌==◌, All, Bool-cases, both_ways,
}
use mathlib.Core.Option.{some-injective}
use alfred_brave_com.Database.{Post, PostCounter, User}
use alfred_brave_com.Database.Feed.{has_post_id}
use alfred_brave_com.Database.Feed.Actions.{has_repeats}
use alfred_brave_com.FeedApi.Read.{
  FeedItem, TimelineEntry, first_entries, hydrate, add_item, item_of, with_name,
}

abbrev pub entry_ids : List TimelineEntry → List String
entry_ids es = map (λ e. e.post_id) es

abbrev pub item_ids : List FeedItem → List String
item_ids items = map (λ i. i.post_id) items

-- The table has the item's post, and it is not deleted.
abbrev pub is_shown : FeedItem → Post → Bool
is_shown i p = p.post_id == i.post_id && p.uid == i.uid && not p.is_deleted

first_entries-contains :
    (id : String) (seen : List String) (es : List TimelineEntry)
    → contains id seen ≡ true
    → contains id (entry_ids (first_entries seen es)) ≡ false
unfolding first_entries contains
first_entries-contains id seen [] h = refl
first_entries-contains id seen (e ∷ es) h = elim (Bool-cases (contains e.post_id seen)) [
  | inl known ↦ rw known (first_entries-contains id seen es h)
  | inr new ↦
      rw new (
        ground
          (arith, h, new, eq_iff e.post_id id, first_entries-contains id (e.post_id ∷ seen) es))
]

pub first_entries-distinct :
    (seen : List String) (es : List TimelineEntry)
    → has_repeats (entry_ids (first_entries seen es)) ≡ false
unfolding first_entries has_repeats contains
first_entries-distinct seen [] = refl
first_entries-distinct seen (e ∷ es) = elim (Bool-cases (contains e.post_id seen)) [
  | inl known ↦ rw known (first_entries-distinct seen es)
  | inr new ↦ rw new (
      ground (
        arith,
        eq_refl e.post_id,
        first_entries-contains e.post_id (e.post_id ∷ seen) es,
        first_entries-distinct (e.post_id ∷ seen) es,
      ))
]

contains-take :
    (id : String) (n : ℕ) (es : List TimelineEntry)
    → contains id (entry_ids es) ≡ false
    → contains id (entry_ids (take n es)) ≡ false
unfolding take contains
contains-take id zero es h = refl
contains-take id (suc n) [] h = refl
contains-take id (suc n) (e ∷ es) h = ground (arith, h, contains-take id n es)

pub take-distinct :
    (n : ℕ) (es : List TimelineEntry)
    → has_repeats (entry_ids es) ≡ false
    → has_repeats (entry_ids (take n es)) ≡ false
unfolding take has_repeats
take-distinct zero es h = refl
take-distinct (suc n) [] h = refl
take-distinct (suc n) (e ∷ es) h =
    ground (arith, h, contains-take e.post_id n es, take-distinct n es)

module _ (counters : List PostCounter) where
  contains-add_item :
      (id : String) (o : Option Post) (items : List FeedItem)
      → ((p : Post) → o ≡ some p → (p.post_id == id) ≡ false)
      → contains id (item_ids items) ≡ false
      → contains id (item_ids (add_item counters o items)) ≡ false
  unfolding add_item contains item_of
  contains-add_item id none items other h = h
  contains-add_item id (some p) items other h = ground (arith, other p refl, h)

  distinct-add_item :
      (o : Option Post) (items : List FeedItem)
      → ((p : Post) → o ≡ some p → contains p.post_id (item_ids items) ≡ false)
      → has_repeats (item_ids items) ≡ false
      → has_repeats (item_ids (add_item counters o items)) ≡ false
  unfolding add_item has_repeats item_of
  distinct-add_item none items new h = h
  distinct-add_item (some p) items new h = ground (arith, new p refl, h)

  length-add_item :
      (o : Option Post) (items : List FeedItem)
      → length (add_item counters o items) ≤ suc (length items)
  unfolding add_item
  length-add_item none items = omega arith
  length-add_item (some p) items = ground arith

  shown-add_item :
      (posts : List Post) (o : Option Post) (items : List FeedItem)
      → ((p : Post) (q : Post → Bool) → o ≡ some p → q p ≡ true → exists q posts ≡ true)
      → All (λ i. exists (is_shown i) posts ≡ true) items
      → All (λ i. exists (is_shown i) posts ≡ true) (add_item counters o items)
  unfolding add_item item_of
  shown-add_item posts none items there h = h
  shown-add_item posts (some p) items there h =
      both_ways (All (λ i. exists (is_shown i) posts ≡ true)) p.is_deleted items
        (item_of counters p ∷ items) (λ gone. h)
        (λ kept. (
          there p (is_shown (item_of counters p)) refl
              (ground (arith, kept, eq_refl p.post_id, eq_refl p.uid)),
          h,
        ))

find-id :
    (id : String) (posts : List Post) (p : Post)
    → find (has_post_id id) posts ≡ some p
    → p.post_id ≡ id
unfolding has_post_id
find-id id posts p e = (eq_iff p.post_id id).0 (find-passes (has_post_id id) posts p e)

find-exists :
    (p q : Post → Bool) (posts : List Post) (x : Post)
    → find p posts ≡ some x
    → q x ≡ true
    → exists q posts ≡ true
unfolding find exists
find-exists p q [] x e h = cc
find-exists p q (y ∷ posts) x e h =
    both_ways (λ (o : Option Post). o ≡ some x → (q y || exists q posts) ≡ true) (p y) (some y)
      (find p posts)
      (λ passes here.
        subst (λ z. (q z || exists q posts) ≡ true) (sym (some-injective y x here))
          (ground (arith, h)))
      (λ fails later. ground (arith, find-exists p q posts x later h)) e

module _ (posts : List Post) (counters : List PostCounter) where
  contains-hydrate :
      (id : String) (es : List TimelineEntry)
      → contains id (entry_ids es) ≡ false
      → contains id (item_ids (hydrate posts counters es)) ≡ false
  unfolding hydrate contains
  contains-hydrate id [] h = refl
  contains-hydrate id (e ∷ es) h =
      contains-add_item counters id (find (has_post_id e.post_id) posts) (hydrate posts counters es)
        (λ p found. ground (arith, h, find-id e.post_id posts p found))
        (contains-hydrate id es (ground (arith, h)))

  pub hydrate-distinct :
      (es : List TimelineEntry)
      → has_repeats (entry_ids es) ≡ false
      → has_repeats (item_ids (hydrate posts counters es)) ≡ false
  unfolding hydrate has_repeats
  hydrate-distinct [] h = refl
  hydrate-distinct (e ∷ es) h =
      distinct-add_item counters (find (has_post_id e.post_id) posts) (hydrate posts counters es)
        (λ p found.
          subst (λ (id : String). contains id (item_ids (hydrate posts counters es)) ≡ false)
            (sym (find-id e.post_id posts p found))
            (contains-hydrate e.post_id es (ground (arith, h))))
        (hydrate-distinct es (ground (arith, h)))

  pub length-hydrate : (es : List TimelineEntry) → length (hydrate posts counters es) ≤ length es
  unfolding hydrate
  length-hydrate [] = omega arith
  length-hydrate (e ∷ es) = omega (
    arith,
    length-hydrate es,
    length-add_item counters (find (has_post_id e.post_id) posts) (hydrate posts counters es),
  )

  pub hydrate-shown :
      (es : List TimelineEntry)
      → All (λ i. exists (is_shown i) posts ≡ true) (hydrate posts counters es)
  unfolding hydrate
  hydrate-shown [] = tt
  hydrate-shown (e ∷ es) =
      shown-add_item counters posts (find (has_post_id e.post_id) posts) (hydrate posts counters es)
        (λ p q found h. find-exists (has_post_id e.post_id) q posts p found h) (hydrate-shown es)

-- Names do not change which posts the items show.
module _ (users : List User) where
  pub named-ids : (items : List FeedItem) → item_ids (map (with_name users) items) ≡ item_ids items
  named-ids [] = refl
  named-ids (i ∷ items) = ap (λ ids. i.post_id ∷ ids) (named-ids items)

  pub named-shown :
      (posts : List Post) (items : List FeedItem)
      → All (λ i. exists (is_shown i) posts ≡ true) items
      → All (λ i. exists (is_shown i) posts ≡ true) (map (with_name users) items)
  named-shown posts [] h = tt
  named-shown posts (i ∷ items) (hi, hs) = (hi, named-shown posts items hs)

  pub length-named : (items : List FeedItem) → length (map (with_name users) items) ≡ length items
  length-named [] = refl
  length-named (i ∷ items) = ap suc (length-named items)
