-- ===== src/Rancher/KdmImages/Sorting/Laws.antt =====
-- pkg/rancher/kdmimages/upgrade.go: sorting the keys of a map gives one list, whatever their order.
-- Each text is below all that follow, so none stands twice.
use image_tools.Prelude.{
  ◌≡◌, refl, sym, subst, inl, inr, true, false, ◌||◌, List, [], ◌∷◌, ◌++◌, arith, Bool-cases, has,
  mark, mark_all, has-append, All, Text, ◌==◌, ==_iff, ==_refl, ==_eq,
}
use image_tools.Rancher.KdmImages.Sorting.{text_less, insert_sorted, sort_strings}

abbrev pub IsAbove : Text → Text → Type 0
IsAbove s t = text_less s t ≡ true

abbrev pub IsSorted : List Text → Type 0
IsSorted [] = Unit
IsSorted (s ∷ l) = All (IsAbove s) l × IsSorted l

-- No text stands twice.
abbrev pub IsKeySet : List Text → Type 0
IsKeySet [] = Unit
IsKeySet (s ∷ l) = (has l s ≡ false) × IsKeySet l

IsKeySet-append : (l : List Text) (s : Text) → IsKeySet l → has l s ≡ false → IsKeySet (l ++ s ∷ [])
unfolding has
IsKeySet-append [] s h e = (refl, tt)
IsKeySet-append (t ∷ l) s (n, h) e = (
  ground (arith, has-append l (s ∷ []) t, ==_iff t s, ==_iff s t),
  IsKeySet-append l s h (ground (arith)),
)

pub mark-IsKeySet : (s : Text) (l : List Text) → IsKeySet l → IsKeySet (mark s l)
unfolding mark
mark-IsKeySet s l h = elim (Bool-cases (has l s)) [
  | inl e ↦ rw e h
  | inr e ↦ rw e (IsKeySet-append l s h e)
]

pub mark_all-IsKeySet : (ks l : List Text) → IsKeySet l → IsKeySet (mark_all ks l)
unfolding mark_all
mark_all-IsKeySet [] l h = h
mark_all-IsKeySet (k ∷ ks) l h = mark_all-IsKeySet ks (mark k l) (mark-IsKeySet k l h)

-- The order is total on different texts.
pub text_less_total : (s t : Text) → text_less s t ≡ false → (s == t) ≡ false → text_less t s ≡ true
unfolding text_less ◌==◌
text_less_total [] [] h e = ground arith
text_less_total [] (d ∷ t) h e = ground arith
text_less_total (c ∷ s) [] h e = refl
text_less_total (c ∷ s) (d ∷ t) h e = ground (arith, text_less_total s t)

pub text_less_chain :
    (s t u : Text) → text_less s t ≡ true → text_less t u ≡ true → text_less s u ≡ true
unfolding text_less
text_less_chain s t [] h k = ground arith
text_less_chain s [] (e ∷ u) h k = ground arith
text_less_chain [] (d ∷ t) (e ∷ u) h k = refl
text_less_chain (c ∷ s) (d ∷ t) (e ∷ u) h k = ground (arith, text_less_chain s t u)

pub has-insert_sorted :
    (s : Text) (l : List Text) (k : Text) → has (insert_sorted s l) k ≡ (s == k || has l k)
unfolding has insert_sorted
has-insert_sorted s [] k = refl
has-insert_sorted s (t ∷ l) k = ground (arith, has-insert_sorted s l k)

pub has-sort_strings : (l : List Text) (k : Text) → has (sort_strings l) k ≡ has l k
unfolding has sort_strings
has-sort_strings [] k = refl
has-sort_strings (s ∷ l) k =
    ground (arith, has-insert_sorted s (sort_strings l) k, has-sort_strings l k)

All-insert_sorted :
    (s t : Text) (l : List Text)
    → text_less s t ≡ true
    → All (IsAbove s) l
    → All (IsAbove s) (insert_sorted t l)
unfolding insert_sorted
All-insert_sorted s t [] h hl = (h, tt)
All-insert_sorted s t (u ∷ l) h (hu, hl) = elim (Bool-cases (text_less u t)) [
  | inl e ↦ rw e (hu, All-insert_sorted s t l h hl)
  | inr e ↦ rw e (h, (hu, hl))
]

All-IsAbove :
    (s t : Text) (l : List Text) → text_less s t ≡ true → All (IsAbove t) l → All (IsAbove s) l
All-IsAbove s t [] h hl = tt
All-IsAbove s t (u ∷ l) h (hu, hl) = (text_less_chain s t u h hu, All-IsAbove s t l h hl)

insert_sorted-IsSorted :
    (s : Text) (l : List Text) → has l s ≡ false → IsSorted l → IsSorted (insert_sorted s l)
unfolding insert_sorted has
insert_sorted-IsSorted s [] n h = (tt, tt)
insert_sorted-IsSorted s (t ∷ l) n (ht, h) = elim (Bool-cases (text_less t s)) [
  | inl e ↦ rw e (All-insert_sorted t s l e ht, insert_sorted-IsSorted s l (ground arith) h)
  | inr e ↦
      let above = text_less_total t s e (ground arith) in
      rw e ((above, All-IsAbove s t l above ht), (ht, h))
]

pub sort_strings-IsSorted : (l : List Text) → IsKeySet l → IsSorted (sort_strings l)
unfolding sort_strings
sort_strings-IsSorted [] d = tt
sort_strings-IsSorted (s ∷ l) (n, d) =
    insert_sorted-IsSorted s (sort_strings l) (ground (arith, has-sort_strings l s))
      (sort_strings-IsSorted l d)

pub text_less_irrefl : (s : Text) → text_less s s ≡ false
unfolding text_less
text_less_irrefl [] = refl
text_less_irrefl (c ∷ s) = ground (arith, text_less_irrefl s)

above-has :
    (s : Text) (l : List Text) (k : Text)
    → All (IsAbove s) l
    → has l k ≡ true
    → text_less s k ≡ true
unfolding has
above-has s [] k hl h = ground arith
above-has s (t ∷ l) k (ht, hl) h = elim (Bool-cases (t == k)) [
  | inl e ↦ subst (λ x. text_less s x ≡ true) (==_eq e) ht
  | inr e ↦ above-has s l k hl (ground arith)
]

lacks_itself : (s : Text) (l : List Text) → All (IsAbove s) l → has l s ≡ false
lacks_itself s l h = elim (Bool-cases (has l s)) [
  | inl e ↦ ground (arith, above-has s l s h e, text_less_irrefl s)
  | inr e ↦ e
]

heads_agree :
    (s t : Text) (l m : List Text)
    → All (IsAbove s) l
    → All (IsAbove t) m
    → ((k : Text) → has (s ∷ l) k ≡ has (t ∷ m) k)
    → s ≡ t
unfolding has
heads_agree s t l m hs ht h = elim (Bool-cases (s == t)) [
  | inl e ↦ ==_eq e
  | inr e ↦ ground (
    arith,
    h s,
    h t,
    ==_iff s t,
    ==_iff t s,
    ==_refl s,
    ==_refl t,
    above-has s l t hs,
    above-has t m s ht,
    text_less_chain s t s,
    text_less_irrefl s,
  )
]

tails_agree :
    (s : Text) (l m : List Text)
    → All (IsAbove s) l
    → All (IsAbove s) m
    → ((k : Text) → has (s ∷ l) k ≡ has (s ∷ m) k)
    → (k : Text) → has l k ≡ has m k
unfolding has
tails_agree s l m hl hm h k = elim (Bool-cases (s == k)) [
  | inl e ↦
      subst (λ x. has l x ≡ has m x) (==_eq e)
        (ground (arith, lacks_itself s l hl, lacks_itself s m hm))
  | inr e ↦ ground (arith, h k)
]

-- A sorted list is determined by its members.
sorted_unique :
    (l m : List Text) → IsSorted l → IsSorted m → ((k : Text) → has l k ≡ has m k) → l ≡ m
unfolding has
sorted_unique [] [] hl hm h = refl
sorted_unique [] (t ∷ m) hl hm h = ground (arith, h t, ==_refl t)
sorted_unique (s ∷ l) [] hl hm h = ground (arith, h s, ==_refl s)
sorted_unique (s ∷ l) (t ∷ m) (hs, hl) (ht, hm) h =
    let e = heads_agree s t l m hs ht h in
    let ht' : All (IsAbove s) m = subst (λ x. All (IsAbove x) m) (sym e) ht in
    let h' : ((k : Text) → has (s ∷ l) k ≡ has (s ∷ m) k) =
      subst (λ x. (k : Text) → has (s ∷ l) k ≡ has (x ∷ m) k) (sym e) h in
    rw (e, sorted_unique l m hl hm (tails_agree s l m hs ht' h'))

pub sort_strings_unique :
    (l m : List Text)
    → IsKeySet l
    → IsKeySet m
    → ((k : Text) → has l k ≡ has m k)
    → sort_strings l ≡ sort_strings m
sort_strings_unique l m dl dm h =
    sorted_unique (sort_strings l) (sort_strings m) (sort_strings-IsSorted l dl)
      (sort_strings-IsSorted m dm) (λ k. rw (has-sort_strings l k, has-sort_strings m k) (h k))
