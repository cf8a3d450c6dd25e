-- ===== src/Inertia/Resolver/Paths.antt =====
-- The paths of props, and those that are noted as deferred (inertia/props.go).
use tug.Common.{
  List, [], ◌∷◌, ◌++◌, Bool, true, false, not, ◌&&◌, ◌||◌, none, some, Bytes, str_eq, str_eq_iff,
  any, lookup, insert, ◌≡◌, refl, sym, ◌∙◌, subst, arith, Bool-cases, inl, inr, ◌⊎◌, Option-cases,
}
use mathlib.Core.List.{append_assoc}
use tug.Inertia.Props.{Behavior}
use tug.Inertia.Notes.{
  Visit, Meta, Seen, see, path_of, has_prefix, inside, within, leads_to, deferred_noted,
  is_deferred, client_has,
}
use tug.Inertia.Resolver.{see_data}

pub has_prefix-append : (s a b : Bytes) → has_prefix s (a ++ b) ≡ true → has_prefix s a ≡ true
unfolding has_prefix
has_prefix-append s [] b h = refl
has_prefix-append [] (c ∷ a) b h = let x : false ≡ true = h in cc
has_prefix-append (d ∷ s) (c ∷ a) b h = ground (arith, has_prefix-append s a b)

pub has_prefix-left : (a b : Bytes) → has_prefix (a ++ b) a ≡ true
unfolding has_prefix
has_prefix-left [] b = refl
has_prefix-left (c ∷ a) b = ground (arith, has_prefix-left a b)

-- Whether a path is below a prefix, which the empty one is of all.
abbrev pub below_prefix : (p prefix : Bytes) → Bool
below_prefix p prefix = str_eq prefix [] || inside p prefix

pub below_prefix-path_of : (prefix key : Bytes) → below_prefix (path_of prefix key) prefix ≡ true
below_prefix-path_of prefix key = elim (Bool-cases (str_eq prefix [])) [
  | inl e ↦ rw e refl
  | inr e ↦ rw e (
      subst (λ s. has_prefix s (prefix ++ 46 ∷ []) ≡ true) (append_assoc prefix (46 ∷ []) key)
        (has_prefix-left (prefix ++ 46 ∷ []) key))
]

pub below_prefix-inside :
    (p prefix key : Bytes) → inside p (path_of prefix key) ≡ true → below_prefix p prefix ≡ true
below_prefix-inside p prefix key h = elim (Bool-cases (str_eq prefix [])) [
  | inl e ↦ rw e refl
  | inr e ↦
      let long : has_prefix p ((prefix ++ 46 ∷ key) ++ 46 ∷ []) ≡ true = rw e at h in
      let parts : (prefix ++ 46 ∷ key) ++ 46 ∷ [] ≡ (prefix ++ 46 ∷ []) ++ (key ++ 46 ∷ []) =
        append_assoc prefix (46 ∷ key) (46 ∷ [])
        ∙ sym (append_assoc prefix (46 ∷ []) (key ++ 46 ∷ [])) in
      rw e (
        has_prefix-append p (prefix ++ 46 ∷ []) (key ++ 46 ∷ [])
          (subst (λ s. has_prefix p s ≡ true) parts long))
]

pub within-member :
    (p : Bytes) (paths : List Bytes) → any (λ q. str_eq p q) paths ≡ true → within p paths ≡ true
unfolding within
within-member p [] a = a
within-member p (q ∷ paths) a = ground (arith, within-member p paths)

pub leads_to-member :
    (p path : Bytes) (paths : List Bytes)
    → any (λ q. str_eq p q) paths ≡ true
    → inside p path ≡ true
    → leads_to path paths ≡ true
unfolding leads_to
leads_to-member p path [] a i = a
leads_to-member p path (q ∷ paths) a i = elim (Bool-cases (str_eq p q)) [
  | inl e ↦
      let is : inside q path ≡ true = subst (λ s. inside s path ≡ true) ((str_eq_iff p q).0 e) i in
      rw is refl
  | inr e ↦ ground (arith, leads_to-member p path paths (rw e at a) i)
]

-- Two visits: one that loads a page, and one that fetches a path of it.
pub record Fetches (p : Bytes) (v w : Visit) : Type 0 where
  pub loads : v.partial ≡ false
  pub fetches : w.partial ≡ true
  pub is_asked : any (λ q. str_eq p q) w.only ≡ true
  pub none_excepted : w.except ≡ []

-- Whether a path is among the deferred ones.
abbrev pub is_named : {D : Type 0} → (p : Bytes) → Meta D → Bool
is_named p m = any (λ (g : Bytes × List Bytes). any (λ q. str_eq q p) g.1) m.deferred

-- Whether a prop went out, or was rescued.
abbrev pub was_sent : {D : Type 0} → (p : Bytes) → Meta D → Bool
was_sent p m = any (λ (s : Seen). str_eq s.path p) m.saw

pub any-append_one :
    {A : Type 0} → (f : A → Bool) (xs : List A) (x : A) → any f (xs ++ x ∷ []) ≡ (any f xs || f x)
any-append_one f [] x = ground arith
any-append_one f (y ∷ xs) x = ground (arith, any-append_one f xs x)

or_widen :
    (a b c d : Bool) → (a || b) ≡ true → (b ≡ true → (c || d) ≡ true) → ((a || c) || d) ≡ true
or_widen true b c d h k = refl
or_widen false b c d h k = k h

or_first : (a b c : Bool) → (b || c) ≡ true → ((a || c) || b) ≡ true
or_first a b c h = ground arith

or_split : {A : Type 0} → (a b : Bool) → (a || b) ≡ true → (b ≡ true → A) → (a ≡ true) ⊎ A
or_split true b h k = inl refl
or_split false b h k = inr (k h)

pub or_true_of : (a b : Bool) → b ≡ true → (a || b) ≡ true
or_true_of a b e = ground arith

abbrev names_path : (p : Bytes) → List (Bytes × List Bytes) → Bool
names_path p ds = any (λ (g : Bytes × List Bytes). any (λ q. str_eq q p) g.1) ds

names_path-insert :
    (p group : Bytes) (new : List Bytes) (ds : List (Bytes × List Bytes))
    → names_path p (insert group new ds) ≡ true
    → (names_path p ds || any (λ q. str_eq q p) new) ≡ true
unfolding insert
names_path-insert p group new [] h = ground arith
names_path-insert p group new ((g, paths) ∷ ds) h = elim (Bool-cases (str_eq g group)) [
  | inl e ↦ or_first (any (λ q. str_eq q p) paths) _ _ (rw (insert, e) at h)
  | inr e ↦
      or_widen (any (λ q. str_eq q p) paths) _ _ _ (rw (insert, e) at h)
        (names_path-insert p group new ds)
]

names_path-lookup :
    (p group : Bytes) (paths : List Bytes) (ds : List (Bytes × List Bytes))
    → lookup group ds ≡ some paths
    → any (λ q. str_eq q p) paths ≡ true
    → names_path p ds ≡ true
unfolding lookup
names_path-lookup p group paths [] e a = let x : none ≡ some paths = e in cc
names_path-lookup p group paths ((g, found) ∷ ds) e a = elim (Bool-cases (str_eq g group)) [
  | inl b ↦
      let is : some found ≡ some paths = rw (lookup, b) at e in
      let same : found ≡ paths = cc in
      let here : any (λ q. str_eq q p) found ≡ true = rw same a in rw here refl
  | inr b ↦ or_true_of _ _ (names_path-lookup p group paths ds (rw (lookup, b) at e) a)
]

pub names_path-noted :
    (v : Visit) (b : Behavior) (p path : Bytes) (ds : List (Bytes × List Bytes))
    → names_path p (deferred_noted v b path ds) ≡ true
    → (names_path p ds ≡ true) ⊎ (str_eq path p ≡ true)
unfolding deferred_noted
names_path-noted v b p path ds h =
    elim (Bool-cases (is_deferred v b.first_load && not (client_has v b path))) [
      | inr d ↦ inl (rw (deferred_noted, d) at h)
      | inl d ↦ elim (Option-cases (lookup b.group ds)) [
        | inl n ↦
            or_split _ _
              (names_path-insert p b.group (path ∷ []) ds (rw (deferred_noted, d, n) at h))
              λ x. ground arith
        | inr (paths, n) ↦
            let inserted =
              names_path-insert p b.group (paths ++ path ∷ []) ds
                (rw (deferred_noted, d, n) at h) in
            elim (Bool-cases (any (λ q. str_eq q p) paths)) [
              | inl k ↦ inl (names_path-lookup p b.group paths ds n k)
              | inr k ↦
                  or_split _ _ inserted
                    λ x. let y = sym (any-append_one (λ q. str_eq q p) paths path) ∙ x in rw k at y
            ]
      ]
    ]

pub path_of-filled :
    (prefix key : Bytes) → str_eq prefix [] ≡ false → str_eq (path_of prefix key) [] ≡ false
unfolding str_eq
path_of-filled [] key e = let x : true ≡ false = e in cc
path_of-filled (c ∷ prefix) key e = refl

pub see_data-is_named :
    {D : Type 0}
    → (v : Visit) (p prefix path : Bytes) (m : Meta D)
    → is_named p (see_data v prefix path m) ≡ is_named p m
unfolding see_data see
see_data-is_named v p prefix path m = elim (Bool-cases (str_eq prefix [])) [
  | inl a ↦ rw (see_data, a) refl
  | inr a ↦ rw (see_data, a) refl
]
