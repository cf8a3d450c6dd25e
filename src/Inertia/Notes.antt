-- ===== src/Inertia/Notes.antt =====
-- What the client is told of a page's props, and what it asks for (inertia/props.go).
use tug.Common.{
  ℕ, List, [], ◌∷◌, ◌++◌, Bool, true, false, not, ◌&&◌, ◌||◌, Option, none, some, Bytes, str_eq,
  any, ◌==◌, lookup, insert, map, if◌then◌else◌,
}
use tug.Inertia.Props.{FirstLoad, sent, optional, deferred, Behavior, Paging}

-- What the request asks for. The lists are empty where their header is not there.
pub record Visit : Type 0 where
  pub partial : Bool
  pub inertia : Bool
  pub only : List Bytes
  pub except : List Bytes
  pub reset : List Bytes
  pub loaded : List Bytes
  pub prepend : Bool

pub record ScrollMeta (D : Type 0) : Type 0 where
  pub page_name : Bytes
  pub previous_page : Option D
  pub next_page : Option D
  pub current_page : Option D
  pub is_reset : Bool

pub record OnceMeta : Type 0 where
  pub prop : Bytes
  pub expires_at : Option ℕ

-- A prop that went out, or was rescued: its path, what it does unless it is plain, and whether it was rescued.
pub record Seen : Type 0 where
  pub path : Bytes
  pub behavior : Option Behavior
  pub rescued : Bool

-- What the resolver notes for the client.
pub record Meta (D : Type 0) : Type 0 where
  pub deferred : List (Bytes × List Bytes)
  pub rescued : List Bytes
  pub merge : List Bytes
  pub prepends : List Bytes
  pub deep_merge : List Bytes
  pub match_on : List Bytes
  pub scroll : List (Bytes × ScrollMeta D)
  pub once : List (Bytes × OnceMeta)
  pub saw : List Seen

-- `strings.HasPrefix`.
unfoldable pub has_prefix : Bytes → (prefix : Bytes) → Bool
has_prefix s [] = true
has_prefix [] (c ∷ prefix) = false
has_prefix (d ∷ s) (c ∷ prefix) = d == c && has_prefix s prefix

-- Whether a path is inside another.
abbrev pub inside : (path outer : Bytes) → Bool
inside path outer = has_prefix path (outer ++ 46 ∷ [])

unfoldable pub within : (path : Bytes) → List Bytes → Bool
within path paths = any (λ p. str_eq path p || inside path p) paths

unfoldable pub leads_to : (path : Bytes) → List Bytes → Bool
leads_to path paths = any (λ p. inside p path) paths

unfoldable pub is_nil : List Bytes → Bool
is_nil [] = true
is_nil (p ∷ paths) = false

-- `cmp.Or`.
unfoldable pub or_else : Bytes → Bytes → Bytes
or_else a b = if str_eq a [] then b else a

abbrev pub errors_path : Bytes
errors_path = b'e' ∷ b'r' ∷ b'r' ∷ b'o' ∷ b'r' ∷ b's' ∷ []

abbrev data_path : Bytes
data_path = b'd' ∷ b'a' ∷ b't' ∷ b'a' ∷ []

abbrev page_param : Bytes
page_param = b'p' ∷ b'a' ∷ b'g' ∷ b'e' ∷ []

abbrev pub path_of : (prefix key : Bytes) → Bytes
path_of prefix key = if str_eq prefix [] then key else prefix ++ 46 ∷ key

module _ (v : Visit) where
  -- `except`, of a path: none of the paths left out has it.
  abbrev pub not_excepted : (path : Bytes) → Bool
  not_excepted path = is_nil v.except || not (within path v.except)

  unfoldable pub path_wanted : (path : Bytes) → Bool
  path_wanted path =
      (is_nil v.only || (within path v.only || leads_to path v.only)) && not_excepted path

  unfoldable pub labeled : (path : Bytes) → Bool
  labeled path = not v.partial || (is_nil v.only || within path v.only) && not_excepted path

  unfoldable pub client_has : Behavior → (path : Bytes) → Bool
  client_has b path =
      b.once && (not b.fresh && any (λ k. str_eq k (or_else b.once_key path)) v.loaded)

  abbrev pub waits : FirstLoad → Bool
  waits sent = false
  waits optional = true
  waits deferred = true

  abbrev pub is_deferred : FirstLoad → Bool
  is_deferred deferred = true
  is_deferred _ = false

  -- What `leftOutOfFirstLoad` returns.
  unfoldable pub left_out : Behavior → (path : Bytes) → Bool
  left_out b path = waits b.first_load || v.inertia && client_has b path

  -- `collectMerge`, by the list that it adds to.
  abbrev pub merges : Behavior → (path : Bytes) → Bool
  merges b path = b.merge && (not (any (λ p. str_eq p path) v.reset) && labeled path)

  abbrev pub append_paths : Behavior → List Bytes
  append_paths b = if b.scroll && not v.prepend then data_path ∷ [] else b.append_at

  abbrev pub prepend_paths : Behavior → List Bytes
  prepend_paths b = if b.scroll && v.prepend then data_path ∷ [] else b.prepend_at

  abbrev pub at_root : Behavior → Bool
  at_root b = is_nil (append_paths b) && is_nil (prepend_paths b)

  abbrev pub below : (path : Bytes) → List Bytes → List Bytes
  below path paths = map (λ at. path ++ 46 ∷ at) paths

  unfoldable pub merge_paths : Behavior → (path : Bytes) → List Bytes
  merge_paths b path =
      if not (merges b path) || b.deep
      then []
      else if at_root b
      then if b.prepend then [] else path ∷ []
      else below path (append_paths b)

  unfoldable pub prepend_merge_paths : Behavior → (path : Bytes) → List Bytes
  prepend_merge_paths b path =
      if not (merges b path) || b.deep
      then []
      else if at_root b
      then if b.prepend then path ∷ [] else []
      else below path (prepend_paths b)

  -- `collectOnce`.
  unfoldable pub once_noted :
      Behavior → (path : Bytes) → List (Bytes × OnceMeta) → List (Bytes × OnceMeta)
  once_noted b path noted =
      if b.once && labeled path
      then insert (or_else b.once_key path) (record { prop = path; expires_at = b.expires }) noted
      else noted

  unfoldable pub deferred_noted :
      Behavior → (path : Bytes) → List (Bytes × List Bytes) → List (Bytes × List Bytes)
  deferred_noted b path noted =
      if is_deferred b.first_load && not (client_has b path)
      then insert b.group
          (elim (lookup b.group noted) [ none ↦ path ∷ [] | some paths ↦ paths ++ path ∷ [] ]) noted
      else noted

  module _ {D : Type 0} where
    -- `collectMerge` and `collectOnce`.
    unfoldable pub collect : (merging : Bool) → Behavior → (path : Bytes) → Meta D → Meta D
    collect merging b path m = record {
      deferred = m.deferred;
      rescued = m.rescued;
      merge = if merging then m.merge ++ merge_paths b path else m.merge;
      prepends = if merging then m.prepends ++ prepend_merge_paths b path else m.prepends;
      deep_merge =
          if merging && (merges b path && b.deep) then m.deep_merge ++ path ∷ [] else m.deep_merge;
      match_on =
          if merging && merges b path then m.match_on ++ below path b.match_on else m.match_on;
      scroll = m.scroll;
      once = once_noted b path m.once;
      saw = m.saw;
    }

    -- What `leftOutOfFirstLoad` notes.
    unfoldable pub note_left_out : Behavior → (path : Bytes) → Meta D → Meta D
    note_left_out b path m =
        let c : Meta D = collect (waits b.first_load) b path m in
        record {
          deferred = deferred_noted b path m.deferred;
          rescued = c.rescued;
          merge = c.merge;
          prepends = c.prepends;
          deep_merge = c.deep_merge;
          match_on = c.match_on;
          scroll = c.scroll;
          once = c.once;
          saw = c.saw;
        }

    -- `rs.saw`.
    unfoldable pub see : Seen → Meta D → Meta D
    see s m = record {
      deferred = m.deferred;
      rescued = m.rescued;
      merge = m.merge;
      prepends = m.prepends;
      deep_merge = m.deep_merge;
      match_on = m.match_on;
      scroll = m.scroll;
      once = m.once;
      saw = m.saw ++ s ∷ [];
    }

    unfoldable pub note_rescued : (path : Bytes) → Meta D → Meta D
    note_rescued path m = record {
      deferred = m.deferred;
      rescued = m.rescued ++ path ∷ [];
      merge = m.merge;
      prepends = m.prepends;
      deep_merge = m.deep_merge;
      match_on = m.match_on;
      scroll = m.scroll;
      once = m.once;
      saw = m.saw;
    }

    -- `collectScroll`.
    unfoldable pub collect_scroll : Paging D → (path : Bytes) → Meta D → Meta D
    collect_scroll p path m = record {
      deferred = m.deferred;
      rescued = m.rescued;
      merge = m.merge;
      prepends = m.prepends;
      deep_merge = m.deep_merge;
      match_on = m.match_on;
      scroll =
          insert path
            (record {
              page_name = or_else p.page_name page_param;
              previous_page = p.previous;
              next_page = p.next;
              current_page = p.current;
              is_reset = any (λ r. str_eq r path) v.reset;
            })
            m.scroll;
      once = m.once;
      saw = m.saw;
    }
