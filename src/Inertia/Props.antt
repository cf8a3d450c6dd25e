-- ===== src/Inertia/Props.antt =====
-- The props of a page, and what each does (inertia/props.go). A value is what reflection makes of it: data, or a map or
-- a struct that holds props. Data, and the errors of the app's functions, are of any types.
use tug.Common.{
  ℕ, List, [], ◌∷◌, ◌++◌, Bool, true, false, Option, none, some, Bytes, str_eq, map, if◌then◌else◌,
  ltb, ◌+◌, ◌-◌,
}

pub data FirstLoad : Type 0 where
  sent optional deferred : FirstLoad

-- A `behavior`. `expires` is in milliseconds since 1970, none for the zero time.
pub record Behavior : Type 0 where
  pub first_load : FirstLoad
  pub always : Bool
  pub group : Bytes
  pub rescue : Bool
  pub merge : Bool
  pub deep : Bool
  pub prepend : Bool
  pub append_at : List Bytes
  pub prepend_at : List Bytes
  pub match_on : List Bytes
  pub once : Bool
  pub once_key : Bytes
  pub expires : Option ℕ
  pub fresh : Bool
  pub scroll : Bool

abbrev behaves : (always merge scroll : Bool) → Behavior
behaves always merge scroll = record {
  first_load = sent;
  always = always;
  group = [];
  rescue = false;
  merge = merge;
  deep = false;
  prepend = false;
  append_at = [];
  prepend_at = [];
  match_on = [];
  once = false;
  once_key = [];
  expires = none;
  fresh = false;
  scroll = scroll;
}

-- What `Lazy` does: nothing but hold a value.
abbrev pub lazy : Behavior
lazy = behaves false false false

-- `Always`.
abbrev pub always_sent : Behavior
always_sent = behaves true false false

-- `Scroll`.
abbrev pub scroll_page : Behavior
scroll_page = behaves false true true

-- The functions that change a behavior change these fields of it.
abbrev with_load : FirstLoad → (group : Bytes) → (rescue : Bool) → Behavior → Behavior
with_load load group rescue b = record {
  first_load = load;
  always = b.always;
  group = group;
  rescue = rescue;
  merge = b.merge;
  deep = b.deep;
  prepend = b.prepend;
  append_at = b.append_at;
  prepend_at = b.prepend_at;
  match_on = b.match_on;
  once = b.once;
  once_key = b.once_key;
  expires = b.expires;
  fresh = b.fresh;
  scroll = b.scroll;
}

abbrev with_merging :
    (deep prepend : Bool) → (append_at prepend_at match_on : List Bytes) → Behavior → Behavior
with_merging deep prepend append_at prepend_at match_on b = record {
  first_load = b.first_load;
  always = b.always;
  group = b.group;
  rescue = b.rescue;
  merge = true;
  deep = deep;
  prepend = prepend;
  append_at = append_at;
  prepend_at = prepend_at;
  match_on = match_on;
  once = b.once;
  once_key = b.once_key;
  expires = b.expires;
  fresh = b.fresh;
  scroll = b.scroll;
}

abbrev with_keeping :
    (once_key : Bytes) → (expires : Option ℕ) → (fresh : Bool) → Behavior → Behavior
with_keeping once_key expires fresh b = record {
  first_load = b.first_load;
  always = b.always;
  group = b.group;
  rescue = b.rescue;
  merge = b.merge;
  deep = b.deep;
  prepend = b.prepend;
  append_at = b.append_at;
  prepend_at = b.prepend_at;
  match_on = b.match_on;
  once = true;
  once_key = once_key;
  expires = expires;
  fresh = fresh;
  scroll = b.scroll;
}

-- `Optional`.
unfoldable pub only_asked : Behavior
only_asked = with_load optional [] false lazy

abbrev b_default : Bytes
b_default = b'd' ∷ b'e' ∷ b'f' ∷ b'a' ∷ b'u' ∷ b'l' ∷ b't' ∷ []

-- "default", or the group given.
unfoldable pub group_or_default : (group : List Bytes) → Bytes
group_or_default [] = b_default
group_or_default (g ∷ _) = if str_eq g [] then b_default else g

-- `Defer`, and `Scroll(...).Defer` of what Scroll does.
unfoldable pub defer : (group : List Bytes) → Behavior → Behavior
defer group b = with_load deferred (group_or_default group) b.rescue b

-- `Rescue`.
unfoldable pub with_rescue : Behavior → Behavior
with_rescue b = with_load b.first_load b.group true b

-- `Merge`'s options.
pub data MergeOption : Type 0 where
  prepends : MergeOption
  deep_merges : MergeOption
  matches_on : (fields : List Bytes) → MergeOption
  appends_at : (path : Bytes) → MergeOption
  prepends_at : (path : Bytes) → MergeOption

unfoldable pub merge_option : MergeOption → Behavior → Behavior
merge_option prepends b = with_merging b.deep true b.append_at b.prepend_at b.match_on b
merge_option deep_merges b = with_merging true b.prepend b.append_at b.prepend_at b.match_on b
merge_option (matches_on fields) b =
    with_merging b.deep b.prepend b.append_at b.prepend_at (b.match_on ++ fields) b
merge_option (appends_at path) b =
    with_merging b.deep b.prepend (b.append_at ++ path ∷ []) b.prepend_at b.match_on b
merge_option (prepends_at path) b =
    with_merging b.deep b.prepend b.append_at (b.prepend_at ++ path ∷ []) b.match_on b

unfoldable pub merge_options : List MergeOption → Behavior → Behavior
merge_options [] b = b
merge_options (o ∷ options) b = merge_options options (merge_option o b)

-- `withMerge`.
unfoldable pub with_merge : Behavior → List MergeOption → Behavior
with_merge b options =
    merge_options options (with_merging b.deep b.prepend b.append_at b.prepend_at b.match_on b)

-- `MatchOn` of a Scroll, whose fields are those of its items, under "data".
unfoldable pub match_items : (fields : List Bytes) → Behavior → Behavior
match_items fields b =
    with_merging b.deep b.prepend b.append_at b.prepend_at
      (b.match_on ++ map (λ field. b'd' ∷ b'a' ∷ b't' ∷ b'a' ∷ b'.' ∷ field) fields) b

-- `Once`'s options.
pub data OnceOption : Type 0 where
  as_key : (key : Bytes) → OnceOption
  until_time : ℕ → OnceOption
  is_fresh : Bool → OnceOption

unfoldable pub once_option : OnceOption → Behavior → Behavior
once_option (as_key key) b = with_keeping key b.expires b.fresh b
once_option (until_time t) b = with_keeping b.once_key (some t) b.fresh b
once_option (is_fresh when) b = with_keeping b.once_key b.expires when b

unfoldable pub once_options : List OnceOption → Behavior → Behavior
once_options [] b = b
once_options (o ∷ options) b = once_options options (once_option o b)

-- `withOnce`.
unfoldable pub with_once : Behavior → List OnceOption → Behavior
with_once b options = once_options options (with_keeping b.once_key b.expires b.fresh b)

-- A page that a Paging names, as JSON has it.
pub record Paging (D : Type 0) : Type 0 where
  pub page_name : Bytes
  pub previous : Option D
  pub next : Option D
  pub current : Option D

-- `PageNumbers`, of a page from 1 on.
unfoldable pub page_numbers : (page : ℕ) → (more : Bool) → Paging ℕ
page_numbers page more = record {
  page_name = [];
  previous = if ltb 1 page then some (page - 1) else none;
  next = if more then some (page + 1) else none;
  current = some page;
}

-- A `prop_entry` has whether the prop is missing, what it does, and what its function returns. What the function of a Scroll returns
-- is its items under "data".
mutual
  pub data Content (D E : Type 0) : Type 0 where
    plain : D → Content D E
    holds : Entries D E → Content D E

  pub data Entries (D E : Type 0) : Type 0 where
    end : Entries D E
    data_entry : (key : Bytes) → Content D E → Entries D E → Entries D E
    prop_entry :
        (key : Bytes) → (missing : Bool) → Behavior → Outcome D E → Entries D E → Entries D E

  pub data Outcome (D E : Type 0) : Type 0 where
    fails : E → Outcome D E
    gives : Content D E → Outcome D E
    scrolls : Paging D → Content D E → Outcome D E
