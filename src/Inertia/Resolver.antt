-- ===== src/Inertia/Resolver.antt =====
-- The resolver of a page's props (inertia/props.go): what goes out of them with a response. What
-- the functions of props return, each run once, stands in the props. `Outs` are the entries of a map, in the order in which they
-- are put there; a page's props have a key each.
pub mod Reaches
pub mod Settles
pub mod Shows
pub mod Fetched
pub mod FirstLoads
pub mod Named
pub mod Paths
mod Tests
use tug.Common.{
  ℕ, List, [], ◌∷◌, ◌++◌, Bool, true, false, not, ◌&&◌, ◌||◌, Option, none, some, Bytes, str_eq,
  any, ◌==◌, lookup, insert, map, if◌then◌else◌, Result, ok, err, ◌>>=◌,
}
use tug.Inertia.Props.{
  FirstLoad, sent, optional, deferred, Behavior, Paging, Content, Entries, Outcome, plain, holds,
  end, data_entry, prop_entry, fails, gives, scrolls,
}
use tug.Inertia.Notes.{
  Meta, Visit, collect, collect_scroll, errors_path, left_out, note_left_out, note_rescued, path_of,
  path_wanted, see,
}

mutual
  pub data Out (D : Type 0) : Type 0 where
    json : D → Out D
    object : Outs D → Out D

  pub data Outs (D : Type 0) : Type 0 where
    nothing : Outs D
    put : (key : Bytes) → Out D → Outs D → Outs D

unfoldable pub put_any : {D : Type 0} → (key : Bytes) → Option (Out D) → Outs D → Outs D
put_any key none outs = outs
put_any key (some out) outs = put key out outs

-- An error of `level`: the prop's path, and what its function returned.
pub data PropFailed (E : Type 0) : Type 0 where
  prop_failed : (path : Bytes) → E → PropFailed E

-- A value that goes out, and the entries after it.
unfoldable pub then_put :
    {D E : Type 0}
    → (key : Bytes) → (Meta D → Result (PropFailed E) (Outs D × Meta D))
    → Option (Out D) × Meta D
    → Result (PropFailed E) (Outs D × Meta D)
then_put key rest (out, n) = rest n >>= λ (outs, k). ok (put_any key out outs, k)

module _ (v : Visit) where
  -- Whether a partial reload leaves out what is not asked for.
  abbrev pub asked : (always : Bool) → (path : Bytes) → (parent_resolved : Bool) → Bool
  asked always path parent_resolved =
      not v.partial
      || (parent_resolved || (always || (str_eq path errors_path || path_wanted v path)))

  abbrev pub kept : (missing : Bool) → Behavior → (path : Bytes) → (parent_resolved : Bool) → Bool
  kept missing b path parent_resolved =
      not missing && (asked b.always path parent_resolved && (v.partial || not (left_out v b path)))

  -- What the first loop of `level` notes of a prop.
  unfoldable pub note_prop :
      {D : Type 0} → (missing : Bool) → Behavior → (path : Bytes) → Meta D → Meta D
  note_prop missing b path m =
      if not missing && (not v.partial && left_out v b path) then note_left_out v b path m else m

  -- The first loop of `level`.
  unfoldable pub note_level : {D E : Type 0} → Entries D E → (prefix : Bytes) → Meta D → Meta D
  note_level end prefix m = m
  note_level (data_entry key c es) prefix m = note_level es prefix m
  note_level (prop_entry key missing b o es) prefix m =
      note_level es prefix (note_prop missing b (path_of prefix key) m)

  unfoldable pub see_data : {D : Type 0} → (prefix path : Bytes) → Meta D → Meta D
  see_data prefix path m =
      if str_eq prefix []
      then see v (record { path = path; behavior = none; rescued = false }) m
      else m

  unfoldable mutual
    -- `value`.
    pub send_content :
        {D E : Type 0}
        → Content D E
        → (path : Bytes) → (parent_resolved : Bool) → Meta D
        → Result (PropFailed E) (Out D × Meta D)
    send_content (plain d) path parent_resolved m = ok (json d, m)
    send_content (holds es) path parent_resolved m =
        send_entries es path parent_resolved (note_level es path m) >>= λ (outs, n).
        ok (object outs, n)

    -- The second loop of `level`.
    pub send_entries :
        {D E : Type 0}
        → Entries D E
        → (prefix : Bytes) → (parent_resolved : Bool) → Meta D
        → Result (PropFailed E) (Outs D × Meta D)
    send_entries end prefix parent_resolved m = ok (nothing, m)
    send_entries (data_entry key c es) prefix parent_resolved m =
        let path = path_of prefix key in
        let rest = send_entries es prefix parent_resolved in
        let here = send_content c path parent_resolved m in
        if asked false path parent_resolved
        then (here >>= λ (out, n). then_put key rest (some out, see_data prefix path n))
        else rest m
    send_entries (prop_entry key missing b o es) prefix parent_resolved m =
        let path = path_of prefix key in
        let rest = send_entries es prefix parent_resolved in
        let here = send_outcome o b path m in
        if kept missing b path parent_resolved then (here >>= then_put key rest) else rest m

    -- What `level` does with what a prop's function returned.
    pub send_outcome :
        {D E : Type 0}
        → Outcome D E
        → Behavior
        → (path : Bytes) → Meta D
        → Result (PropFailed E) (Option (Out D) × Meta D)
    send_outcome (fails e) b path m =
        if b.rescue
        then ok (
          none,
          see v (record { path = path; behavior = some b; rescued = true }) (note_rescued v path m),
        )
        else err (prop_failed path e)
    send_outcome (gives c) b path m =
        send_content c path true (collect v true b path m) >>= λ (out, n).
        ok (some out, see v (record { path = path; behavior = some b; rescued = false }) n)
    send_outcome (scrolls p c) b path m =
        send_content c path true (collect v true b path (collect_scroll v p path m)) >>= λ (out, n).
        ok (some out, see v (record { path = path; behavior = some b; rescued = false }) n)

  -- `level`.
  unfoldable pub level :
      {D E : Type 0}
      → Entries D E
      → (prefix : Bytes) → (parent_resolved : Bool) → Meta D
      → Result (PropFailed E) (Outs D × Meta D)
  level es prefix parent_resolved m =
      send_entries es prefix parent_resolved (note_level es prefix m)
