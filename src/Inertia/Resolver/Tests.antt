-- ===== src/Inertia/Resolver/Tests.antt =====
-- A page with a map of deferred props and a once prop, its first load, and the fetch of one of them (inertia/props.go).
use tug.Common.{
  ◌||◌, ℕ, List, [], ◌∷◌, Bool, true, false, Option, none, some, ◌≡◌, refl, Bytes, Result, ok, err,
  any, Ensures,
}
use tug.Inertia.Props.{
  Entries, plain, holds, end, data_entry, prop_entry, fails, gives, lazy, defer, with_rescue,
  with_once, page_numbers, once_options, once_option, group_or_default,
}
use tug.Inertia.Notes.{
  Visit, Meta, collect, note_left_out, see, note_rescued, collect_scroll, left_out, path_wanted,
  labeled, within, leads_to, is_nil, client_has, has_prefix, once_noted, deferred_noted, or_else,
  merge_paths, prepend_merge_paths,
}
use tug.Inertia.Resolver.{
  Outs, json, object, nothing, put, PropFailed, level, put_any, then_put, note_prop, note_level,
  see_data, send_entries,
}
use tug.Inertia.Resolver.Paths.{Fetches}
use tug.Inertia.Resolver.Named.{Pathed, level-Fetched}
use tug.Inertia.Resolver.Shows.{outs_have, is_rescued}
use tug.Inertia.Resolver.Settles.{entries_settle}
use tug.Inertia.Resolver.FirstLoads.{outs_of, page_content, level-page_entries}

abbrev k_plan : Bytes
k_plan = b'p' ∷ b'l' ∷ b'a' ∷ b'n' ∷ []

abbrev k_stats : Bytes
k_stats = b's' ∷ []

abbrev k_sales : Bytes
k_sales = b'd' ∷ []

abbrev k_visits : Bytes
k_visits = b'v' ∷ []

abbrev sales_path : Bytes
sales_path = b's' ∷ b'.' ∷ b'd' ∷ []

abbrev visits_path : Bytes
visits_path = b's' ∷ b'.' ∷ b'v' ∷ []

abbrev page : Entries ℕ ℕ
page =
    data_entry k_stats
      (holds (
        prop_entry k_sales false (defer [] lazy) (gives (plain 5))
          (prop_entry k_visits false (with_rescue (defer [] lazy)) (fails 9) end)))
      (prop_entry k_plan false (with_once lazy []) (gives (plain 7)) end)

abbrev blank : Meta ℕ
blank = record {
  deferred = [];
  rescued = [];
  merge = [];
  prepends = [];
  deep_merge = [];
  match_on = [];
  scroll = [];
  once = [];
  saw = [];
}

abbrev first_visit : Visit
first_visit = record {
  partial = false;
  inertia = true;
  only = [];
  except = [];
  reset = [];
  loaded = [];
  prepend = false;
}

abbrev next_visit : Visit
next_visit = record {
  partial = false;
  inertia = true;
  only = [];
  except = [];
  reset = [];
  loaded = k_plan ∷ [];
  prepend = false;
}

abbrev fetch : Visit
fetch = record {
  partial = true;
  inertia = true;
  only = sales_path ∷ visits_path ∷ [];
  except = [];
  reset = [];
  loaded = k_plan ∷ [];
  prepend = false;
}

abbrev loaded_page : Outs ℕ × Meta ℕ
loaded_page = (
  put k_stats (object nothing) (put k_plan (json 7) nothing),
  record {
    deferred =
        (b'd' ∷ b'e' ∷ b'f' ∷ b'a' ∷ b'u' ∷ b'l' ∷ b't' ∷ [], sales_path ∷ visits_path ∷ []) ∷ [];
    rescued = [];
    merge = [];
    prepends = [];
    deep_merge = [];
    match_on = [];
    scroll = [];
    once = (k_plan, record { prop = k_plan; expires_at = none }) ∷ [];
    saw =
        record { path = k_stats; behavior = none; rescued = false }
        ∷ record { path = k_plan; behavior = some (with_once lazy []); rescued = false }
        ∷ [];
  },
)

first_load : level first_visit page [] false blank ≡ ok loaded_page
unfolding level send_entries left_out defer with_rescue then_put with_once once_options client_has
    put_any see collect see_data once_noted tug.Common.str_eq labeled note_level tug.Common.insert
    note_prop note_left_out deferred_noted merge_paths prepend_merge_paths or_else group_or_default
    tug.Common.lookup once_option collect_scroll has_prefix is_nil leads_to note_rescued path_wanted
    within
first_load = refl

abbrev sent_outs : Result (PropFailed ℕ) (Outs ℕ × Meta ℕ) → Option (Outs ℕ)
sent_outs (ok (outs, m)) = some outs
sent_outs (err e) = none

-- The client has the plan, which stays out of its next visit.
next_load :
    sent_outs (level next_visit page [] false blank) ≡ some (put k_stats (object nothing) nothing)
unfolding level send_entries left_out defer with_rescue then_put with_once once_options client_has
    put_any see collect see_data once_noted tug.Common.str_eq labeled note_level tug.Common.insert
    note_prop note_left_out deferred_noted merge_paths prepend_merge_paths or_else group_or_default
    tug.Common.lookup once_option collect_scroll has_prefix is_nil leads_to note_rescued path_wanted
    within
next_load = refl

fetched :
    sent_outs (level fetch page [] false blank)
    ≡ some (put k_stats (object (put k_sales (json 5) nothing)) nothing)
unfolding level send_entries left_out defer with_rescue then_put with_once once_options client_has
    put_any see collect see_data once_noted tug.Common.str_eq labeled note_level tug.Common.insert
    note_prop note_left_out deferred_noted merge_paths prepend_merge_paths or_else group_or_default
    tug.Common.lookup once_option collect_scroll has_prefix is_nil leads_to note_rescued path_wanted
    within
fetched = refl

fetches : Fetches sales_path first_visit fetch
unfolding tug.Common.str_eq
fetches = record { loads = refl; fetches = refl; is_asked = refl; none_excepted = refl }

page-Pathed : Pathed page []
unfolding tug.Common.str_eq
page-Pathed = (refl, (refl, tt))

level-Fetched_example :
    (y : Outs ℕ × Meta ℕ) × (level fetch page [] false blank ≡ ok y)
    × ((outs_have sales_path [] y.0 || is_rescued sales_path y.1) ≡ true)
unfolding entries_settle with_rescue tug.Common.str_eq
level-Fetched_example =
    level-Fetched sales_path first_visit fetch fetches page blank blank loaded_page page-Pathed refl
      refl refl first_load refl

level-page_entries_example :
    outs_of (level next_visit page [] false blank) ≡ ok (put k_stats (object nothing) nothing)
unfolding page_content defer with_rescue with_once once_options once_option tug.Common.str_eq
    put_any
level-page_entries_example = level-page_entries next_visit refl page [] false blank

numbers :
    page_numbers 2 true
    ≡ record { page_name = []; previous = some 1; next = some 3; current = some 2 }
unfolding page_numbers
numbers = refl
