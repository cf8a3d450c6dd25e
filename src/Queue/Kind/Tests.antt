-- ===== src/Queue/Kind/Tests.antt =====
-- The theorems on kinds, at one kind and its jobs (queue/kind.go).
use tug.Common.{some, suc, ◌≤◌, refl, arith, List, [], ◌∷◌, true, false, insert, lookup, str_eq}
use tug.Common.Int.{pos}
use tug.Queue.Handler.{
  Handler, Extras, default_handler, attempts_option, at_once_option, apply_options, apply_option,
  has_needs,
}
use tug.Queue.Memory.{empty, claims}
use tug.Queue.Memory.Claims.{held_count}
use tug.Queue.Kind.{schedule, Kind, Kinds, handle, check, options_or_panic, is_absent}
use tug.Queue.Kind.Handles.{Handled, handle-Handled}
use tug.Queue.Kind.Pushes.{
  kind_run, schedules_kind, kind_pushes, run_pushes, calls, store_ops, push_op, KindOp,
  kinds-at_once,
}

abbrev all_extras : Extras
all_extras = record {
  unique_store = true;
  latest_store = true;
  one_at_a_time_store = true;
  at_once_store = true;
  hold_back_store = true;
  schedule_store = true;
  carry_store = true;
}

abbrev new_queue : Kinds
new_queue = record { extras = all_extras; handlers = []; schedules = []; is_started = false }

abbrev mail_handler : Handler
mail_handler = record (default_handler 0) { attempts = pos 3; at_once = 1 }

abbrev mail : Kind
mail = record { name = 109 ∷ []; handler = mail_handler; is_in = false }

handle-Handled_example :
    Handled new_queue
      (109 ∷ [])
      (record new_queue { handlers = insert (109 ∷ []) mail_handler [] })
      mail
unfolding handle check options_or_panic is_absent apply_options apply_option has_needs insert lookup
    str_eq
handle-Handled_example =
    handle-Handled 0 new_queue (109 ∷ []) true true
      (attempts_option (pos 3) ∷ at_once_option (pos 1) ∷ [])
      (record new_queue { handlers = insert (109 ∷ []) mail_handler [] }) mail refl

-- Mails are scheduled, one is pushed, and a run of the schedule, and both are claimed for: one is held.
abbrev two_mails : List KindOp
two_mails =
    schedules_kind mail (λ now. suc now) (some (123 ∷ 125 ∷ []))
    ∷ kind_pushes mail (123 ∷ 125 ∷ []) 1 []
    ∷ run_pushes 0 2
    ∷ calls (claims 5 20)
    ∷ calls (claims 6 21)
    ∷ []

kinds-at_once_example :
    held_count (kind_run (λ payload. payload) (new_queue, empty) two_mails).1 (109 ∷ []) 6 ≤ 1
unfolding store_ops push_op schedule check
kinds-at_once_example =
    kinds-at_once (λ payload. payload) (109 ∷ []) 1 new_queue two_mails 6 (omega arith) refl
      (omega arith, (omega arith, omega arith)) ((λ e. refl), ((λ e. refl), (tt, (tt, (tt, tt)))))
