-- ===== src/Queue/Memory/Eased.antt =====
-- What every method but a push and a claim does to the jobs: it takes some off, and of the others
-- changes neither what a limit is counted by, nor makes a hold last longer.
use mathlib.Core.Option.{some-injective}
use mathlib.Core.List.{append-nil, append_assoc}
use tug.Common.{
  ℕ, ◌≤◌, ◌≡◌, refl, sym, ◌∙◌, subst, List, [], ◌∷◌, ◌++◌, Bool, some, arith, Bytes, keep,
  Bool-cases, Option-cases, inl, inr, not, get_elem?, set, zero, suc,
}
use tug.Queue.Job.{Job}
use tug.Queue.Memory.{
  Memory, MemoryJob, move, give_back, give_back_all, hold_back, claimed_by, done, change_claimed,
  retry, fail, revive, run_again, due_at, revived,
}
use tug.Queue.Memory.Updates.{move-Moved, revive-Revived}

-- One job before and after.
pub record Same (a b : MemoryJob) : Type 0 where
  pub same_kind : b.kind ≡ a.kind
  pub same_alone : b.alone ≡ a.alone
  pub same_limit : b.at_once ≡ a.at_once
  pub no_longer : b.held_until ≤ a.held_until

pub data Eased : List MemoryJob → List MemoryJob → Type 0 where
  nil : Eased [] []
  change :
      {a b : MemoryJob} {xs ys : List MemoryJob} → Same a b → Eased xs ys → Eased (a ∷ xs) (b ∷ ys)
  drop : {a : MemoryJob} {xs ys : List MemoryJob} → Eased xs ys → Eased (a ∷ xs) ys

pub Same-refl : (a : MemoryJob) → Same a a
Same-refl a = record {
  same_kind = refl;
  same_alone = refl;
  same_limit = refl;
  no_longer = omega arith;
}

pub Eased-refl : (xs : List MemoryJob) → Eased xs xs
Eased-refl [] = nil
Eased-refl (x ∷ xs) = change (Same-refl x) (Eased-refl xs)

keep-Eased : (p : MemoryJob → Bool) (xs : List MemoryJob) → Eased xs (keep p xs)
keep-Eased p [] = nil
keep-Eased p (x ∷ xs) = elim (Bool-cases (p x)) [
  | inl e ↦ rw e (change (Same-refl x) (keep-Eased p xs))
  | inr e ↦ rw e (drop (keep-Eased p xs))
]

change_claimed-Eased :
    (f : MemoryJob → MemoryJob) (j : Job) (xs : List MemoryJob)
    → ((x : MemoryJob) → Same x (f x))
    → Eased xs (change_claimed f j xs)
unfolding change_claimed
change_claimed-Eased f j [] h = nil
change_claimed-Eased f j (x ∷ xs) h = elim (Bool-cases (claimed_by x j)) [
  | inl e ↦ rw e (change (h x) (change_claimed-Eased f j xs h))
  | inr e ↦ rw e (change (Same-refl x) (change_claimed-Eased f j xs h))
]

set-Eased :
    (xs : List MemoryJob) (i : ℕ) (a b : MemoryJob)
    → get_elem? xs i ≡ some a
    → Same a b
    → Eased xs (set xs i b)
set-Eased [] i a b g s = cc
set-Eased (x ∷ xs) zero a b g s =
    change (subst (λ y. Same y b) (sym (some-injective _ _ g)) s) (Eased-refl xs)
set-Eased (x ∷ xs) (suc i) a b g s = change (Same-refl x) (set-Eased xs i a b g s)

pub move-Eased :
    (j : Job) (xs ys : List MemoryJob) (id : Bytes) → move j xs ≡ some (ys, id) → Eased xs ys
move-Eased j xs ys id e =
    let r = move-Moved j xs ys id e in
    rw r.after (
      set-Eased xs r.at r.mj (due_at j.run_at r.mj) r.listed (record {
        same_kind = refl;
        same_alone = refl;
        same_limit = refl;
        no_longer = omega arith;
      }))

revive-Eased :
    (id : Bytes) (at : ℕ) (xs ys : List MemoryJob) → revive id at xs ≡ some ys → Eased xs ys
revive-Eased id at xs ys e =
    let r = revive-Revived id at xs ys e in
    rw r.after (
      set-Eased xs r.index r.mj (revived at r.mj) r.listed (record {
        same_kind = refl;
        same_alone = refl;
        same_limit = refl;
        no_longer = omega arith;
      }))

give_back-Same :
    (j : Job) (before rest : List MemoryJob) (mj : MemoryJob) → Same mj (give_back j before mj rest)
unfolding give_back
give_back-Same j before rest mj = ground arith

Eased-append :
    {us vs xs ys : List MemoryJob} → Eased us vs → Eased xs ys → Eased (us ++ xs) (vs ++ ys)
Eased-append nil e = e
Eased-append (change s d) e = change s (Eased-append d e)
Eased-append (drop d) e = drop (Eased-append d e)

Same-trans : {a b c : MemoryJob} → Same a b → Same b c → Same a c
Same-trans s t = record {
  same_kind = t.same_kind ∙ s.same_kind;
  same_alone = t.same_alone ∙ s.same_alone;
  same_limit = t.same_limit ∙ s.same_limit;
  no_longer = omega arith;
}

Eased-trans : {xs ys zs : List MemoryJob} → Eased xs ys → Eased ys zs → Eased xs zs
Eased-trans nil e = e
Eased-trans (drop d) e = drop (Eased-trans d e)
Eased-trans (change s d) (change t e) = change (Same-trans s t) (Eased-trans d e)
Eased-trans (change s d) (drop e) = drop (Eased-trans d e)

Eased-split :
    {xs : List MemoryJob} (before rest : List MemoryJob) (a b : MemoryJob)
    → Eased xs (before ++ a ∷ rest)
    → Same a b
    → Eased xs ((before ++ b ∷ []) ++ rest)
Eased-split before rest a b e s =
    rw append_assoc (Eased-trans e (Eased-append (Eased-refl before) (change s (Eased-refl rest))))

give_back_all-Eased :
    (j : Job) (before rest xs : List MemoryJob)
    → Eased xs (before ++ rest)
    → Eased xs (give_back_all j before rest)
unfolding give_back_all
give_back_all-Eased j before [] xs e = rw append-nil at e
give_back_all-Eased j before (mj ∷ rest) xs e =
    give_back_all-Eased j (before ++ give_back j before mj rest ∷ []) rest xs
      (Eased-split before rest mj (give_back j before mj rest) e (give_back-Same j before rest mj))

pub hold_back-Eased : (m : Memory) (j : Job) (until : ℕ) → Eased m.jobs (hold_back m j until).jobs
unfolding hold_back
hold_back-Eased m j until = give_back_all-Eased j [] m.jobs m.jobs (Eased-refl m.jobs)

pub done-Eased : (m : Memory) (j : Job) → Eased m.jobs (done m j).jobs
unfolding done
done-Eased m j = keep-Eased (λ mj. not (claimed_by mj j)) m.jobs

pub retry-Eased : (m : Memory) (j : Job) → Eased m.jobs (retry m j).jobs
unfolding retry
retry-Eased m j =
    change_claimed-Eased _ j m.jobs λ x. record {
      same_kind = refl;
      same_alone = refl;
      same_limit = refl;
      no_longer = omega arith;
    }

pub fail-Eased : (m : Memory) (j : Job) (clock : ℕ) → Eased m.jobs (fail m j clock).jobs
unfolding fail
fail-Eased m j clock =
    change_claimed-Eased _ j m.jobs λ x. record {
      same_kind = refl;
      same_alone = refl;
      same_limit = refl;
      no_longer = omega arith;
    }

pub run_again-Eased : (m : Memory) (id : Bytes) (at : ℕ) → Eased m.jobs (run_again m id at).0.jobs
unfolding run_again
run_again-Eased m id at = elim (Option-cases (revive id at m.jobs)) [
  | inl o ↦ rw (o, run_again) (Eased-refl m.jobs)
  | inr (ys, o) ↦ rw (o, run_again) (revive-Eased id at m.jobs ys o)
]
