-- ===== src/Queue/Memory/Updates.antt =====
-- The two loops that change the first job of a sort and return: what they found, and what they left.
use tug.Common.{
  ℕ, suc, ◌≡◌, refl, List, [], ◌∷◌, true, not, ◌&&◌, some, arith, Bytes, str_eq, str_eq_iff,
  get_elem?, set, Bool-cases, Option-cases, inl, inr,
}
use tug.Queue.Job.{Job}
use tug.Queue.Memory.{MemoryJob, move, due_at, revive, revived, same_key, is_empty}

-- The job that the loop of PushLatest moved stands at index k.
pub record Moved (j : Job) (xs ys : List MemoryJob) (id : Bytes) : Type 0 where
  pub at : ℕ
  pub mj : MemoryJob
  pub listed : get_elem? xs at ≡ some mj
  pub of_key : (not (is_empty j.key) && same_key j mj) ≡ true
  pub after : ys ≡ set xs at (due_at j.run_at mj)
  pub named : id ≡ mj.id

pub move-Moved :
    (j : Job) (xs ys : List MemoryJob) (id : Bytes) → move j xs ≡ some (ys, id) → Moved j xs ys id
unfolding move
move-Moved j [] ys id e = cc
move-Moved j (x ∷ xs) ys id e = elim (Bool-cases (not (is_empty j.key) && same_key j x)) [
  | inl t ↦ record {
    at = 0;
    mj = x;
    listed = refl;
    of_key = t;
    after = ground arith;
    named = ground arith;
  }
  | inr t ↦ elim (Option-cases (move j xs)) [
    | inl o ↦ absurd (ground arith)
    | inr ((zs, id'), o) ↦
        let r = move-Moved j xs zs id' o in
        record {
          at = suc r.at;
          mj = r.mj;
          listed = r.listed;
          of_key = r.of_key;
          after = ground (arith, r.after);
          named = ground (arith, r.named);
        }
  ]
]

-- The failed job that the loop of RunAgain put back.
pub record Revived (id : Bytes) (at : ℕ) (xs ys : List MemoryJob) : Type 0 where
  pub index : ℕ
  pub mj : MemoryJob
  pub listed : get_elem? xs index ≡ some mj
  pub same_id : mj.id ≡ id
  pub had_failed : mj.failed ≡ true
  pub after : ys ≡ set xs index (revived at mj)

pub revive-Revived :
    (id : Bytes) (at : ℕ) (xs ys : List MemoryJob) → revive id at xs ≡ some ys → Revived id at xs ys
unfolding revive
revive-Revived id at [] ys e = cc
revive-Revived id at (x ∷ xs) ys e = elim (Bool-cases (str_eq x.id id && x.failed)) [
  | inl t ↦ record {
    index = 0;
    mj = x;
    listed = refl;
    same_id = ground (arith, str_eq_iff x.id id);
    had_failed = ground arith;
    after = ground arith;
  }
  | inr t ↦ elim (Option-cases (revive id at xs)) [
    | inl o ↦ absurd (ground arith)
    | inr (zs, o) ↦
        let r = revive-Revived id at xs zs o in
        record {
          index = suc r.index;
          mj = r.mj;
          listed = r.listed;
          same_id = r.same_id;
          had_failed = r.had_failed;
          after = ground (arith, r.after);
        }
  ]
]
