-- ===== src/Session/Store/Rotates.antt =====
-- A session's old ID after a login or a logout (session/session.go), with a Keeper.
use tug.Common.{
  ℕ, ◌+◌, ◌≡◌, ◌≢◌, refl, sym, ap, ◌∙◌, subst, arith, List, [], ◌∷◌, Bool, true, false, not, ◌&&◌,
  Option, none, some, Bytes, str_eq_refl, str_eq-false, lookup, lookup-erase, ◌==◌, if◌then◌else◌,
  length, any, Bool-cases, inl, inr,
}
use tug.Common.Int.{pos, negsuc}
use tug.Cache.Memory as M
use tug.Cache.Memory.{MemoryStore}
use tug.Session.{
  Session, reflash, Call, sets, deletes, clears, sets_lifetime, flashes, unflashes, passes,
  reflashes, rotates, call, calls, set, delete, clear, set_lifetime, flash, unflash, pass, rotate,
}
use tug.Session.Store.{
  Payload, Codec, Store, Faults, Draws, Cookie, forget, keep_id, keep_row, keep, save_values,
  save_rest, save, payload_of, lasting, after_keep, cookie_of, seal, id_payload, after_pass,
  no_cookie,
}

-- Whether a call gives the session a new ID: Rotate's and Clear's do.
abbrev pub new_id : {V : Type 0} → Call V → Bool
new_id rotates = true
new_id clears = true
new_id _ = false

pub length-nonzero : (b : Bytes) → b ≢ [] → (length b == 0) ≡ false
length-nonzero [] n = absurd (n refl)
length-nonzero (x ∷ b) n = ground arith

module _ {V : Type 0} where
  -- What no call of a handler's changes.
  pub record Came (s s' : Session V) : Type 0 where
    pub same_id : s'.id ≡ s.id
    pub same_had : s'.had ≡ s.had
    pub same_lost : s'.lost ≡ s.lost
    pub still_rotated : s.rotated ≡ true → s'.rotated ≡ true

  call-Came : (c : Call V) (s : Session V) → Came s (call c s)
  unfolding call set delete clear set_lifetime flash unflash pass reflash rotate
  call-Came (sets key v) s = record {
    same_id = refl;
    same_had = refl;
    same_lost = refl;
    still_rotated = λ r. r;
  }
  call-Came (deletes key) s = record {
    same_id = refl;
    same_had = refl;
    same_lost = refl;
    still_rotated = λ r. r;
  }
  call-Came clears s = record {
    same_id = refl;
    same_had = refl;
    same_lost = refl;
    still_rotated = λ r. refl;
  }
  call-Came (sets_lifetime (pos d)) s = record {
    same_id = refl;
    same_had = refl;
    same_lost = refl;
    still_rotated = λ r. r;
  }
  call-Came (sets_lifetime (negsuc d)) s = record {
    same_id = refl;
    same_had = refl;
    same_lost = refl;
    still_rotated = λ r. r;
  }
  call-Came (flashes key v) s = record {
    same_id = refl;
    same_had = refl;
    same_lost = refl;
    still_rotated = λ r. r;
  }
  call-Came (unflashes key) s = record {
    same_id = refl;
    same_had = refl;
    same_lost = refl;
    still_rotated = λ r. r;
  }
  call-Came passes s = record {
    same_id = refl;
    same_had = refl;
    same_lost = refl;
    still_rotated = λ r. r;
  }
  call-Came reflashes s = record {
    same_id = refl;
    same_had = refl;
    same_lost = refl;
    still_rotated = λ r. r;
  }
  call-Came rotates s = record {
    same_id = refl;
    same_had = refl;
    same_lost = refl;
    still_rotated = λ r. refl;
  }

  pub calls-Came : (cs : List (Call V)) (s : Session V) → Came s (calls cs s)
  unfolding calls
  calls-Came [] s = record {
    same_id = refl;
    same_had = refl;
    same_lost = refl;
    still_rotated = λ r. r;
  }
  calls-Came (c ∷ cs) s =
      let first = call-Came c s in
      let rest = calls-Came cs (call c s) in
      record {
        same_id = rest.same_id ∙ first.same_id;
        same_had = rest.same_had ∙ first.same_had;
        same_lost = rest.same_lost ∙ first.same_lost;
        still_rotated = λ r. rest.still_rotated (first.still_rotated r);
      }

  pub calls-rotated :
      (cs : List (Call V)) (s : Session V) → any new_id cs ≡ true → (calls cs s).rotated ≡ true
  unfolding calls call clear rotate
  calls-rotated [] s e = cc
  calls-rotated (rotates ∷ cs) s e = (calls-Came cs (rotate s)).still_rotated refl
  calls-rotated (clears ∷ cs) s e = (calls-Came cs (clear s)).still_rotated refl
  calls-rotated (sets key v ∷ cs) s e = calls-rotated cs _ e
  calls-rotated (deletes key ∷ cs) s e = calls-rotated cs _ e
  calls-rotated (sets_lifetime d ∷ cs) s e = calls-rotated cs _ e
  calls-rotated (flashes key v ∷ cs) s e = calls-rotated cs _ e
  calls-rotated (unflashes key ∷ cs) s e = calls-rotated cs _ e
  calls-rotated (passes ∷ cs) s e = calls-rotated cs _ e
  calls-rotated (reflashes ∷ cs) s e = calls-rotated cs _ e

erased : (m : MemoryStore) (key : Bytes) → lookup key (M.delete m key).values ≡ none
unfolding M.delete
erased m key = rw (lookup-erase key key m.values, str_eq_refl key) refl

with_keeper : {A : Type 0} {b : Bool} (x y : A) → b ≡ true → (if not b then x else y) ≡ y
with_keeper x y e = rw e refl

module _ {V : Type 0} (codec : Codec V) (st : Store) where
  keep_row-erased :
      (m : MemoryStore) (faults : Faults) (old id : Bytes) (o : Option Bytes) (expires : ℕ)
      → faults.delete_fails ≡ false
      → old ≢ []
      → old ≢ id
      → (keep_row codec st m faults old id o expires).1 ≡ true
      → lookup (codec.sha old) (keep_row codec st m faults old id o expires).0.values ≡ none
  unfolding keep_row
  keep_row-erased m faults old id none expires del some_id new e = cc
  keep_row-erased m faults old id (some sealed) expires del some_id new e =
      elim (Bool-cases faults.set_fails) [
        | inl a ↦ let failed : false ≡ true = rw a at e in cc
        | inr a ↦
            rw (a, del, length-nonzero old some_id, str_eq-false old id new)
              (erased (M.set m (codec.sha id) sealed (expires + 60000000000)) (codec.sha old))
      ]

  -- A session that a Keeper has, and a new ID for it, by a Keeper that deletes.
  pub record Rotating (faults : Faults) (s : Session V) (d : Draws) : Type 0 where
    pub deletes_rows : faults.delete_fails ≡ false
    pub is_rotated : s.rotated ≡ true
    pub has_id : s.id ≢ []
    pub new_text : d.random ≢ s.id

  keep-erased :
      (m : MemoryStore) (faults : Faults) (s : Session V) (d : Draws) (p : Payload V) (expires : ℕ)
      → Rotating faults s d
      → (keep codec st m faults s p expires d.random d.row_nonce d.kept d.written).1 ≡ true
      → lookup
          (codec.sha s.id)
          (keep codec st m faults s p expires d.random d.row_nonce d.kept d.written).0.values
        ≡ none
  unfolding keep keep_id
  keep-erased m faults s d p expires r e =
      let rot : s.rotated ≡ true = r.is_rotated in
      let some_id = length-nonzero s.id r.has_id in
      let other = str_eq-false d.random s.id r.new_text in
      rw (some_id, rot, other)
        (keep_row-erased m faults s.id d.random _ expires r.deletes_rows r.has_id
          (λ x. r.new_text (sym x)) (rw (some_id, rot, other) at e))

  after_keep-kept :
      (row : MemoryStore × Bool) (c : Cookie)
      → (after_keep codec st row c).1 ≢ no_cookie
      → (row.1 ≡ true) × ((after_keep codec st row c).0 ≡ row.0)
  unfolding after_keep
  after_keep-kept (m, true) c out = (refl, refl)
  after_keep-kept (m, false) c out = absurd (out refl)

  save_values-erased :
      (m : MemoryStore) (faults : Faults) (s : Session V) (d : Draws)
      → st.has_keeper ≡ true
      → Rotating faults s d
      → (save_values codec st m faults s d).1 ≢ no_cookie
      → lookup (codec.sha s.id) (save_values codec st m faults s d).0.values ≡ none
  unfolding save_values
  save_values-erased m faults s d k r out =
      let p : Payload V = payload_of codec st s d.saved in
      let row : MemoryStore × Bool =
        keep codec st m faults s p (d.saved + lasting codec st s) d.random d.row_nonce d.kept
          d.written in
      let c : Cookie =
        cookie_of codec st
          (seal codec st.first d.cookie_nonce
            (id_payload codec st s (keep_id codec st s d.random) d.saved) st.cookie)
          (lasting codec st s) in
      let written : save_values codec st m faults s d ≡ after_keep codec st row c =
        with_keeper _ _ k in
      let (kept, same) = after_keep-kept row c (rw written at out) in
      rw (written, same) (keep-erased m faults s d p (d.saved + lasting codec st s) r kept)

  save_rest-erased :
      (m : MemoryStore) (faults : Faults) (s : Session V) (d : Draws)
      → st.has_keeper ≡ true
      → s.had ≡ true
      → Rotating faults s d
      → (save_rest codec st m faults s d).1 ≢ no_cookie
      → lookup (codec.sha s.id) (save_rest codec st m faults s d).0.values ≡ none
  unfolding save_rest forget
  save_rest-erased m faults s d k had r out = elim (Bool-cases s.lost) [
    | inl a ↦ absurd (out (rw a refl))
    | inr a ↦ elim (Bool-cases (length s.values == 0 && length s.next == 0)) [
      | inl b ↦
          rw (a, b, had, k, length-nonzero s.id r.has_id, r.deletes_rows)
            (erased m (codec.sha s.id))
      | inr b ↦
          let written : (save_rest codec st m faults s d) ≡ save_values codec st m faults s d =
            rw (a, b) refl in
          rw written (save_values-erased m faults s d k r (rw written at out))
    ]
  ]

  after_pass-Came : (s : Session V) → Came s (after_pass codec st s)
  unfolding reflash call
  after_pass-Came s = elim (Bool-cases s.passed) [
    | inl a ↦ rw a (call-Came reflashes (record s { passed = true }))
    | inr a ↦
        rw a (record { same_id = refl; same_had = refl; same_lost = refl; still_rotated = λ r. r })
  ]

  Came-save_rest-erased :
      (m : MemoryStore) (faults : Faults) (s s' : Session V) (d : Draws)
      → Came s s'
      → st.has_keeper ≡ true
      → s.had ≡ true
      → Rotating faults s d
      → (save_rest codec st m faults s' d).1 ≢ no_cookie
      → lookup (codec.sha s.id) (save_rest codec st m faults s' d).0.values ≡ none
  Came-save_rest-erased m faults s s' d came k had r out =
      let r' : Rotating faults s' d = record {
        deletes_rows = r.deletes_rows;
        is_rotated = came.still_rotated r.is_rotated;
        has_id = λ e. r.has_id (sym came.same_id ∙ e);
        new_text = λ e. r.new_text (e ∙ came.same_id);
      } in
      subst (λ i. lookup (codec.sha i) (save_rest codec st m faults s' d).0.values ≡ none)
        came.same_id (save_rest-erased m faults s' d k (came.same_had ∙ had) r' out)

  pub save-erased :
      (m : MemoryStore) (faults : Faults) (s : Session V) (d : Draws)
      → st.has_keeper ≡ true
      → s.had ≡ true
      → Rotating faults s d
      → (save codec st m faults s d).1 ≢ no_cookie
      → lookup (codec.sha s.id) (save codec st m faults s d).0.values ≡ none
  unfolding save
  save-erased m faults s d k had r out =
      elim (Bool-cases (s.passed && (not s.changed && length s.next == 0))) [
        | inl b ↦ absurd (out (rw b refl))
        | inr b ↦
            let rest : save codec st m faults s d
                ≡ save_rest codec st m faults (after_pass codec st s) d =
              rw b refl in
            subst (λ (w : MemoryStore × Cookie). lookup (codec.sha s.id) w.0.values ≡ none)
              (sym rest)
              (Came-save_rest-erased m faults s (after_pass codec st s) d (after_pass-Came s) k had
                r λ e. out (ap (λ w. w.1) rest ∙ e))
      ]
