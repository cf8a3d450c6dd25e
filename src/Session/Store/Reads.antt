-- ===== src/Session/Store/Reads.antt =====
-- A session is read from its cookie as it was written (session/session.go), without a Keeper.
use tug.Common.{
  ℕ, ◌+◌, ◌*◌, ◌/◌, ◌≤◌, ◌≡◌, refl, ap, arith, List, [], ◌∷◌, ◌++◌, true, false, not, ◌&&◌, Option,
  none, some, Bytes, ltb, ◌==◌, length, length-append, take, drop, All, Bool-cases, inl, inr,
}
use tug.Cache.Memory.{MemoryStore}
use tug.Session.{Session, second}
use tug.Session.Store.{
  Aead, Payload, Codec, Store, Faults, Draws, unix, open_with, seal, new_session, open_sealed,
  load_payload, load, cookie_of, lasting, payload_of, save_values, save_rest, save, after_pass,
  seconds, no_cookie, drops_cookie, sets_cookie,
}

-- What a cipher promises: that it opens what it seals.
abbrev pub Opens : Aead → Type 0
Opens a =
    (nonce plain ad : Bytes)
    → length nonce ≡ a.nonce_size
    → a.opened nonce (a.sealed nonce plain ad) ad ≡ some plain

-- A key that does not open what another sealed.
abbrev pub Refuses : (s ad : Bytes) → Aead → Type 0
Refuses s ad a =
    (a.nonce_size ≤ length s) × (a.opened (take a.nonce_size s) (drop a.nonce_size s) ad ≡ none)

-- What JSON and base64 promise of a payload.
pub record ReadsBack {V : Type 0} (codec : Codec V) (p : Payload V) : Type 0 where
  pub reads : (plain : Bytes) → codec.marshal p ≡ some plain → codec.unmarshal plain ≡ some p
  pub decodes : (b : Bytes) → codec.decode (codec.encode b) ≡ some b

take-length : (xs ys : Bytes) → take (length xs) (xs ++ ys) ≡ xs
take-length [] ys = refl
take-length (x ∷ xs) ys = ap (λ zs. x ∷ zs) (take-length xs ys)

drop-length : (xs ys : Bytes) → drop (length xs) (xs ++ ys) ≡ ys
drop-length [] ys = refl
drop-length (x ∷ xs) ys = drop-length xs ys

some_of :
    {A B : Type 0} (g : A → B) (o : Option A) (b : B)
    → (elim o [ none ↦ none | some a ↦ some (g a) ]) ≡ some b
    → (a : A) × (o ≡ some a) × (g a ≡ b)
some_of g none b e = cc
some_of g (some a) b e = (a, refl, cc)

module _ {V : Type 0} (codec : Codec V) where
  -- What seal makes of a payload, the key's own open reads, after any number of keys that refuse it.
  pub open_with-seal :
      (news rest : List Aead) (aead : Aead) (nonce : Bytes) (p : Payload V) (ad s : Bytes)
      → Opens aead
      → ReadsBack codec p
      → length nonce ≡ aead.nonce_size
      → seal codec aead nonce p ad ≡ some s
      → All (Refuses s ad) news
      → open_with codec (news ++ aead ∷ rest) s ad ≡ some p
  unfolding open_with seal
  open_with-seal [] rest aead nonce p ad s opens back n e a =
      let (plain, f, g) =
        some_of (λ plain. nonce ++ aead.sealed nonce plain ad) (codec.marshal p) s e in
      let size = length-append nonce (aead.sealed nonce plain ad) in
      let long : ltb (length (nonce ++ aead.sealed nonce plain ad)) aead.nonce_size ≡ false =
        ground arith in
      let read : codec.unmarshal plain ≡ some p = back.reads plain f in
      let front = take-length nonce (aead.sealed nonce plain ad) in
      let behind = drop-length nonce (aead.sealed nonce plain ad) in
      rw (← g, long, ← n, front, behind, opens nonce plain ad n) read
  open_with-seal (new ∷ news) rest aead nonce p ad s opens back n e ((fits, off), a) =
      let long : ltb (length s) new.nonce_size ≡ false = ground arith in
      rw (long, off) (open_with-seal news rest aead nonce p ad s opens back n e a)

  -- What a response sets the cookie to is a payload sealed.
  cookie_of-sets :
      (st : Store) (o : Option Bytes) (lifetime : ℕ) (v : Bytes) (age : ℕ)
      → cookie_of codec st o lifetime ≡ sets_cookie v age
      → (s : Bytes) × (o ≡ some s) × (codec.encode s ≡ v)
  unfolding cookie_of
  cookie_of-sets st none lifetime v age e = cc
  cookie_of-sets st (some s) lifetime v age e =
      elim (Bool-cases (ltb 4000 (length (codec.encode s)))) [
        | inl b ↦ let none_set : no_cookie ≡ sets_cookie v age = rw b at e in cc
        | inr b ↦
            let is_set : sets_cookie (codec.encode s) (lifetime / second) ≡ sets_cookie v age =
              rw b at e in
            (s, refl, cc)
      ]

  save_rest-sets :
      (st : Store) (m : MemoryStore) (faults : Faults) (s : Session V) (d : Draws) (v : Bytes)
      (age : ℕ)
      → st.has_keeper ≡ false
      → (save_rest codec st m faults s d).1 ≡ sets_cookie v age
      → (b : Bytes) × (seal codec st.first d.cookie_nonce (payload_of codec st s d.saved) st.cookie
          ≡ some b)
        × (codec.encode b ≡ v)
  unfolding save_rest save_values payload_of lasting cookie_of
  save_rest-sets st m faults s d v age k e = elim (Bool-cases s.lost) [
    | inl a ↦ let none_set : no_cookie ≡ sets_cookie v age = rw a at e in cc
    | inr a ↦ elim (Bool-cases (length s.values == 0 && length s.next == 0)) [
      | inl b ↦ elim (Bool-cases s.had) [
        | inl h ↦ let dropped : drops_cookie ≡ sets_cookie v age = rw (a, b, h) at e in cc
        | inr h ↦ let none_set : no_cookie ≡ sets_cookie v age = rw (a, b, h) at e in cc
      ]
      | inr b ↦ cookie_of-sets st _ (lasting codec st s) v age (rw (a, b, k) at e)
    ]
  ]

  save-sets :
      (st : Store) (m : MemoryStore) (faults : Faults) (s : Session V) (d : Draws) (v : Bytes)
      (age : ℕ)
      → st.has_keeper ≡ false
      → (save codec st m faults s d).1 ≡ sets_cookie v age
      → (b : Bytes) × (seal codec st.first d.cookie_nonce
            (payload_of codec st (after_pass codec st s) d.saved)
            st.cookie
          ≡ some b)
        × (codec.encode b ≡ v)
  unfolding save
  save-sets st m faults s d v age k e =
      elim (Bool-cases (s.passed && (not s.changed && length s.next == 0))) [
        | inl b ↦ let none_set : no_cookie ≡ sets_cookie v age = rw b at e in cc
        | inr b ↦ save_rest-sets st m faults (after_pass codec st s) d v age k (rw b at e)
      ]

  -- A load of a cookie that opens to a payload which has not expired, without a Keeper.
  load-some :
      (st : Store) (m : MemoryStore) (faults : Faults) (b : Bytes) (p : Payload V)
      (opened at checked : ℕ)
      → st.has_keeper ≡ false
      → codec.decode (codec.encode b) ≡ some b
      → open_sealed codec st b st.cookie ≡ some p
      → unix opened ≤ p.expires
      → (load codec st m faults (some (codec.encode b)) opened at checked).1
        ≡ record (new_session codec st.lifetime) {
          had = true;
          lifetime = seconds p.lifetime * second;
          values = p.values;
          now = p.flash;
        }
  unfolding load load_payload
  load-some st m faults b p opened at checked k decoded sealed early =
      let lives : ltb p.expires (unix opened) ≡ false = ground arith in
      rw (load, decoded, sealed, lives, k) refl

  -- A session whose response sets its cookie, without a Keeper, is read from that cookie by the requests up to its expiry,
  -- where what it holds is values that encoding/json reads back as they were: with those values, its lifetime in
  -- whole seconds, and for the flash to read what was flashed for the next request, which after Pass has what the request was
  -- left. That holds after a rotation of the app's keys as well, if the key that sealed the cookie comes after new ones
  -- that refuse it.
  pub load-save :
      (st st' : Store) (news rest : List Aead) (m m' : MemoryStore) (faults faults' : Faults)
      (s : Session V) (d : Draws) (value : Bytes) (age opened at checked : ℕ)
      → Opens st.first
      → ReadsBack codec (payload_of codec st (after_pass codec st s) d.saved)
      → length d.cookie_nonce ≡ st.first.nonce_size
      → st.has_keeper ≡ false
      → st'.has_keeper ≡ false
      → st'.cookie ≡ st.cookie
      → st'.first ∷ st'.others ≡ news ++ st.first ∷ rest
      → ((b : Bytes) → codec.encode b ≡ value → All (Refuses b st.cookie) news)
      → (save codec st m faults s d).1 ≡ sets_cookie value age
      → unix opened ≤ unix (d.saved + lasting codec st (after_pass codec st s))
      → (load codec st' m' faults' (some value) opened at checked).1
        ≡ record (new_session codec st'.lifetime) {
          had = true;
          lifetime = (after_pass codec st s).lifetime / second * second;
          values = (after_pass codec st s).values;
          now = (after_pass codec st s).next;
        }
  unfolding open_sealed payload_of
  load-save st st' news rest m m' faults faults' s d value age opened at checked opens back n k k'
        same keys refuse e early =
      let (b, sealed, encoded) = save-sets st m faults s d value age k e in
      let p : Payload V = payload_of codec st (after_pass codec st s) d.saved in
      let read : open_with codec (st'.first ∷ st'.others) b st'.cookie ≡ some p =
        rw (keys, same)
          (open_with-seal news rest st.first d.cookie_nonce p st.cookie b opens back n sealed
            (refuse b encoded)) in
      rw (← encoded) (load-some st' m' faults' b p opened at checked k' (back.decodes b) read early)
