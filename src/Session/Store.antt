-- ===== src/Session/Store.antt =====
-- How a session is read from its cookie, and written back to it (session/session.go), with a Keeper of the
-- memory store of a cache, which satisfies it, or without. What crypto/cipher, encoding/json, base64 and
-- SHA-256 do are the records' functions. A cookie is its value and its MaxAge; its other attributes are the
-- same in every response.
pub mod Reads
pub mod Replays
mod Rotates
mod Tests
use tug.Common.{
  ℕ, zero, suc, ◌+◌, ◌-◌, ◌*◌, ◌/◌, ◌≡◌, List, [], ◌∷◌, ◌++◌, Bool, true, false, not, ◌&&◌, ◌||◌,
  Option, none, some, Bytes, str_eq, itoa, ltb, leb, ◌==◌, if◌then◌else◌, length, take, drop,
}
use tug.Common.Int.{ℤ, pos, negsuc}
use tug.Cache.Memory as M
use tug.Cache.Memory.{MemoryStore}
use tug.Session.{Session, second, reflash, Call, calls}

-- A cipher.AEAD: `sealed` is what Seal appends to its dst.
pub record Aead : Type 0 where
  pub nonce_size : ℕ
  pub sealed : (nonce plain ad : Bytes) → Bytes
  pub opened : (nonce sealed ad : Bytes) → Option Bytes

-- What a cookie holds, or a Keeper's row. The times are seconds since 1970.
pub record Payload (V : Type 0) : Type 0 where
  pub id : Bytes
  pub values : List (Bytes × V)
  pub flash : List (Bytes × V)
  pub expires : ℕ
  pub lifetime : ℤ
  pub wrote : ℕ

pub record Codec (V : Type 0) : Type 0 where
  -- json.Marshal, none for an error, and json.Unmarshal, none where it fails.
  pub marshal : Payload V → Option Bytes
  pub unmarshal : Bytes → Option (Payload V)
  pub encode : Bytes → Bytes
  pub decode : Bytes → Option Bytes
  pub sha : Bytes → Bytes

pub record Store : Type 0 where
  pub first : Aead
  pub others : List Aead
  pub cookie : Bytes
  pub lifetime : ℕ
  pub has_keeper : Bool

-- What a Keeper's calls of a request do beside what they are for: each fails, or does not.
pub record Faults : Type 0 where
  pub get_fails : Bool
  pub set_fails : Bool
  pub delete_fails : Bool

-- The text for a new ID, the nonces and the clock's readings of a response.
pub record Draws : Type 0 where
  pub random : Bytes
  pub row_nonce : Bytes
  pub cookie_nonce : Bytes
  pub saved : ℕ
  pub kept : ℕ
  pub written : ℕ

-- Unix of a time, and the time of one.
abbrev pub unix : ℕ → ℕ
unix t = t / second - 62135596800

abbrev pub of_unix : ℕ → ℕ
of_unix s = (s + 62135596800) * second

-- `ad`: "%d:%s%d:%s".
unfoldable pub ad : (cookie id : Bytes) → Bytes
ad cookie id = itoa (length cookie) ++ 58 ∷ (cookie ++ (itoa (length id) ++ 58 ∷ id))

abbrev pub refresh : ℕ
refresh = 60 * second

abbrev pub max_cookie : ℕ
max_cookie = 4000

-- What a response's cookie does: it is left as it is, is dropped, or is set.
pub data Cookie : Type 0 where
  no_cookie : Cookie
  drops_cookie : Cookie
  sets_cookie : (value : Bytes) → (max_age : ℕ) → Cookie

-- `max(p.Lifetime, 0)`.
abbrev pub seconds : ℤ → ℕ
seconds (pos n) = n
seconds (negsuc n) = 0

module _ {V : Type 0} (codec : Codec V) where
  unfoldable pub open_with : List Aead → (sealed ad : Bytes) → Option (Payload V)
  open_with [] s a = none
  open_with (aead ∷ aeads) s a =
      let rest = open_with aeads s a in
      if ltb (length s) aead.nonce_size
      then none
      else elim (aead.opened (take aead.nonce_size s) (drop aead.nonce_size s) a) [
        | none ↦ rest
        | some plain ↦ codec.unmarshal plain
      ]

  -- `seal`, none for an error.
  unfoldable pub seal : Aead → (nonce : Bytes) → Payload V → (ad : Bytes) → Option Bytes
  seal aead nonce p a = elim (codec.marshal p) [
    | none ↦ none
    | some plain ↦ some (nonce ++ aead.sealed nonce plain a)
  ]

  unfoldable pub new_session : (base : ℕ) → Session V
  new_session base = record {
    values = [];
    now = [];
    next = [];
    had = false;
    lifetime = 0;
    base = base;
    id = [];
    wrote = none;
    rotated = false;
    lost = false;
    changed = false;
    passed = false;
  }

  module _ (st : Store) where
    unfoldable pub open_sealed : (sealed ad : Bytes) → Option (Payload V)
    open_sealed s a = open_with (st.first ∷ st.others) s a

    -- What `read` makes of a row, at a time.
    unfoldable pub read_row : Session V → (id : Bytes) → Option Bytes → (checked : ℕ) → Session V
    read_row s id none checked = s
    read_row s id (some value) checked = elim (open_sealed value (ad st.cookie id)) [
      | none ↦ s
      | some p ↦ if ltb p.expires (unix checked) then s else record s {
        id = id;
        wrote = some (of_unix p.wrote);
        values = p.values;
        now = p.flash;
      }
    ]

    -- `read`, with what the clock reads for the Keeper and then for the row.
    unfoldable pub read :
        MemoryStore → Faults → Session V → (id : Bytes) → (at checked : ℕ) → MemoryStore × Session V
    read m faults s id at checked =
        if faults.get_fails
        then (m, record s { lost = true })
        else ((M.get m (codec.sha id) at).0, read_row s id (M.get m (codec.sha id) at).1 checked)

    -- `load` from a cookie that is opened: with a Keeper, a payload with an ID is read from it.
    unfoldable pub load_payload :
        MemoryStore → Faults → Session V → Payload V → (at checked : ℕ) → MemoryStore × Session V
    load_payload m faults s p at checked =
        let lasting : Session V = record s { lifetime = seconds p.lifetime * second } in
        if st.has_keeper && not (length p.id == 0)
        then read m faults lasting p.id at checked
        else (m, record lasting { values = p.values; now = p.flash })

    -- `load`, of a request's cookie; the clock is read up to three times.
    unfoldable pub load :
        MemoryStore → Faults → Option Bytes → (opened at checked : ℕ) → MemoryStore × Session V
    load m faults none opened at checked = (m, new_session st.lifetime)
    load m faults (some cookie) opened at checked =
        let s : Session V = record (new_session st.lifetime) { had = true } in
        elim (codec.decode cookie) [
          | none ↦ (m, s)
          | some sealed ↦ elim (open_sealed sealed st.cookie) [
            | none ↦ (m, s)
            | some p ↦
                if ltb p.expires (unix opened) then (m, s) else load_payload m faults s p at checked
          ]
        ]

    -- `forget`.
    unfoldable pub forget : MemoryStore → Faults → Session V → MemoryStore
    forget m faults s =
        if not st.has_keeper || length s.id == 0
        then m
        else if faults.delete_fails
        then m
        else M.delete m (codec.sha s.id)

    -- `!s.wrote.IsZero() && st.now().Sub(s.wrote) < refresh`.
    unfoldable pub is_fresh : Option ℕ → (kept : ℕ) → Bool
    is_fresh none kept = false
    is_fresh (some wrote) kept = ltb kept (wrote + refresh)

    unfoldable pub keep_id : Session V → (random : Bytes) → Bytes
    keep_id s random = if length s.id == 0 || s.rotated then random else s.id

    -- What `keep` does once the new row is sealed, none for an error.
    unfoldable pub keep_row :
        MemoryStore → Faults → (old id : Bytes) → Option Bytes → (expires : ℕ) → MemoryStore × Bool
    keep_row m faults old id none expires = (m, false)
    keep_row m faults old id (some sealed) expires =
        let kept : MemoryStore = M.set m (codec.sha id) sealed (expires + refresh) in
        if faults.set_fails
        then (m, false)
        else if not (length old == 0) && (not (str_eq old id) && not faults.delete_fails)
        then (M.delete kept (codec.sha old), true)
        else (kept, true)

    -- `keep`, with the text for a new ID and the nonce for the row; the clock is read up to twice.
    unfoldable pub keep :
        MemoryStore
        → Faults
        → Session V
        → Payload V
        → (expires : ℕ) → (random nonce : Bytes) → (kept written : ℕ) → MemoryStore × Bool
    keep m faults s p expires random nonce kept written =
        let id : Bytes = keep_id s random in
        if str_eq id s.id
          && (not s.changed && (length s.next == 0 && (length s.now == 0 && is_fresh s.wrote kept)))
        then (m, true)
        else keep_row m faults s.id id
            (seal st.first nonce (record p { wrote = unix written }) (ad st.cookie id)) expires

    -- The end of `save`: the cookie, for a payload sealed.
    unfoldable pub cookie_of : Option Bytes → (lifetime : ℕ) → Cookie
    cookie_of none lifetime = no_cookie
    cookie_of (some sealed) lifetime =
        if ltb max_cookie (length (codec.encode sealed))
        then no_cookie
        else sets_cookie (codec.encode sealed) (lifetime / second)

    unfoldable pub lasting : Session V → ℕ
    lasting s = if ltb 0 s.lifetime then s.lifetime else st.lifetime

    unfoldable pub payload_of : Session V → (saved : ℕ) → Payload V
    payload_of s saved = record {
      id = [];
      values = s.values;
      flash = s.next;
      expires = unix (saved + lasting s);
      lifetime = pos (s.lifetime / second);
      wrote = 0;
    }

    -- What the cookie of a session that a Keeper keeps holds.
    unfoldable pub id_payload : Session V → (id : Bytes) → (saved : ℕ) → Payload V
    id_payload s id saved = record (payload_of s saved) { id = id; values = []; flash = [] }

    -- A response carries a cookie only where `keep` says so.
    unfoldable pub after_keep : MemoryStore × Bool → Cookie → MemoryStore × Cookie
    after_keep (m, true) c = (m, c)
    after_keep (m, false) c = (m, no_cookie)

    -- `save` of a session that is not empty.
    unfoldable pub save_values : MemoryStore → Faults → Session V → Draws → MemoryStore × Cookie
    save_values m faults s d =
        let p : Payload V = payload_of s d.saved in
        let row : MemoryStore × Bool =
          keep m faults s p (d.saved + lasting s) d.random d.row_nonce d.kept d.written in
        if not st.has_keeper
        then (m, cookie_of (seal st.first d.cookie_nonce p st.cookie) (lasting s))
        else after_keep row (
            cookie_of
              (seal st.first d.cookie_nonce (id_payload s (keep_id s d.random) d.saved) st.cookie)
              (lasting s))

    -- `save` after Pass has been seen to.
    unfoldable pub save_rest : MemoryStore → Faults → Session V → Draws → MemoryStore × Cookie
    save_rest m faults s d =
        let written : MemoryStore × Cookie = save_values m faults s d in
        if s.lost
        then (m, no_cookie)
        else if length s.values == 0 && length s.next == 0
        then (if s.had then (forget m faults s, drops_cookie) else (m, no_cookie))
        else written

    -- What Pass has `save` do first.
    abbrev pub after_pass : Session V → Session V
    after_pass s = if s.passed then reflash s else s

    unfoldable pub save : MemoryStore → Faults → Session V → Draws → MemoryStore × Cookie
    save m faults s d =
        if s.passed && (not s.changed && length s.next == 0)
        then (m, no_cookie)
        else save_rest m faults (after_pass s) d

    -- `Middleware`, around a handler that makes those calls of its session.
    unfoldable pub serve :
        MemoryStore
        → Faults
        → Option Bytes
        → (opened at checked : ℕ) → List (Call V)
        → Draws
        → MemoryStore × Cookie
    serve m faults cookie opened at checked cs d =
        let (m', s) = load m faults cookie opened at checked in save m' faults (calls cs s) d
