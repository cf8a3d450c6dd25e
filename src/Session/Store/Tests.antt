-- ===== src/Session/Store/Tests.antt =====
-- The theorems on sessions at one session (session/session.go). A key is a number that stands before what
-- it seals, and JSON is a list of numbers, with names of one byte.
use tug.Common.{
  ℕ, zero, suc, ◌*◌, ◌≡◌, refl, arith, List, [], ◌∷◌, true, false, Option, none, some, Bytes, ◌==◌,
  if◌then◌else◌, length,
}
use tug.Common.Int.{pos}
use tug.Cache.Memory as M
use tug.Cache.Memory.{MemoryStore, empty}
use tug.Session.{Session, second, Call, rotates, sets}
use tug.Session.Store.{
  Aead, Payload, Codec, Store, Faults, Draws, open_with, seal, new_session, open_sealed, ad,
  load_payload, load, cookie_of, lasting, payload_of, save_values, save_rest, save, seconds,
}
use tug.Session.Store.Reads.{load-save}

abbrev opened_by : ℕ → Bytes → Option Bytes
opened_by key [] = none
opened_by key (x ∷ s) = if x == key then some s else none

abbrev key : ℕ → Aead
key n = record {
  nonce_size = 1;
  sealed = λ nonce plain ad. n ∷ plain;
  opened = λ nonce s ad. opened_by n s;
}

abbrev put_pairs : List (Bytes × ℕ) → Bytes → Bytes
put_pairs [] rest = rest
put_pairs ((x ∷ [], v) ∷ pairs) rest = x ∷ v ∷ put_pairs pairs rest
put_pairs (_ ∷ pairs) rest = 0 ∷ 0 ∷ put_pairs pairs rest

abbrev take_pairs : ℕ → Bytes → List (Bytes × ℕ) × Bytes
take_pairs zero s = ([], s)
take_pairs (suc n) (x ∷ v ∷ s) = let (pairs, rest) = take_pairs n s in ((x ∷ [], v) ∷ pairs, rest)
take_pairs (suc n) _ = ([], [])

abbrev marshal : Payload ℕ → Option Bytes
marshal p = some (
    p.expires
    ∷ seconds p.lifetime
    ∷ p.wrote
    ∷ length p.values
    ∷ length p.flash
    ∷ put_pairs p.values (put_pairs p.flash p.id))

abbrev unmarshal : Bytes → Option (Payload ℕ)
unmarshal (e ∷ l ∷ w ∷ n ∷ f ∷ s) =
    let (values, s₁) = take_pairs n s in
    let (flashes, id) = take_pairs f s₁ in
    some (record {
      id = id;
      values = values;
      flash = flashes;
      expires = e;
      lifetime = pos l;
      wrote = w;
    })
unmarshal _ = none

abbrev codec : Codec ℕ
codec = record {
  marshal = marshal;
  unmarshal = unmarshal;
  encode = λ b. b;
  decode = λ b. some b;
  sha = λ id. 35 ∷ id;
}

abbrev cookies : Store
cookies = record {
  first = key 1;
  others = [];
  cookie = 115 ∷ [];
  lifetime = 7200 * second;
  has_keeper = false;
}

-- The same, a key later.
abbrev later : Store
later = record cookies { first = key 2; others = key 1 ∷ [] }

abbrev kept : Store
kept = record cookies { has_keeper = true }

abbrev no_faults : Faults
no_faults = record { get_fails = false; set_fails = false; delete_fails = false }

-- 62135596800 seconds after the zero time, 1970 begins.
abbrev draws : Draws
draws = record {
  random = 66 ∷ [];
  row_nonce = 8 ∷ [];
  cookie_nonce = 9 ∷ [];
  saved = 62135596900 * second;
  kept = 62135596900 * second;
  written = 62135596900 * second;
}

abbrev visitor : Session ℕ
visitor = record {
  values = (117 ∷ [], 7) ∷ [];
  now = [];
  next = (109 ∷ [], 5) ∷ [];
  had = false;
  lifetime = 0;
  base = 7200 * second;
  id = [];
  wrote = none;
  rotated = false;
  lost = false;
  changed = true;
  passed = false;
}

some-same : (a b : Bytes) → some a ≡ some b → a ≡ b
some-same a b e = cc

load-save_example :
    (load codec later empty no_faults
      (some (9 ∷ 1 ∷ 7300 ∷ 0 ∷ 0 ∷ 1 ∷ 1 ∷ 117 ∷ 7 ∷ 109 ∷ 5 ∷ []))
      (62135597000 * second)
      0
      0).1
    ≡ record (new_session codec later.lifetime) {
      had = true;
      values = (117 ∷ [], 7) ∷ [];
      now = (109 ∷ [], 5) ∷ [];
    }
unfolding load load_payload new_session open_sealed open_with payload_of save save_rest save_values
    cookie_of seal lasting
load-save_example =
    load-save codec cookies later (key 2 ∷ []) [] empty empty no_faults no_faults visitor draws
      (9 ∷ 1 ∷ 7300 ∷ 0 ∷ 0 ∷ 1 ∷ 1 ∷ 117 ∷ 7 ∷ 109 ∷ 5 ∷ []) 7200 (62135597000 * second) 0 0
      (λ nonce plain ad n. refl)
      (record { reads = λ plain e. rw (← some-same _ plain e) refl; decodes = λ b. refl }) refl refl
      refl refl refl (λ b e. rw e ((omega arith, refl), tt)) refl (omega arith)

-- The row of the session with the ID "A", and its cookie.
abbrev one_row : MemoryStore
one_row = record empty {
  values =
      (
        35 ∷ 65 ∷ [],
        record { value = 8 ∷ 1 ∷ 7360 ∷ 0 ∷ 100 ∷ 0 ∷ 0 ∷ []; expires = 62135604160 * second },
      )
      ∷ [];
}

abbrev old_cookie : Option Bytes
old_cookie = some (9 ∷ 1 ∷ 7300 ∷ 0 ∷ 0 ∷ 0 ∷ 0 ∷ 65 ∷ [])

-- A login, as it rotates the ID and keeps who logged in.
abbrev logs_in : List (Call ℕ)
logs_in = rotates ∷ sets (117 ∷ []) 7 ∷ []

abbrev noon : ℕ
noon = 62135596900 * second
