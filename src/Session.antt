-- ===== src/Session.antt =====
-- A visitor's session, for the length of a request (session/session.go). Its values are of any type; a time
-- is a number of nanoseconds since Go's zero time.
pub mod Store
use tug.Common.{
  ℕ, ◌*◌, ◌/◌, ◌-◌, List, [], ◌∷◌, Bool, true, false, not, Option, none, some, Bytes, lookup,
  insert, erase, if◌then◌else◌, ltb,
}
use tug.Common.Int.{ℤ, pos, negsuc}

abbrev pub second : ℕ
second = 1000000000

-- A zero time is none.
pub record Session (V : Type 0) : Type 0 where
  pub values : List (Bytes × V)
  pub now : List (Bytes × V)
  pub next : List (Bytes × V)
  pub had : Bool
  pub lifetime : ℕ
  pub base : ℕ
  pub id : Bytes
  pub wrote : Option ℕ
  pub rotated : Bool
  pub lost : Bool
  pub changed : Bool
  pub passed : Bool

module _ {V : Type 0} where
  unfoldable pub get : Session V → Bytes → Option V
  get s key = lookup key s.values

  unfoldable pub set : Bytes → V → Session V → Session V
  set key value s = record s { values = insert key value s.values; changed = true }

  unfoldable pub delete : Bytes → Session V → Session V
  delete key s = record s { values = erase key s.values; changed = true }

  unfoldable pub clear : Session V → Session V
  clear s = record s {
    values = [];
    now = [];
    next = [];
    lifetime = 0;
    changed = true;
    rotated = true;
  }

  -- A negative time is no longer than 0, and is cut to seconds towards it.
  unfoldable pub set_lifetime : ℤ → Session V → Session V
  set_lifetime (pos d) s = record s { lifetime = d / second * second; changed = true }
  set_lifetime (negsuc d) s = record s { lifetime = 0; changed = true }

  unfoldable pub lifetime_of : Session V → ℕ
  lifetime_of s = if ltb 0 s.lifetime then s.lifetime else s.base

  unfoldable pub flash : Bytes → V → Session V → Session V
  flash key value s = record s { next = insert key value s.next }

  unfoldable pub flashed : Session V → Bytes → Option V
  flashed s key = lookup key s.now

  unfoldable pub unflash : Bytes → Session V → Session V
  unflash key s = record s { next = erase key s.next }

  unfoldable pub pass : Session V → Session V
  pass s = record s { passed = true }

  -- The loop of `Reflash`.
  unfoldable pub reflash_into : List (Bytes × V) → List (Bytes × V) → List (Bytes × V)
  reflash_into [] next = next
  reflash_into ((key, value) ∷ now) next = elim (lookup key next) [
    | some _ ↦ reflash_into now next
    | none ↦ reflash_into now (insert key value next)
  ]

  unfoldable pub reflash : Session V → Session V
  reflash s = record s { next = reflash_into s.now s.next }

  unfoldable pub rotate : Session V → Session V
  rotate s = record s { rotated = true; changed = true }

-- A call that a handler makes of its session.
pub data Call (V : Type 0) : Type 0 where
  sets : Bytes → V → Call V
  deletes : Bytes → Call V
  clears : Call V
  sets_lifetime : ℤ → Call V
  flashes : Bytes → V → Call V
  unflashes : Bytes → Call V
  passes : Call V
  reflashes : Call V
  rotates : Call V

module _ {V : Type 0} where
  unfoldable pub call : Call V → Session V → Session V
  call (sets key value) s = set key value s
  call (deletes key) s = delete key s
  call clears s = clear s
  call (sets_lifetime d) s = set_lifetime d s
  call (flashes key value) s = flash key value s
  call (unflashes key) s = unflash key s
  call passes s = pass s
  call reflashes s = reflash s
  call rotates s = rotate s

  unfoldable pub calls : List (Call V) → Session V → Session V
  calls [] s = s
  calls (c ∷ cs) s = calls cs (call c s)
