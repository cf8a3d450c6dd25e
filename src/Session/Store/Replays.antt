-- ===== src/Session/Store/Replays.antt =====
-- A cookie sent again after a login or a logout (session/session.go), with a Keeper.
use tug.Common.{◌≡◌, [], some, Bytes}
use tug.Cache.Memory as M
use tug.Session.{Session}
use tug.Session.Store.{Payload, Codec, Store, open_sealed}

module _ {V : Type 0} (codec : Codec V) (st : Store) where
  -- A cookie that the Store opens.
  pub record Opened (raw : Bytes) (p : Payload V) : Type 0 where
    pub sealed : Bytes
    pub decoded : codec.decode raw ≡ some sealed
    pub opened : open_sealed codec st sealed st.cookie ≡ some p

  -- A session that has nothing of an earlier one.
  abbrev pub IsNew : Session V → Type 0
  IsNew s = (s.id ≡ []) × (s.values ≡ []) × (s.now ≡ [])
