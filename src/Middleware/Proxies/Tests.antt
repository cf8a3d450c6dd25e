-- ===== src/Middleware/Proxies/Tests.antt =====
-- A request through a proxy (middleware/proxies.go), and the theorems at it. Addresses are the strings that
-- write them, a range is one address, and a header's line is one hop.
use tug.Common.{◌≡◌, refl, [], ◌∷◌, false, none, some, Bytes, str_eq}
use tug.Middleware.Proxies.{trust_proxies, Net, Trusted, parse_addr, contains, forwarded, trimmed}
use tug.Middleware.Proxies.Spoofs.{client_unmoved}

abbrev plain : Net
plain = record {
  Addr = Bytes;
  Prefix = Bytes;
  plain_addr = λ s. some s;
  addr_port = λ s. none;
  unmap = λ a. a;
  same = str_eq;
  holds = str_eq;
  written = λ a. a;
  split = λ s. s ∷ [];
  trim = λ s. s;
}

-- The proxies 1 and 2.
abbrev proxies : Trusted plain
proxies = record { peer = false; ranges = (1 ∷ []) ∷ (2 ∷ []) ∷ [] }

client_unmoved_example :
    trust_proxies plain proxies (1 ∷ []) ((9 ∷ []) ∷ (7 ∷ []) ∷ (2 ∷ []) ∷ []) ≡ 7 ∷ []
unfolding parse_addr contains forwarded trimmed str_eq
client_unmoved_example =
    client_unmoved plain proxies (1 ∷ []) (7 ∷ []) ((9 ∷ []) ∷ (7 ∷ []) ∷ (2 ∷ []) ∷ [])
      ((9 ∷ []) ∷ []) ((2 ∷ []) ∷ []) (1 ∷ []) (7 ∷ []) refl refl refl
      (record { addr = 2 ∷ []; parsed = refl; trusted = refl }, tt) refl refl
