-- ===== src/Middleware/Proxies.antt =====
-- The client's address behind trusted proxies (middleware/proxies.go). What the source takes of net/netip
-- and strings is the record Net: addresses and ranges, their parsing, and the splitting of a header.
pub mod Spoofs
mod Tests
use tug.Common.{
  List, [], ◌∷◌, ◌++◌, Bool, true, false, not, ◌&&◌, ◌||◌, Option, none, some, Bytes, if◌then◌else◌,
  any,
}

pub record Net : Type 1 where
  pub Addr : Type 0
  pub Prefix : Type 0
  -- netip.ParseAddr, and the address of netip.ParseAddrPort.
  pub plain_addr : Bytes → Option Addr
  pub addr_port : Bytes → Option Addr
  -- Unmap().WithZone(""), ==, Prefix.Contains, and the string of an address with the port 0.
  pub unmap : Addr → Addr
  pub same : Addr → Addr → Bool
  pub holds : Prefix → Addr → Bool
  pub written : Addr → Bytes
  -- strings.SplitSeq at commas, and strings.TrimSpace.
  pub split : Bytes → List Bytes
  pub trim : Bytes → Bytes

pub record Trusted (net : Net) : Type 0 where
  pub peer : Bool
  pub ranges : List net.Prefix

module _ (net : Net) where
  -- `parseAddr`.
  unfoldable pub parse_addr : Bytes → Option net.Addr
  parse_addr s = elim (net.plain_addr s) [
    | some addr ↦ some (net.unmap addr)
    | none ↦ elim (net.addr_port s) [ none ↦ none | some addr ↦ some (net.unmap addr) ]
  ]

  unfoldable pub contains : Trusted net → net.Addr → Bool
  contains t addr = any (λ p. net.holds p addr) t.ranges

  unfoldable pub trimmed : List Bytes → List Bytes
  trimmed [] = []
  trimmed (hop ∷ rest) = net.trim hop ∷ trimmed rest

  unfoldable pub forwarded : List Bytes → List Bytes
  forwarded [] = []
  forwarded (line ∷ rest) = trimmed (net.split line) ++ forwarded rest

  -- The loop of `client`, over the hops from the last on.
  unfoldable pub walk_back : Trusted net → net.Addr → List Bytes → net.Addr
  walk_back t client [] = client
  walk_back t client (hop ∷ earlier) = elim (parse_addr hop) [
    | none ↦ client
    | some addr ↦ let rest = walk_back t addr earlier in if contains t addr then rest else addr
  ]

  unfoldable pub backward : List Bytes → List Bytes
  backward [] = []
  backward (hop ∷ rest) = backward rest ++ hop ∷ []

  -- `client`, of a request's RemoteAddr and its lines of X-Forwarded-For.
  unfoldable pub client : Trusted net → Bytes → List Bytes → Option net.Addr
  client t remote lines = elim (parse_addr remote) [
    | none ↦ none
    | some peer ↦
        let found = walk_back t peer (backward (forwarded lines)) in
        if t.peer || contains t peer
        then (if net.same found peer then none else some found)
        else none
  ]

  unfoldable pub believes_none : Trusted net → Bool
  believes_none t = not t.peer && (elim t.ranges [ [] ↦ true | _ ∷ _ ↦ false ])

  -- The RemoteAddr that the next handler gets from `TrustProxies`.
  unfoldable pub trust_proxies : Trusted net → Bytes → List Bytes → Bytes
  trust_proxies t remote lines =
      if believes_none t
      then remote
      else elim (client t remote lines) [ none ↦ remote | some addr ↦ net.written addr ]
