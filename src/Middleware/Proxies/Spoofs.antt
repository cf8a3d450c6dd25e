-- ===== src/Middleware/Proxies/Spoofs.antt =====
-- What a client writes in X-Forwarded-For does not move its address.
use mathlib.Core.List.{append-nil, append_assoc}
use tug.Common.{
  ◌≡◌, refl, sym, ◌∙◌, List, [], ◌∷◌, ◌++◌, true, false, ◌||◌, ◌⊎◌, none, some, Bytes,
  if◌then◌else◌, Bool-cases, inl, inr, All, All-append, arith,
}
use tug.Middleware.Proxies.{
  Net, Trusted, parse_addr, contains, forwarded, walk_back, backward, client, believes_none,
  trust_proxies,
}

List-cases :
    {A : Type 0} → (xs : List A) → (xs ≡ []) ⊎ ((x : A) × (rest : List A) × (xs ≡ x ∷ rest))
List-cases [] = inl refl
List-cases (x ∷ xs) = inr (x, xs, refl)

module _ (net : Net) (t : Trusted net) where
  -- A hop that a trusted proxy's address is read from.
  pub record IsProxy (hop : Bytes) : Type 0 where
    pub addr : net.Addr
    pub parsed : parse_addr net hop ≡ some addr
    pub trusted : contains net t addr ≡ true

  backward-append :
      (xs ys : List Bytes) → backward net (xs ++ ys) ≡ backward net ys ++ backward net xs
  unfolding backward
  backward-append [] ys = sym (append-nil (backward net ys))
  backward-append (x ∷ xs) ys =
      rw (backward-append xs ys) (append_assoc (backward net ys) (backward net xs) (x ∷ []))

  backward-All : (hops : List Bytes) → All IsProxy hops → All IsProxy (backward net hops)
  unfolding backward
  backward-All [] a = tt
  backward-All (x ∷ xs) a =
      All-append IsProxy (backward net xs) (x ∷ []) (backward-All xs a.1) (a.0, tt)

  -- Past proxies, the walk stops at the first address that is not one.
  walk_back-stops :
      (c : net.Addr) (proxies earlier : List Bytes) (hop : Bytes) (addr : net.Addr)
      → All IsProxy proxies
      → parse_addr net hop ≡ some addr
      → contains net t addr ≡ false
      → walk_back net t c (proxies ++ hop ∷ earlier) ≡ addr
  unfolding walk_back
  walk_back-stops c [] earlier hop addr all parsed stranger = rw (parsed, stranger, walk_back) refl
  walk_back-stops c (p ∷ proxies) earlier hop addr all parsed stranger =
      rw (all.0.parsed, all.0.trusted, walk_back)
        (walk_back-stops all.0.addr proxies earlier hop addr all.1 parsed stranger)

  -- Where an address is trusted, some are.
  contains-believes : (peer : net.Addr) → contains net t peer ≡ true → believes_none net t ≡ false
  unfolding contains believes_none
  contains-believes peer c = elim (List-cases t.ranges) [
    | inl e ↦ let x : false ≡ true = rw (contains, e) at c in cc
    | inr (r, rs, e) ↦ rw e (ground arith)
  ]

  backward-hops :
      (spoof proxies : List Bytes) (hop : Bytes)
      → backward net (spoof ++ hop ∷ proxies) ≡ backward net proxies ++ hop ∷ backward net spoof
  unfolding backward
  backward-hops spoof proxies hop =
      backward-append spoof (hop ∷ proxies)
      ∙ append_assoc (backward net proxies) (hop ∷ []) (backward net spoof)

  -- Where the request came from a trusted address, the client is the last address of X-Forwarded-For that is not
  -- a trusted proxy's, whatever the client wrote before it: the next handler gets that address, or,
  -- where it is the one that connected, the request as it came.
  pub client_unmoved :
      (remote hop : Bytes) (lines written_by_client proxies : List Bytes) (peer addr : net.Addr)
      → parse_addr net remote ≡ some peer
      → contains net t peer ≡ true
      → forwarded net lines ≡ written_by_client ++ hop ∷ proxies
      → All IsProxy proxies
      → parse_addr net hop ≡ some addr
      → contains net t addr ≡ false
      → trust_proxies net t remote lines ≡ (if net.same addr peer then remote else net.written addr)
  unfolding client trust_proxies
  client_unmoved remote hop lines spoof proxies peer addr came trusts hops all parsed stranger =
      let found =
        walk_back-stops peer (backward net proxies) (backward net spoof) hop addr
          (backward-All proxies all) parsed stranger in
      let believed : (t.peer || contains net t peer) ≡ true = ground (arith, trusts) in
      let is : client net t remote lines ≡ (if net.same addr peer then none else some addr) =
        rw (client, came, believed, hops, backward-hops spoof proxies hop, found) refl in
      let some_trusted = contains-believes peer trusts in
      elim (Bool-cases (net.same addr peer)) [
        | inl s ↦ rw (some_trusted, is, s, trust_proxies) refl
        | inr s ↦ rw (some_trusted, is, s, trust_proxies) refl
      ]

  -- A request from an address that is not trusted keeps it, whatever its headers say.
  pub stranger_kept :
      (remote : Bytes) (lines : List Bytes) (peer : net.Addr)
      → parse_addr net remote ≡ some peer
      → t.peer ≡ false
      → contains net t peer ≡ false
      → trust_proxies net t remote lines ≡ remote
  unfolding trust_proxies client
  stranger_kept remote lines peer came alone stranger =
      let unknown : (t.peer || contains net t peer) ≡ false = ground (arith, alone, stranger) in
      elim (Bool-cases (believes_none net t)) [
        | inl b ↦ rw b refl
        | inr b ↦ rw (b, came, unknown, client) refl
      ]
