-- ===== src/Chain/Client/Failover.antt =====
-- internal/chain/client.go: the store of clients along the loop of `connect`.
use hash256_miner.Base.{
  ℕ, zero, suc, ◌+◌, ◌≡◌, ◌≢◌, refl, arith, true, Option, none, some, inl, inr, Bytes, Err, errorf,
  wrap, Result, ok, err, panic, resume_rule, length, get_elem?, if◌then◌else◌, ◌==◌, Bool-cases,
  Option-cases, ℤ,
}
use hash256_miner.Chain.Rpc.{Rpc}
use hash256_miner.Chain.Client.{
  Client, Net, int_eq, slot, activate, close_active, close_client, try_endpoint, visit, at_slot,
  connect_from, connect, M,
}

module _ (net : Rpc) where
  open net use {W, Ctx, Conn, with_timeout, dial, chain_id_of}

  -- The active connection is a verified one, and `idx` says where it leads.
  pub record IsConnected (c : Client Conn) : Type 0 where
    pub conn : Conn
    pub is_active : c.active ≡ some conn
    pub url : Bytes
    pub at_idx : get_elem? c.endpoints c.idx ≡ some url
    pub dial_ctx : Ctx
    pub dial_world : W
    pub dialled : (dial dial_ctx url dial_world).0 ≡ ok conn
    pub probe_ctx : Ctx
    pub probe_world : W
    pub id : ℤ
    pub probed : (chain_id_of conn probe_ctx probe_world).0 ≡ ok id
    pub same_chain : int_eq id c.chain_id ≡ true

  -- The settings of a client, which no method changes.
  pub record SameSettings (c d : Client Conn) : Type 0 where
    pub endpoints : c.endpoints ≡ d.endpoints
    pub chain_id : c.chain_id ≡ d.chain_id
    pub timeout : c.timeout ≡ d.timeout
    pub submit_only : c.submit_only ≡ d.submit_only

  -- What holds after an attempt to connect the client `p` of the store `f`.
  abbrev pub Connected : ℕ → (ℕ → Client Conn) → Result (Unit {0}) → Net W Conn → Type 0
  Connected p f (ok _) s =
      IsConnected (s.client p)
      × SameSettings (s.client p) (f p)
      × ((q : ℕ) → p ≢ q → s.client q ≡ f q)
  Connected p f (err e) s = s.client ≡ f
  Connected p f (panic m) s = s.client ≡ f

  abbrev pub After : ℕ → (ℕ → Client Conn) → Result (Unit {0}) × Net W Conn → Type 0
  After p f out = Connected p f out.0 out.1

  close_active_lem :
      (a : Option Conn) (s : Net W Conn)
      → (w : W) × (close_active net a s ≡ (ok tt, record s { world = w }))
  unfolding close_active
  close_active_lem none s = (s.world, refl)
  close_active_lem (some r) s = (net.close r s.world, refl)

  -- `Close` leaves no active connection in the cell.
  pub close_client-active :
      (p : ℕ) (s : Net W Conn) → ((close_client net p s).1.client p).active ≡ none
  unfolding close_client
  close_client-active p s =
      let (w, closed) = close_active_lem (s.client p).active s in
      let same : (p == p) ≡ true = ground arith in rw (closed, same)

  -- The store with the connection `r` at the endpoint `i` in the client `p`.
  abbrev pub activated : ℕ → ℕ → Conn → (ℕ → Client Conn) → ℕ → Client Conn
  activated p i r f q = if p == q then record (f p) { active = some r; idx = i } else f q

  pub activate_lem :
      (p i : ℕ) (r : Conn) (s : Net W Conn)
      → (w : W) × (activate net p i r s
          ≡ (ok tt, record { world = w; client = activated p i r s.client }))
  unfolding activate
  activate_lem p i r s = let (w, e) = close_active_lem (s.client p).active s in (w, rw e)

  pub activated_self :
      (p i : ℕ) (r : Conn) (f : ℕ → Client Conn)
      → activated p i r f p ≡ record (f p) { active = some r; idx = i }
  activated_self p i r f = ground arith

  activated_other :
      (p i : ℕ) (r : Conn) (f : ℕ → Client Conn) (q : ℕ) → p ≢ q → activated p i r f q ≡ f q
  activated_other p i r f q h = ground arith

  -- A dialled and probed connection may be activated.
  activate-Connected :
      (p i : ℕ) (r : Conn) (s : Net W Conn)
      → IsConnected (record (s.client p) { active = some r; idx = i })
      → After p s.client (activate net p i r s)
  activate-Connected p i r s good =
      let (w, e) = activate_lem p i r s in
      rw e (
        rw (activated_self p i r s.client) good,
        rw (activated_self p i r s.client)
            (record { endpoints = refl; chain_id = refl; timeout = refl; submit_only = refl }),
        activated_other p i r s.client,
      )

  try_endpoint-Connected :
      (ctx : Ctx) (p i : ℕ) (url : Bytes) (next : Err → M net (Unit {0})) (s : Net W Conn)
      → get_elem? (s.client p).endpoints i ≡ some url
      → ((e : Err) (w : W) → After p s.client (next e (record s { world = w })))
      → After p s.client (try_endpoint net ctx p i url next s)
  unfolding try_endpoint
  try_endpoint-Connected ctx p i url next s at rest =
      let c = s.client p in
      let d = dial (with_timeout ctx c.timeout s.world) url s.world in
      let w = d.1 in
      resume_rule (After p s.client) d.0 _ _ (record s { world = w })
        (λ r dialled.
          let a = chain_id_of r (with_timeout ctx c.timeout w) w in
          resume_rule (After p s.client) a.0 _ _ (record s { world = a.1 })
            (λ id probed. elim (Bool-cases (int_eq id c.chain_id)) [
              | inl same ↦ rw same (
                  activate-Connected p i r (record s { world = a.1 })
                    (record {
                      conn = r;
                      is_active = refl;
                      url = url;
                      at_idx = at;
                      dial_ctx = with_timeout ctx c.timeout s.world;
                      dial_world = s.world;
                      dialled = dialled;
                      probe_ctx = with_timeout ctx c.timeout w;
                      probe_world = w;
                      id = id;
                      probed = probed;
                      same_chain = same;
                    }))
              | inr other ↦ rw other (rest (errorf _) (net.close r a.1))
            ])
            (λ e _. rest (wrap "chainID %s: %w" e) (net.close r a.1)) (λ m _. refl))
        (λ e _. rest (wrap "dial %s: %w" e) w) (λ m _. refl)

  -- The loop, whatever its rounds: the rounds before left the store as it was.
  connect_from-Connected :
      (ctx : Ctx) (p start n i : ℕ) (last : Option Err) (s : Net W Conn)
      → After p s.client (connect_from net ctx p start n i last s)
  unfolding connect_from at_slot visit
  connect_from-Connected ctx p start zero i last s = refl
  connect_from-Connected ctx p start (suc n) i last s =
      elim (Option-cases (slot start i (length (s.client p).endpoints))) [
        | inl nothing ↦ rw nothing refl
        | inr (j, e) ↦ rw e (elim (Option-cases (get_elem? (s.client p).endpoints j)) [
          | inl nothing ↦ rw nothing refl
          | inr (url, at) ↦ rw at (
              try_endpoint-Connected ctx p j url _ s at (λ e' w.
                connect_from-Connected ctx p start n (i + 1) (some e') (record s { world = w })))
        ])
      ]

  -- After `connect` returns nil, the client's active connection was dialled at the endpoint that
  -- `idx` names and reported the configured chain id; after an error or a panic every client is as
  -- it was. The settings of the client and all other clients never change.
  pub connect-Connected :
      (ctx : Ctx) (p : ℕ) (s : Net W Conn) → After p s.client (connect net ctx p s)
  unfolding connect
  connect-Connected ctx p s =
      connect_from-Connected ctx p (s.client p).idx (length (s.client p).endpoints) 0 none s
