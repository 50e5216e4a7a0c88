-- ===== src/Chain/Client/SubmitOnly.antt =====
-- internal/chain/client.go: `connectSubmitOnly`, and `withClient` on a submit-only client.
use hash256_miner.Base.{
  ℕ, suc, ◌+◌, ◌%◌, ◌^◌, ◌≡◌, refl, ap, arith, true, Option, none, some, List, ◌∷◌, Bytes, Err, ok,
  err, Exec, length, if◌then◌else◌, ◌==◌,
}
use native.Mathlib.Nat.{mod-eq_of_lt}
use hash256_miner.Chain.Rpc.{Rpc}
use hash256_miner.Chain.Client.{
  Client, Net, M, try_submit_endpoint, visit, connect_submit_from, connect_submit_only, reconnect,
  bump_idx, call_active, connect_if_closed, call_again, with_client,
}
use hash256_miner.Chain.Client.Failover.{activate_lem, activated, activated_self}

module _ (net : Rpc) where
  open net use {W, Ctx, Conn, with_timeout, dial}

  -- Dialling the endpoint never fails, as with an HTTP endpoint, whose dial sends nothing.
  pub record Dials (url : Bytes) : Type 0 where
    pub conn : Ctx → W → Conn
    pub answers : (ctx : Ctx) (w : W) → (dial ctx url w).0 ≡ ok (conn ctx w)

  -- One round at an endpoint that dials takes it.
  first_round :
      (ctx : Ctx) (p i : ℕ) (url : Bytes) (next : Err → M net (Unit {0})) (s : Net W Conn)
      → (up : Dials url)
      → (w w' : W) × (c : Ctx) × (try_submit_endpoint net ctx p i url next s
          ≡ (ok tt, record { world = w; client = activated net p i (up.conn c w') s.client }))
  unfolding try_submit_endpoint
  first_round ctx p i url next s up =
      let c = with_timeout ctx (s.client p).timeout s.world in
      let s' = record s { world = (dial c url s.world).1 } in
      let (w, e) = activate_lem net p i (up.conn c s.world) s' in
      (w, s.world, c, rw (up.answers c s.world) e)

  from_first :
      (ctx : Ctx) (p n : ℕ) (last : Option Err) (s : Net W Conn) (url : Bytes) (urls : List Bytes)
      → (s.client p).endpoints ≡ url ∷ urls
      → (up : Dials url)
      → (w w' : W) × (c : Ctx) × (connect_submit_from net ctx p (suc n) 0 last s
          ≡ (ok tt, record { world = w; client = activated net p 0 (up.conn c w') s.client }))
  unfolding connect_submit_from visit
  from_first ctx p n last s url urls e up =
      let zero_mod : 0 % suc (length urls) ≡ 0 = mod-eq_of_lt (omega arith) in
      rw e (rw zero_mod (first_round ctx p 0 url _ s up))

  -- `connectSubmitOnly` ends on the first endpoint, whatever `idx` says.
  pub connect_submit_only_first :
      (ctx : Ctx) (p : ℕ) (s : Net W Conn) (url : Bytes) (urls : List Bytes)
      → (s.client p).endpoints ≡ url ∷ urls
      → (up : Dials url)
      → (w w' : W) × (c : Ctx) × (connect_submit_only net ctx p s
          ≡ (ok tt, record { world = w; client = activated net p 0 (up.conn c w') s.client }))
  unfolding connect_submit_only
  connect_submit_only_first ctx p s url urls e up =
      rw e (from_first ctx p (length urls) none s url urls e up)

  call_again_first :
      {A : Type 0} (ctx : Ctx) (p : ℕ) (fn : Conn → Exec W A) (s : Net W Conn) (url : Bytes)
      (urls : List Bytes)
      → (s.client p).submit_only ≡ true
      → (s.client p).endpoints ≡ url ∷ urls
      → (up : Dials url)
      → (((call_again net ctx p fn s).1.client p).idx ≡ 0)
        × ((w w' : W) × (c : Ctx) × ((call_again net ctx p fn s).0 ≡ (fn (up.conn c w') w).0))
  unfolding call_again reconnect call_active
  call_again_first ctx p fn s url urls kind some_urls up =
      let (w, w', c, e) = connect_submit_only_first ctx p s url urls some_urls up in
      let self = activated_self net p 0 (up.conn c w') s.client in
      rw (kind, e) (rw self (ap (λ (d : Client Conn). d.idx) self, (w, w', c, refl)))

  -- When a call on the active connection of a submit-only client fails and its first endpoint can
  -- be dialled, the second call is made on a connection to the first endpoint again, whatever `idx`
  -- is, and `idx` is 0 after it.
  pub with_client_submit_first :
      {A : Type 0} (ctx : Ctx) (p : ℕ) (fn : Conn → Exec W A) (s : Net W Conn) (url : Bytes)
      (urls : List Bytes) {r : Conn} {e : Err}
      → (s.client p).submit_only ≡ true
      → (s.client p).endpoints ≡ url ∷ urls
      → (up : Dials url) → (s.client p).active ≡ some r
      → (fn r s.world).0 ≡ err e
      → (((with_client net ctx p fn s).1.client p).idx ≡ 0)
        × ((w w' : W) × (c : Ctx) × ((with_client net ctx p fn s).0 ≡ (fn (up.conn c w') w).0))
  unfolding with_client bump_idx connect_if_closed call_active
  with_client_submit_first ctx p fn s url urls {r} kind some_urls up live failed =
      let c = record (s.client p) { idx = ((s.client p).idx + 1) % 2 ^ 32 } in
      let bumped = λ (q : ℕ). if p == q then c else s.client q in
      let self : bumped p ≡ c = ground arith in
      rw (live, connect_if_closed)
        (rw failed (
          call_again_first ctx p fn (record { world = (fn r s.world).1; client = bumped }) url urls
            (rw self kind) (rw self some_urls) up))
