-- ===== src/Chain/Client/Progress.antt =====
-- internal/chain/client.go: the endpoints that `connect` reaches, and the second call of `withClient`.
use hash256_miner.Base.{
  ℕ, zero, suc, ◌+◌, ◌-◌, ◌%◌, ◌^◌, ◌<◌, ◌≡◌, ◌≢◌, refl, arith, true, false, Option, none, some,
  inl, inr, Bytes, Err, errorf, wrap, Result, ok, err, panic, Exec, handle, pure, ◌>>◌, ◌>>=◌,
  resume_rule, length, get_elem?, get_elem?_total, get_elem?_bound, if◌then◌else◌, leb, ◌==◌,
  Bool-cases, ℤ, String,
}
use native.Mathlib.Nat.{mod-add-mod, mod-eq_of_lt, add-mod_right}
use hash256_miner.Chain.Rpc.{Rpc}
use hash256_miner.Chain.Client.{
  Net, M, int_eq, slot, try_endpoint, visit, at_slot, connect_from, connect, activate, reconnect,
  bump_idx, call_active, connect_if_closed, call_again, with_client,
}
use hash256_miner.Chain.Client.Failover.{activate_lem, IsConnected, connect-Connected}

-- The round at which a loop from `start` reaches the index `j`.
reach : ℕ → ℕ → ℕ → ℕ
reach start j len = if leb (start % len) j then j - start % len else j + len - start % len

reach_lem :
    (start j len : ℕ)
    → j < len
    → (reach start j len < len) × ((start + reach start j len) % len ≡ j)
unfolding reach
reach_lem start j len h = ground (
  arith,
  mod-add-mod start len (j - start % len),
  mod-add-mod start len (j + len - start % len),
  mod-eq_of_lt h,
  add-mod_right j len,
)

same_slot : (a b len : ℕ) {j : ℕ} → a ≡ b → a % len ≡ j → b % len ≡ j
same_slot a b len e h = rw (← e) h

slot_in_range : (start i len : ℕ) → start < 2 ^ 31 → slot start i len ≡ some ((start + i) % len)
unfolding slot
slot_in_range start i len h = ground arith

module _ (net : Rpc) where
  open net use {W, Ctx, Conn, with_timeout, dial, chain_id_of}

  -- The library calls of `connect` return or fail; they do not panic.
  pub record NoPanic : Type 0 where
    pub dials : (ctx : Ctx) (url : Bytes) (w : W) (m : String) → (dial ctx url w).0 ≢ panic m
    pub probes : (r : Conn) (ctx : Ctx) (w : W) (m : String) → (chain_id_of r ctx w).0 ≢ panic m

  -- The endpoint `url` is up: it can be dialled at any time, and then reports the chain `id`.
  pub record IsUp (url : Bytes) (id : ℤ) : Type 0 where
    pub conn : Ctx → W → Conn
    pub answers : (ctx : Ctx) (w : W) → (dial ctx url w).0 ≡ ok (conn ctx w)
    pub reports :
        (ctx : Ctx) (w : W) (ctx' : Ctx) (w' : W) → (chain_id_of (conn ctx w) ctx' w').0 ≡ ok id

  abbrev IsDone : Result (Unit {0}) × Net W Conn → Type 0
  IsDone out = out.0 ≡ ok tt

  activate-IsDone : (p i : ℕ) (r : Conn) (s : Net W Conn) → IsDone (activate net p i r s)
  activate-IsDone p i r s = let (w, e) = activate_lem net p i r s in rw e

  -- A round that does not end the loop goes on to the next.
  try_endpoint-IsDone :
      (ctx : Ctx) (p i : ℕ) (url : Bytes) (next : Err → M net (Unit {0})) (s : Net W Conn)
      → NoPanic
      → ((e : Err) (w : W) → IsDone (next e (record s { world = w })))
      → IsDone (try_endpoint net ctx p i url next s)
  unfolding try_endpoint
  try_endpoint-IsDone ctx p i url next s np rest =
      let c = s.client p in
      let d = dial (with_timeout ctx c.timeout s.world) url s.world in
      let w = d.1 in
      resume_rule IsDone d.0 _ _ (record s { world = w })
        (λ r _.
          let a = chain_id_of r (with_timeout ctx c.timeout w) w in
          resume_rule IsDone a.0 _ _ (record s { world = a.1 })
            (λ id _. elim (Bool-cases (int_eq id c.chain_id)) [
              | inl same ↦ rw same (activate-IsDone p i r (record s { world = a.1 }))
              | inr other ↦ rw other (rest (errorf _) (net.close r a.1))
            ])
            (λ e _. rest (wrap _ e) (net.close r a.1)) (λ m e. absurd (np.probes _ _ _ m e)))
        (λ e _. rest (wrap _ e) w) (λ m e. absurd (np.dials _ _ _ m e))

  -- A round at an endpoint that is up ends the loop.
  try_endpoint_up :
      (ctx : Ctx) (p i : ℕ) (url : Bytes) (next : Err → M net (Unit {0})) (s : Net W Conn) {id : ℤ}
      → IsUp url id
      → int_eq id (s.client p).chain_id ≡ true
      → IsDone (try_endpoint net ctx p i url next s)
  unfolding try_endpoint
  try_endpoint_up ctx p i url next s up same =
      rw (up.answers _ s.world) (rw (up.reports _ s.world _ _) (rw same (activate-IsDone p i _ _)))

  connect_from-IsDone :
      (k : ℕ) (ctx : Ctx) (p start n i j : ℕ) (last : Option Err) (s : Net W Conn) {url : Bytes}
      {id : ℤ}
      → NoPanic
      → IsUp url id
      → int_eq id (s.client p).chain_id ≡ true
      → get_elem? (s.client p).endpoints j ≡ some url
      → start < 2 ^ 31
      → k < n
      → 0 < length (s.client p).endpoints
      → (start + (i + k)) % length (s.client p).endpoints ≡ j
      → IsDone (connect_from net ctx p start n i last s)
  unfolding connect_from at_slot visit
  connect_from-IsDone k ctx p start zero i j last s np up same at lt more filled there =
      elim more [ ]
  connect_from-IsDone zero ctx p start (suc n) i j last s np up same at lt more filled there =
      let e : (start + i) % length (s.client p).endpoints ≡ j =
        same_slot _ _ (length (s.client p).endpoints) (omega arith) there in
      rw (slot_in_range start i (length (s.client p).endpoints) lt, e, at)
        (try_endpoint_up ctx p j _ _ s up same)
  connect_from-IsDone (suc k) ctx p start (suc n) i j last s np up same at lt more filled there =
      let urls = (s.client p).endpoints in
      let (url', e) = get_elem?_total urls ((start + i) % length urls) (omega arith) in
      rw (slot_in_range start i (length urls) lt, e)
        (try_endpoint-IsDone ctx p _ url' _ s np (λ e' w.
          connect_from-IsDone k ctx p start n (i + 1) j (some e') (record s { world = w }) np up
            same at lt (omega arith) filled (same_slot _ _ (length urls) (omega arith) there)))

  -- If some endpoint of the client can be dialled at any time and then reports the client's chain
  -- id, and the library calls do not panic, `connect` succeeds from whatever non-negative index it
  -- starts at.
  pub connect_done :
      (ctx : Ctx) (p j : ℕ) (s : Net W Conn) {url : Bytes} {id : ℤ}
      → NoPanic
      → IsUp url id
      → int_eq id (s.client p).chain_id ≡ true
      → get_elem? (s.client p).endpoints j ≡ some url
      → (s.client p).idx < 2 ^ 31
      → (connect net ctx p s).0 ≡ ok tt
  unfolding connect
  connect_done ctx p j s np up same at lt =
      let len = length (s.client p).endpoints in
      let inside = get_elem?_bound (s.client p).endpoints j at in
      let (below, there) = reach_lem (s.client p).idx j len inside in
      connect_from-IsDone (reach (s.client p).idx j len) ctx p (s.client p).idx len 0 j none s np up
        same at lt below (omega arith) (same_slot _ _ len (omega arith) there)

  -- `connect` has succeeded from the state `s`, and `out` is the result of just one call of `fn`, on
  -- the verified connection and in the state that `connect` left.
  pub record CalledAfter {A : Type 0} (ctx : Ctx) (p : ℕ) (fn : Conn → Exec W A) (s : Net W Conn)
      (out : Result A × Net W Conn) : Type 0 where
    pub connected : (connect net ctx p s).0 ≡ ok tt
    pub verified : IsConnected net ((connect net ctx p s).1.client p)
    pub is_run : out ≡ (
      (fn verified.conn (connect net ctx p s).1.world).0,
      record (connect net ctx p s).1 { world = (fn verified.conn (connect net ctx p s).1.world).1 },
    )

  -- The state behind the failure of a call on `r`: the call's world, and `idx` one further.
  abbrev pub after_failure : {A : Type 0} → ℕ → (Conn → Exec W A) → Conn → Net W Conn → Net W Conn
  after_failure p fn r s = record {
    world = (fn r s.world).1;
    client = λ q.
        if p == q
        then record (s.client p) { idx = ((s.client p).idx + 1) % 2 ^ 32 }
        else s.client q;
  }

  -- The second call is made on the connection that `connect` has verified.
  call_again_lem :
      {A : Type 0} (ctx : Ctx) (p j : ℕ) (fn : Conn → Exec W A) (s : Net W Conn) {url : Bytes}
      {id : ℤ}
      → NoPanic
      → IsUp url id
      → int_eq id (s.client p).chain_id ≡ true
      → get_elem? (s.client p).endpoints j ≡ some url
      → (s.client p).idx < 2 ^ 31
      → (s.client p).submit_only ≡ false
      → CalledAfter ctx p fn s (call_again net ctx p fn s)
  unfolding call_again reconnect call_active
  call_again_lem ctx p j fn s np up same at lt kind =
      let done = connect_done ctx p j s np up same at lt in
      let after = connect-Connected net ctx p s in
      let good : IsConnected net ((connect net ctx p s).1.client p) = (rw done at after).0 in
      rw (kind, done, good.is_active) (record { connected = done; verified = good; is_run = refl })

  second_half :
      {A : Type 0} (ctx : Ctx) (p : ℕ) (fn : Conn → Exec W A) (s : Net W Conn) {r : Conn} {e : Err}
      (o : Option Conn)
      → o ≡ some r
      → (fn r s.world).0 ≡ err e
      → ((do
        cli ← connect_if_closed net ctx p o
        handle (call_active net fn cli) pure (λ _. bump_idx net p >> call_again net ctx p fn))
          s)
        ≡ call_again net ctx p fn (after_failure p fn r s)
  unfolding connect_if_closed call_active bump_idx
  second_half ctx p fn s none is failed = cc
  second_half ctx p fn s {r} (some r') is failed = let same : r' ≡ r = cc in rw (same, failed) refl

  -- After a call that fails on the active connection of an ordinary client `idx` goes one further
  -- and `connect` succeeds; the call is made just once more, on the connection that `connect` has
  -- verified and in the state that it left, and its result and state are those of `withClient`.
  -- Some endpoint of the client must be one that can be dialled at any time and then reports the
  -- client's chain id, the library calls must not panic and `idx` must be below the largest int32.
  pub with_client_retry :
      {A : Type 0} (ctx : Ctx) (p j : ℕ) (fn : Conn → Exec W A) (s : Net W Conn) {r : Conn}
      {e : Err} {url : Bytes} {id : ℤ}
      → NoPanic
      → IsUp url id
      → int_eq id (s.client p).chain_id ≡ true
      → get_elem? (s.client p).endpoints j ≡ some url
      → (s.client p).idx + 1 < 2 ^ 31
      → (s.client p).submit_only ≡ false
      → (s.client p).active ≡ some r
      → (fn r s.world).0 ≡ err e
      → CalledAfter ctx p fn (after_failure p fn r s) (with_client net ctx p fn s)
  unfolding with_client bump_idx connect_if_closed call_active
  with_client_retry ctx p j fn s {r} np up same at lt kind live failed =
      let t = after_failure p fn r s in
      let self : t.client p ≡ record (s.client p) { idx = ((s.client p).idx + 1) % 2 ^ 32 } =
        ground arith in
      rw (second_half ctx p fn s (s.client p).active live failed) (
        call_again_lem ctx p j fn t np up (rw self same) (rw self at) (rw self (omega arith))
          (rw self kind))
