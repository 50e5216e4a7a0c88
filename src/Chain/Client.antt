-- ===== src/Chain/Client.antt =====
-- internal/chain/client.go: RPC clients with failover. A client is a cell of a store, since the
-- submitter may hold the reader's client twice; the locks only guard single reads and writes.
pub mod SubmitOnly
pub mod Calls
pub mod Failover
pub mod Progress
pub mod Quiet
pub mod Attempts
use hash256_miner.Base.{
  ℕ, zero, suc, ◌+◌, ◌-◌, ◌%◌, ◌^◌, Bool, true, false, not, Option, none, some, List, [], ◌∷◌,
  Bytes, Err, errorf, wrap, Result, ok, err, panic, Exec, pure, fail, crash, lift, handle, ◌>>=◌,
  ◌>>◌, length, get_elem?, String, if◌then◌else◌, ltb, leb, ◌==◌, ℤ, pos, negsuc,
}
use hash256_miner.Chain.Rpc.{Rpc, CallMsg, Receipt}

pub record Client (Conn : Type 0) : Type 0 where
  pub endpoints : List Bytes
  pub chain_id : ℤ
  pub timeout : ℤ
  pub submit_only : Bool
  pub idx : ℕ  -- int32, as its bit pattern
  pub active : Option Conn

-- The world, and the clients by their pointers.
pub record Net (W Conn : Type 0) : Type 0 where
  pub world : W
  pub client : ℕ → Client Conn

abbrev pub int_eq : ℤ → ℤ → Bool
int_eq (pos a) (pos b) = a == b
int_eq (negsuc a) (negsuc b) = a == b
int_eq _ _ = false

-- `(int(start) + i) % len(c.endpoints)` as an index: Go's remainder has the sign of the dividend,
-- and a negative index panics. `start` is an int32 as its bit pattern.
unfoldable pub slot : ℕ → ℕ → ℕ → Option ℕ
slot start i len =
    if ltb start (2 ^ 31)
    then some ((start + i) % len)
    else let below = 2 ^ 32 - start in
      if leb below i
      then some ((i - below) % len)
      else if (below - i) % len == 0
      then some 0
      else none

module _ (net : Rpc) where
  open net use {W, Ctx, Conn, Address, with_timeout, dial, close, chain_id_of}

  abbrev pub M : Type 0 → Type 0
  M A = Exec (Net W Conn) A

  -- A library call works on the world alone.
  abbrev pub on_world : {A : Type 0} → Exec W A → M A
  on_world m s = ((m s.world).0, record s { world = (m s.world).1 })

  abbrev pub get : ℕ → M (Client Conn)
  get p s = (ok (s.client p), s)

  abbrev pub put : ℕ → Client Conn → M (Unit {0})
  put p c s = (ok tt, record s { client = λ q. if p == q then c else s.client q })

  -- `context.WithTimeout`
  abbrev pub deadline : Ctx → ℤ → M Ctx
  deadline ctx t s = (ok (with_timeout ctx t s.world), s)

  abbrev pub close_conn : Conn → M (Unit {0})
  close_conn r s = (ok tt, record s { world = close r s.world })

  unfoldable pub close_active : Option Conn → M (Unit {0})
  close_active none = pure tt
  close_active (some r) = close_conn r

  -- The connection takes the place of the active one.
  unfoldable pub activate : ℕ → ℕ → Conn → M (Unit {0})
  activate p i r = do
    c ← get p
    close_active c.active
    put p (record c { active = some r; idx = i })

  -- `(*Client).Close`
  unfoldable pub close_client : ℕ → M (Unit {0})
  close_client p = do c ← get p; close_active c.active; put p (record c { active = none })

  -- `%w` of `lastErr`, which is nil where no endpoint was tried.
  pub wrap_last : String → Option Err → Err
  wrap_last s none = errorf s
  wrap_last s (some e) = wrap s e

  -- One round of the loop of `connect`: dial, ask for the chain id, compare. `next` is
  -- `lastErr = …; continue`.
  unfoldable pub try_endpoint : Ctx → ℕ → ℕ → Bytes → (Err → M (Unit {0})) → M (Unit {0})
  try_endpoint ctx p i url next = do
    c ← get p
    dial_ctx ← deadline ctx c.timeout
    handle (on_world (dial dial_ctx url))
        (λ r. do
          probe_ctx ← deadline ctx c.timeout
          handle (on_world (chain_id_of r probe_ctx))
              (λ id.
                if int_eq id c.chain_id
                then activate p i r
                else (close_conn r >> next (errorf "chainID mismatch on %s: expected %s, got %s")))
              (λ e. close_conn r >> next (wrap "chainID %s: %w" e)))
        (λ e. next (wrap "dial %s: %w" e))

  -- `url := c.endpoints[idx]`, which panics out of range.
  unfoldable pub visit :
      (ℕ → Bytes → (Err → M (Unit {0})) → M (Unit {0}))
      → ℕ
      → Option Bytes
      → (Err → M (Unit {0}))
      → M (Unit {0})
  visit body j none next = crash "index out of range"
  visit body j (some url) next = body j url next

  unfoldable pub at_slot : Ctx → ℕ → Option ℕ → (Err → M (Unit {0})) → M (Unit {0})
  at_slot ctx p none next = crash "index out of range"
  at_slot ctx p (some j) next = do
    c ← get p
    visit (try_endpoint ctx p) j (get_elem? c.endpoints j) next

  -- The loop of `connect` with `n` rounds left, from round `i`.
  unfoldable pub connect_from : Ctx → ℕ → ℕ → ℕ → ℕ → Option Err → M (Unit {0})
  connect_from ctx p start zero i last = fail (wrap_last "no usable RPC endpoint: %w" last)
  connect_from ctx p start (suc n) i last = do
    c ← get p
    at_slot ctx p (slot start i (length c.endpoints))
        (λ e. connect_from ctx p start n (i + 1) (some e))

  -- `(*Client).connect`
  unfoldable pub connect : Ctx → ℕ → M (Unit {0})
  connect ctx p = do c ← get p; connect_from ctx p c.idx (length c.endpoints) 0 none

  try_submit_endpoint : Ctx → ℕ → ℕ → Bytes → (Err → M (Unit {0})) → M (Unit {0})
  try_submit_endpoint ctx p i url next = do
    c ← get p
    dial_ctx ← deadline ctx c.timeout
    handle (on_world (dial dial_ctx url)) (activate p i) (λ e. next (wrap "dial %s: %w" e))

  -- The loop of `connectSubmitOnly`, from round `i`, which is the endpoint's index.
  connect_submit_from : Ctx → ℕ → ℕ → ℕ → Option Err → M (Unit {0})
  connect_submit_from ctx p zero i last = fail (wrap_last "no usable submit endpoint: %w" last)
  connect_submit_from ctx p (suc n) i last = do
    c ← get p
    visit (try_submit_endpoint ctx p) (i % length c.endpoints)
        (get_elem? c.endpoints (i % length c.endpoints))
        (λ e. connect_submit_from ctx p n (i + 1) (some e))

  -- `(*Client).connectSubmitOnly`
  pub connect_submit_only : Ctx → ℕ → M (Unit {0})
  connect_submit_only ctx p = do c ← get p; connect_submit_from ctx p (length c.endpoints) 0 none

  -- The choice that `withClient` makes twice.
  unfoldable pub reconnect : Ctx → ℕ → M (Unit {0})
  reconnect ctx p = do c ← get p; if c.submit_only then connect_submit_only ctx p else connect ctx p

  -- `fn(cli)`, where a nil client is dereferenced.
  unfoldable pub call_active : {A : Type 0} → (Conn → Exec W A) → Option Conn → M A
  call_active fn none = crash "nil pointer dereference"
  call_active fn (some r) = on_world (fn r)

  unfoldable pub connect_if_closed : Ctx → ℕ → Option Conn → M (Option Conn)
  connect_if_closed ctx p (some r) = pure (some r)
  connect_if_closed ctx p none = do reconnect ctx p; c ← get p; pure c.active

  -- `shouldFailover` of an error that is not nil.
  abbrev pub should_failover : Err → Bool
  should_failover e = true

  -- `atomic.AddInt32(&c.idx, 1)`
  unfoldable pub bump_idx : ℕ → M (Unit {0})
  bump_idx p = do c ← get p; put p (record c { idx = (c.idx + 1) % 2 ^ 32 })

  -- The second half of `withClient`, behind the failure of the first call.
  unfoldable pub call_again : {A : Type 0} → Ctx → ℕ → (Conn → Exec W A) → M A
  call_again ctx p fn =
      handle (reconnect ctx p) (λ _. do c ← get p; call_active fn c.active)
        (λ rerr. fail (wrap "primary failed (%v) and reconnect failed: %w" rerr))

  -- `(*Client).withClient`; `fn` returns what the closure stores.
  unfoldable pub with_client : {A : Type 0} → Ctx → ℕ → (Conn → Exec W A) → M A
  with_client ctx p fn = do
    c ← get p
    cli ← connect_if_closed ctx p c.active
    handle (call_active fn cli) pure
        (λ e. if should_failover e then (bump_idx p >> call_again ctx p fn) else fail e)

  abbrev init_client : List Bytes → ℤ → ℤ → Bool → Client Conn
  init_client urls id t only = record {
    endpoints = urls;
    chain_id = id;
    timeout = t;
    submit_only = only;
    idx = 0;
    active = none;
  }

  -- `NewClient`, into the fresh cell `p`.
  unfoldable pub new_client : Ctx → ℕ → List Bytes → ℤ → ℤ → M (Unit {0})
  new_client ctx p [] id t = fail (errorf "no RPC endpoints provided")
  new_client ctx p (u ∷ us) id t = do put p (init_client (u ∷ us) id t false); connect ctx p

  -- `NewSubmitOnlyClient`, into the fresh cell `p`.
  pub new_submit_only_client : Ctx → ℕ → List Bytes → ℤ → ℤ → M (Unit {0})
  new_submit_only_client ctx p [] id t = fail (errorf "no submit RPC endpoints provided")
  new_submit_only_client ctx p (u ∷ us) id t = do
    put p (init_client (u ∷ us) id t true)
    connect_submit_only ctx p
