-- ===== src/Chain/Client/Quiet.antt =====
-- internal/chain/client.go: what an observer of the world sees of a call with failover. The observer is a
-- function of the world, such as the list of what was sent to the workers.
use hash256_miner.Base.{
  ℕ, zero, suc, ◌+◌, ◌≡◌, refl, ◌∙◌, Option, none, some, Bytes, Err, Result, ok, err, panic, Exec,
  resume, fail, handle, length, get_elem?, Bool-cases, inl, inr, ◌>>=◌, ◌>>◌,
}
use hash256_miner.Chain.Rpc.{Rpc}
use hash256_miner.Chain.Client.{
  Net, M, slot, on_world, close_conn, close_active, activate, try_endpoint, visit, at_slot,
  connect_from, connect, try_submit_endpoint, connect_submit_from, connect_submit_only, reconnect,
  call_active, connect_if_closed, bump_idx, call_again, with_client, int_eq,
}

-- The calls that a connection is made with are not seen.
pub record Unseen {L : Type 0} (net : Rpc) (seen : net.W → L) : Type 0 where
  pub dial : (ctx : net.Ctx) (url : Bytes) (w : net.W) → seen (net.dial ctx url w).1 ≡ seen w
  pub close : (r : net.Conn) (w : net.W) → seen (net.close r w) ≡ seen w
  pub chain_id_of :
      (r : net.Conn) (ctx : net.Ctx) (w : net.W) → seen (net.chain_id_of r ctx w).1 ≡ seen w

module _ {L : Type 0} (net : Rpc) (seen : net.W → L) where
  open net use {W, Ctx, Conn}

  -- The call is not seen.
  abbrev pub Quiet : {A : Type 0} → M net A → Type 0
  Quiet m = (s : Net W Conn) → seen (m s).1.world ≡ seen s.world

  abbrev pub QuietCall : {A : Type 0} → Exec W A → Type 0
  QuietCall m = (w : W) → seen (m w).1 ≡ seen w

  pub handle-Quiet :
      {A B : Type 0} (m : M net A) (k : A → M net B) (h : Err → M net B)
      → Quiet m
      → ((a : A) → Quiet (k a))
      → ((e : Err) → Quiet (h e))
      → Quiet (handle m k h)
  handle-Quiet m k h km kk kh s = go (m s).0 (m s).1 (km s)
    where
      go :
          (r : Result _) (s' : Net W Conn)
          → seen s'.world ≡ seen s.world
          → seen (resume r k h s').1.world ≡ seen s.world
      go (ok a) s' e = kk a s' ∙ e
      go (err x) s' e = kh x s' ∙ e
      go (panic m) s' e = e

  pub seq-Quiet :
      {A B : Type 0} (m : M net A) (k : A → M net B)
      → Quiet m
      → ((a : A) → Quiet (k a))
      → Quiet (m >>= k)
  seq-Quiet m k km kk = handle-Quiet m k fail km kk (λ _ _. refl)

  module _ (unseen : Unseen net seen) where
    close_active-Quiet : (o : Option Conn) → Quiet (close_active net o)
    unfolding close_active
    close_active-Quiet none s = refl
    close_active-Quiet (some r) s = unseen.close r s.world

    activate-Quiet : (p i : ℕ) (r : Conn) → Quiet (activate net p i r)
    unfolding activate
    activate-Quiet p i r s =
        seq-Quiet (close_active net (s.client p).active) _ (close_active-Quiet (s.client p).active)
          (λ _ _. refl) s

    try_endpoint-Quiet :
        (ctx : Ctx) (p i : ℕ) (url : Bytes) (next : Err → M net (Unit {0}))
        → ((e : Err) → Quiet (next e))
        → Quiet (try_endpoint net ctx p i url next)
    unfolding try_endpoint
    try_endpoint-Quiet ctx p i url next quiet s =
        let closed : (r : Conn) (e : Err) → Quiet (close_conn net r >> next e) =
          λ r e t. quiet e _ ∙ unseen.close r t.world in
        handle-Quiet (on_world net (net.dial _ url)) _ _ (λ t. unseen.dial _ url t.world)
          (λ r t.
            handle-Quiet (on_world net (net.chain_id_of r _)) _ _
              (λ u. unseen.chain_id_of r _ u.world)
              (λ id. elim (Bool-cases (int_eq id (s.client p).chain_id)) [
                | inl same ↦ rw same (activate-Quiet p i r)
                | inr other ↦ rw other (closed r _)
              ])
              (λ e. closed r _) t)
          (λ e. quiet _) s

    visit-Quiet :
        (body : ℕ → Bytes → (Err → M net (Unit {0})) → M net (Unit {0})) (j : ℕ) (o : Option Bytes)
        (next : Err → M net (Unit {0}))
        → ((url : Bytes) → Quiet (body j url next))
        → Quiet (visit net body j o next)
    unfolding visit
    visit-Quiet body j none next quiet s = refl
    visit-Quiet body j (some url) next quiet s = quiet url s

    at_slot-Quiet :
        (ctx : Ctx) (p : ℕ) (o : Option ℕ) (next : Err → M net (Unit {0}))
        → ((e : Err) → Quiet (next e))
        → Quiet (at_slot net ctx p o next)
    unfolding at_slot
    at_slot-Quiet ctx p none next quiet s = refl
    at_slot-Quiet ctx p (some j) next quiet s =
        visit-Quiet (try_endpoint net ctx p) j (get_elem? (s.client p).endpoints j) next
          (λ url. try_endpoint-Quiet ctx p j url next quiet) s

    connect_from-Quiet :
        (ctx : Ctx) (p start n i : ℕ) (last : Option Err)
        → Quiet (connect_from net ctx p start n i last)
    unfolding connect_from
    connect_from-Quiet ctx p start zero i last s = refl
    connect_from-Quiet ctx p start (suc n) i last s =
        at_slot-Quiet ctx p (slot start i (length (s.client p).endpoints)) _
          (λ e. connect_from-Quiet ctx p start n (i + 1) (some e)) s

    try_submit_endpoint-Quiet :
        (ctx : Ctx) (p i : ℕ) (url : Bytes) (next : Err → M net (Unit {0}))
        → ((e : Err) → Quiet (next e))
        → Quiet (try_submit_endpoint net ctx p i url next)
    unfolding try_submit_endpoint
    try_submit_endpoint-Quiet ctx p i url next quiet s =
        handle-Quiet (on_world net (net.dial _ url)) _ _ (λ t. unseen.dial _ url t.world)
          (activate-Quiet p i) (λ e. quiet _) s

    connect_submit_from-Quiet :
        (ctx : Ctx) (p n i : ℕ) (last : Option Err) → Quiet (connect_submit_from net ctx p n i last)
    unfolding connect_submit_from
    connect_submit_from-Quiet ctx p zero i last s = refl
    connect_submit_from-Quiet ctx p (suc n) i last s =
        visit-Quiet (try_submit_endpoint net ctx p) _ _ _
          (λ url.
            try_submit_endpoint-Quiet ctx p _ url _
              (λ e. connect_submit_from-Quiet ctx p n (i + 1) (some e)))
          s

    pub reconnect-Quiet : (ctx : Ctx) (p : ℕ) → Quiet (reconnect net ctx p)
    unfolding reconnect connect connect_submit_only
    reconnect-Quiet ctx p s = elim (Bool-cases (s.client p).submit_only) [
      | inl only ↦
          rw only (connect_submit_from-Quiet ctx p (length (s.client p).endpoints) 0 none s)
      | inr any ↦
          rw any
            (connect_from-Quiet ctx p (s.client p).idx (length (s.client p).endpoints) 0 none s)
    ]

    pub connect_if_closed-Quiet :
        (ctx : Ctx) (p : ℕ) (o : Option Conn) → Quiet (connect_if_closed net ctx p o)
    unfolding connect_if_closed
    connect_if_closed-Quiet ctx p none s =
        seq-Quiet (reconnect net ctx p) _ (reconnect-Quiet ctx p) (λ _ _. refl) s
    connect_if_closed-Quiet ctx p (some r) s = refl

    call_active-Quiet :
        {A : Type 0} (fn : Conn → Exec W A) (o : Option Conn)
        → ((r : Conn) → QuietCall (fn r))
        → Quiet (call_active net fn o)
    unfolding call_active
    call_active-Quiet fn none quiet s = refl
    call_active-Quiet fn (some r) quiet s = quiet r s.world

    call_again-Quiet :
        {A : Type 0} (ctx : Ctx) (p : ℕ) (fn : Conn → Exec W A)
        → ((r : Conn) → QuietCall (fn r))
        → Quiet (call_again net ctx p fn)
    unfolding call_again
    call_again-Quiet ctx p fn quiet s =
        handle-Quiet (reconnect net ctx p) _ _ (reconnect-Quiet ctx p)
          (λ _ t. call_active-Quiet fn (t.client p).active quiet t) (λ _ _. refl) s

    -- A call with failover is seen only where the call itself is.
    pub with_client-Quiet :
        {A : Type 0} (ctx : Ctx) (p : ℕ) (fn : Conn → Exec W A)
        → ((r : Conn) → QuietCall (fn r))
        → Quiet (with_client net ctx p fn)
    unfolding with_client bump_idx
    with_client-Quiet ctx p fn quiet s =
        seq-Quiet (connect_if_closed net ctx p (s.client p).active) _
          (connect_if_closed-Quiet ctx p (s.client p).active)
          (λ cli.
            handle-Quiet (call_active net fn cli) _ _ (call_active-Quiet fn cli quiet) (λ _ _. refl)
              (λ e t. call_again-Quiet ctx p fn quiet _))
          s
