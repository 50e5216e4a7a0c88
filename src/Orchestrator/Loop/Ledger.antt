-- ===== src/Orchestrator/Loop/Ledger.antt =====
-- internal/orchestrator/engine.go: `handleWorkerEvents` as an abstract ledger, the set of the keys that
-- were claimed, which knows no order, no channel, no RPC and no errors.
pub mod Order
use hash256_miner.Base.{
  ℕ, ◌≡◌, ◌≢◌, refl, sym, ap, ◌∙◌, fun_ext, Bool, true, false, ◌||◌, Option, none, some, List, [],
  ◌∷◌, Bytes, codes, text_eq, Result, ok, err, panic, resume_rule, pure, Bool-cases, inl, inr, ◌⊎◌,
  String, if◌then◌else◌, text_eq_iff,
}
use hash256_miner.Orchestrator.Protocol.{WorkerEvent}
use hash256_miner.Orchestrator.Engine.{Env, Miner, Engine, Sys, is_submitted, get_difficulty}
use hash256_miner.Orchestrator.Engine.Errors.{NoError, handle-NoError, pure-NoError}
use hash256_miner.Orchestrator.Found.{accept_nonce, on_found}
use hash256_miner.Orchestrator.Found.Once.{
  key_of, on_found_known, on_found_refused, on_found_new, Result-split,
}
use hash256_miner.Orchestrator.Loop.{on_progress, handle_event, handle_worker_events}

-- A set of keys, and a claim, which adds a key to it.
abbrev pub KeySet : Type 0
KeySet = Bytes → Bool

pub claim : Option Bytes → KeySet → KeySet
claim none keys q = keys q
claim (some k) keys q = text_eq k q || keys q

-- The keys in a list.
abbrev pub members : List Bytes → KeySet
members keys q = is_submitted q keys

key_if_ok : Bytes → Result Bytes → Option Bytes
key_if_ok k (ok nonce) = some k
key_if_ok k (err e) = none
key_if_ok k (panic m) = none

key_if_ok-none : (k : Bytes) (r : Result Bytes) → ((a : Bytes) → r ≢ ok a) → key_if_ok k r ≡ none
unfolding key_if_ok
key_if_ok-none k (ok a) h = absurd (h a refl)
key_if_ok-none k (err e) h = refl
key_if_ok-none k (panic m) h = refl

module _ (env : Env) where
  open env use {fl, net}
  open fl use {F}
  open net use {Ctx, Address, Key}

  -- The key that an event claims: that of a found nonce which the engine accepts.
  pub claimed_by : Engine env → Miner Address Key → WorkerEvent F → Option Bytes
  unfolding key_if_ok
  claimed_by e acc ev =
      if text_eq ev.event (codes "found")
      then key_if_ok (key_of env acc ev) (accept_nonce env e ev.nonce)
      else none

  -- The ledger of a run of events.
  pub ledger : Engine env → Miner Address Key → List (WorkerEvent F) → KeySet → KeySet
  unfolding claim claimed_by
  ledger e acc [] keys = keys
  ledger e acc (ev ∷ evs) keys = ledger e acc evs (claim (claimed_by e acc ev) keys)

  -- The engines that accept the same nonces.
  record SameChecks (e e' : Engine env) : Type 0 where
    pub cfg : e'.cfg ≡ e.cfg
    pub challenge : e'.challenge ≡ e.challenge
    pub difficulty : e'.difficulty ≡ e.difficulty

  claimed_by_same :
      (e e' : Engine env) (acc : Miner Address Key) (ev : WorkerEvent F)
      → SameChecks e e'
      → claimed_by e' acc ev ≡ claimed_by e acc ev
  unfolding claimed_by accept_nonce get_difficulty
  claimed_by_same e e' acc ev same = rw (same.cfg, same.challenge, same.difficulty) refl

  members-new : (k : Bytes) (keys : List Bytes) → members (k ∷ keys) ≡ claim (some k) (members keys)
  unfolding claim is_submitted
  members-new k keys =
      fun_ext
        λ q. elim (Bool-cases (text_eq k q)) [ inl same ↦ rw same refl | inr other ↦ rw other refl ]

  members-known :
      (k : Bytes) (keys : List Bytes)
      → is_submitted k keys ≡ true
      → claim (some k) (members keys) ≡ members keys
  unfolding claim
  members-known k keys known = fun_ext λ q. elim (Bool-cases (text_eq k q)) [
    | inl same ↦ rw (same, ← (text_eq_iff k q).0 same, known) refl
    | inr other ↦ rw other refl
  ]

  -- What one event does to the engine.
  record Claims (acc : Miner Address Key) (ev : WorkerEvent F) (e e' : Engine env) : Type 0 where
    pub checks : SameChecks e e'
    pub keys : members e'.submitted ≡ claim (claimed_by e acc ev) (members e.submitted)

  unclaimed :
      (acc : Miner Address Key) (ev : WorkerEvent F) (e : Engine env)
      → claimed_by e acc ev ≡ none
      → Claims acc ev e e
  unfolding claim
  unclaimed acc ev e h = record {
    checks = record { cfg = refl; challenge = refl; difficulty = refl };
    keys = rw h refl;
  }

  found-Claims :
      (ctx : Ctx) (acc : Miner Address Key) (w : ℕ) (ev : WorkerEvent F) (s : Sys env)
      → text_eq ev.event (codes "found") ≡ true
      → Claims acc ev s.engine (on_found env ctx acc w ev s).1.engine
  unfolding claimed_by
  found-Claims ctx acc w ev s is_found = elim (Result-split (accept_nonce env s.engine ev.nonce)) [
    | inl (nonce, e) ↦ elim (Bool-cases (is_submitted (key_of env acc ev) s.engine.submitted)) [
      | inl known ↦ rw (on_found_known env ctx acc w ev s known) (record {
        checks = record { cfg = refl; challenge = refl; difficulty = refl };
        keys = rw (is_found, e) (sym (members-known (key_of env acc ev) s.engine.submitted known));
      })
      | inr new ↦ rw (on_found_new env ctx acc w ev s e new) (record {
        checks = record { cfg = refl; challenge = refl; difficulty = refl };
        keys = rw (is_found, e) (members-new (key_of env acc ev) s.engine.submitted);
      })
    ]
    | inr bad ↦ rw (on_found_refused env ctx acc w ev s bad) (
        unclaimed acc ev s.engine
          (rw is_found (key_if_ok-none _ (accept_nonce env s.engine ev.nonce) bad)))
  ]

  progress_is_not_found :
      (event : Bytes)
      → text_eq event (codes "progress") ≡ true
      → text_eq event (codes "found") ≡ false
  unfolding text_eq
  progress_is_not_found event h = let e = (text_eq_iff event (codes "progress")).0 h in rw e refl

  event-Claims :
      (ctx : Ctx) (acc : Miner Address Key) (w : ℕ) (ev : WorkerEvent F) (s : Sys env)
      → Claims acc ev s.engine (handle_event env ctx acc w ev s).1.engine
  unfolding handle_event on_progress claimed_by claim
  event-Claims ctx acc w ev s = elim (Bool-cases (text_eq ev.event (codes "progress"))) [
    | inl a ↦ rw a (record {
      checks = record { cfg = refl; challenge = refl; difficulty = refl };
      keys = rw (progress_is_not_found ev.event a) refl;
    })
    | inr a ↦ rw a (elim (Bool-cases (text_eq ev.event (codes "found"))) [
      | inl b ↦ rw b (
          let P : Result (Unit {0}) × Sys env → Type 0 =
            λ out. Claims acc ev s.engine out.1.engine in
          let claims = found-Claims ctx acc w ev s b in
          resume_rule P (on_found env ctx acc w ev s).0 _ _ (on_found env ctx acc w ev s).1
            (λ _ _. claims) (λ _ _. claims) (λ _ _. claims))
      | inr b ↦ rw b (unclaimed acc ev s.engine (rw b refl))
    ])
  ]

  ledger_same :
      (e e' : Engine env) (acc : Miner Address Key) (evs : List (WorkerEvent F)) (keys : KeySet)
      → SameChecks e e'
      → ledger e' acc evs keys ≡ ledger e acc evs keys
  unfolding ledger
  ledger_same e e' acc [] keys same = refl
  ledger_same e e' acc (ev ∷ evs) keys same =
      rw (claimed_by_same e e' acc ev same)
        (ledger_same e e' acc evs (claim (claimed_by e acc ev) keys) same)

  handle_event-NoError :
      (ctx : Ctx) (acc : Miner Address Key) (w : ℕ) (ev : WorkerEvent F)
      → NoError env (handle_event env ctx acc w ev)
  unfolding handle_event on_progress
  handle_event-NoError ctx acc w ev s e = elim (Bool-cases (text_eq ev.event (codes "progress"))) [
    | inl a ↦ rw a (λ h. cc)
    | inr a ↦ rw a (elim (Bool-cases (text_eq ev.event (codes "found"))) [
      | inl b ↦ rw b (
          handle-NoError env (on_found env ctx acc w ev) (λ _. pure tt) (λ _. pure tt)
            (λ _. pure-NoError env tt) (λ _. pure-NoError env tt) s e)
      | inr b ↦ rw b (λ h. cc)
    ])
  ]

  -- `handleWorkerEvents` refines an abstract ledger, which knows no order, no RPC, no fees and no
  -- errors: unless a call panics, the run ends without an error, and the set of the submitted keys
  -- is the set before it with the key of each found nonce that the engine accepts.
  pub handle_worker_events-ledger :
      (ctx : Ctx) (acc : Miner Address Key) (w : ℕ) (evs : List (WorkerEvent F)) (s : Sys env)
      → ((m : String) × ((handle_worker_events env ctx acc w evs s).0 ≡ panic m))
        ⊎ (((handle_worker_events env ctx acc w evs s).0 ≡ ok tt)
            × (members (handle_worker_events env ctx acc w evs s).1.engine.submitted
                ≡ ledger s.engine acc evs (members s.engine.submitted)))
  unfolding handle_worker_events ledger
  handle_worker_events-ledger ctx acc w [] s = inr (refl, refl)
  handle_worker_events-ledger ctx acc w (ev ∷ evs) s =
      let s' = (handle_event env ctx acc w ev s).1 in
      let claims = event-Claims ctx acc w ev s in
      let P : Result (Unit {0}) × Sys env → Type 0 = λ out.
        ((m : String) × (out.0 ≡ panic m))
        ⊎ ((out.0 ≡ ok tt)
            × (members out.1.engine.submitted
                ≡ ledger s.engine acc (ev ∷ evs) (members s.engine.submitted))) in
      resume_rule P (handle_event env ctx acc w ev s).0 _ _ s'
        (λ _ _. elim (handle_worker_events-ledger ctx acc w evs s') [
          | inl p ↦ inl p
          | inr (done, same) ↦ inr (
            done,
            same
                ∙ ledger_same s.engine s'.engine acc evs (members s'.engine.submitted) claims.checks
                ∙ ap (ledger s.engine acc evs) claims.keys,
          )
        ])
        (λ e h. absurd (handle_event-NoError ctx acc w ev s e h)) (λ m _. inl (m, refl))
