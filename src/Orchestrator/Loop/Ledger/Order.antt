-- ===== src/Orchestrator/Loop/Ledger/Order.antt =====
-- internal/orchestrator/engine.go: the order of the events of `handleWorkerEvents`.
use mathlib.Core.List.Perm
use mathlib.Core.List.{Perm, foldr}
use hash256_miner.Base.{
  ℕ, ◌≡◌, refl, sym, ◌∙◌, ap, fun_ext, Bool, true, false, ◌||◌, Option, none, some, List, [], ◌∷◌,
  Bytes, text_eq, ok, panic, String, ◌⊎◌, inl, inr,
}
use hash256_miner.Orchestrator.Protocol.{WorkerEvent}
use hash256_miner.Orchestrator.Engine.{Env, Miner, Engine, Sys}
use hash256_miner.Orchestrator.Loop.{handle_worker_events}
use hash256_miner.Orchestrator.Loop.Ledger.{
  KeySet, claim, members, claimed_by, ledger, handle_worker_events-ledger,
}

KeySet-set : IsSet KeySet
KeySet-set = hlevel

or_swap : (a b c : Bool) → (a || (b || c)) ≡ (b || (a || c))
or_swap true true c = refl
or_swap true false c = refl
or_swap false b c = refl

claim_comm : (a b : Option Bytes) (keys : KeySet) → claim a (claim b keys) ≡ claim b (claim a keys)
unfolding claim
claim_comm none b keys = refl
claim_comm (some k) none keys = refl
claim_comm (some k) (some j) keys = fun_ext λ q. or_swap (text_eq k q) (text_eq j q) (keys q)

module _ (env : Env) where
  open env use {fl, net}
  open net use {Ctx, Address, Key}

  module _ (e : Engine env) (acc : Miner Address Key) where
    claim_event : WorkerEvent fl.F → KeySet → KeySet
    claim_event ev keys = claim (claimed_by env e acc ev) keys

    ledger-claim :
        (evs : List (WorkerEvent fl.F)) (o : Option Bytes) (keys : KeySet)
        → ledger env e acc evs (claim o keys) ≡ claim o (ledger env e acc evs keys)
    unfolding ledger
    ledger-claim [] o keys = refl
    ledger-claim (ev ∷ evs) o keys =
        rw (claim_comm (claimed_by env e acc ev) o keys)
          (ledger-claim evs o (claim (claimed_by env e acc ev) keys))

    ledger-foldr :
        (evs : List (WorkerEvent fl.F)) (keys : KeySet)
        → ledger env e acc evs keys ≡ foldr claim_event keys evs
    unfolding ledger claim_event
    ledger-foldr [] keys = refl
    ledger-foldr (ev ∷ evs) keys =
        ledger-claim evs (claimed_by env e acc ev) keys
        ∙ ap (claim (claimed_by env e acc ev)) (ledger-foldr evs keys)

    -- The ledger of a run is that of its events in any other order.
    ledger-perm :
        {evs evs' : List (WorkerEvent fl.F)} (keys : KeySet)
        → Perm evs evs'
        → ledger env e acc evs keys ≡ ledger env e acc evs' keys
    unfolding claim_event
    ledger-perm {evs} {evs'} keys p =
        ledger-foldr evs keys
        ∙ Perm.foldr-eq KeySet-set claim_event
            (λ a b. claim_comm (claimed_by env e acc a) (claimed_by env e acc b)) p keys
        ∙ sym (ledger-foldr evs' keys)

  -- Two runs of `handleWorkerEvents` from the same state on the same events, in different orders,
  -- end without an error and with the same set of submitted keys, unless a call panics in one of
  -- them.
  pub handle_worker_events-order :
      (ctx : Ctx) (acc : Miner Address Key) (w : ℕ) {evs evs' : List (WorkerEvent fl.F)}
      (s : Sys env)
      → Perm evs evs'
      → let r = handle_worker_events env ctx acc w evs s in
        let r' = handle_worker_events env ctx acc w evs' s in
        ((m : String) × ((r.0 ≡ panic m) ⊎ (r'.0 ≡ panic m)))
        ⊎ ((r.0 ≡ ok tt)
            × (r'.0 ≡ ok tt)
            × (members r.1.engine.submitted ≡ members r'.1.engine.submitted))
  handle_worker_events-order ctx acc w {evs} {evs'} s p =
      elim (handle_worker_events-ledger env ctx acc w evs s) [
        | inl (m, h) ↦ inl (m, inl h)
        | inr (done, same) ↦ elim (handle_worker_events-ledger env ctx acc w evs' s) [
          | inl (m, h) ↦ inl (m, inr h)
          | inr (done', same') ↦ inr (
            done,
            done',
            same ∙ ledger-perm s.engine acc (members s.engine.submitted) p ∙ sym same',
          )
        ]
      ]
