-- ===== src/Orchestrator/Loop/Payments.antt =====
-- internal/orchestrator/engine.go: the transactions of a run of `handleWorkerEvents`.
use hash256_miner.Base.{
  ℕ, refl, sym, ap, ◌∙◌, List, [], ◌∷◌, ◌++◌, append_assoc, append-nil, Bytes, codes, text_eq,
  Result, resume_rule, Bool-cases, inl, inr,
}
use hash256_miner.Chain.Submitter.{Submitter}
use hash256_miner.Orchestrator.Protocol.{WorkerEvent}
use hash256_miner.Orchestrator.Engine.{Env, Miner, Sys}
use hash256_miner.Orchestrator.Found.{on_found}
use hash256_miner.Orchestrator.Found.Payments.{
  SeesPayments, Payments, no_keys, new_key, PaidFor, on_found-PaidFor,
}
use hash256_miner.Orchestrator.Loop.{on_progress, handle_event, handle_worker_events}

module _ (env : Env) where
  open env use {fl, net, lib}
  open net use {W, Ctx, Address, Key, Signed}

  Payments-append :
      {p : Submitter fl net lib} {key : Key} {a b c : List Bytes} {x y : List Signed}
      → Payments env p key a b x
      → Payments env p key b c y
      → Payments env p key a c (x ++ y)
  Payments-append no_keys rest = rest
  Payments-append {y = y} (new_key {a = a} {l = l} k new pays more) rest =
      rw (append_assoc a l y) (new_key k new pays (Payments-append more rest))

  module _ (seen : W → List Signed) (sees : SeesPayments env seen) where
    handle_event-PaidFor :
        (ctx : Ctx) (acc : Miner Address Key) (w : ℕ) (ev : WorkerEvent fl.F) (s : Sys env)
        → PaidFor env seen acc s (handle_event env ctx acc w ev s).1
    unfolding handle_event on_progress
    handle_event-PaidFor ctx acc w ev s =
        let idle = append-nil (seen s.chain.world) in
        elim (Bool-cases (text_eq ev.event (codes "progress"))) [
          | inl a ↦
              rw a (record { sent = []; grown = sym idle; payments = no_keys; submitter = refl })
          | inr a ↦ rw a (elim (Bool-cases (text_eq ev.event (codes "found"))) [
            | inl b ↦ rw b (
                let P : Result (Unit {0}) × Sys env → Type 0 =
                  λ out. PaidFor env seen acc s out.1 in
                let paid = on_found-PaidFor env seen sees ctx acc w ev s in
                resume_rule P (on_found env ctx acc w ev s).0 _ _ (on_found env ctx acc w ev s).1
                  (λ _ _. paid) (λ _ _. paid) (λ _ _. paid))
            | inr b ↦
                rw b (record { sent = []; grown = sym idle; payments = no_keys; submitter = refl })
          ])
        ]

    PaidFor-join :
        {acc : Miner Address Key} {s t u : Sys env}
        → PaidFor env seen acc s t
        → PaidFor env seen acc t u
        → PaidFor env seen acc s u
    PaidFor-join {s = s} first rest = record {
      sent = first.sent ++ rest.sent;
      grown =
          rest.grown
          ∙ ap (λ l. l ++ rest.sent) first.grown
          ∙ append_assoc (seen s.chain.world) first.sent rest.sent;
      payments = Payments-append first.payments (rw first.submitter at rest.payments);
      submitter = rest.submitter ∙ first.submitter;
    }

    -- Whatever a worker reports and whatever fails, also by a panic, a run of `handleWorkerEvents`
    -- hands transactions to the node only for keys that are new in the map of submitted nonces at
    -- that moment: for each such key none, or one, signed with the account's key, of no value, and
    -- to the contract, which is handed over once, or a second time by the failover. The observer of
    -- the transactions must see each one that is handed to a node, and no other call.
    pub handle_worker_events-PaidFor :
        (ctx : Ctx) (acc : Miner Address Key) (w : ℕ) (evs : List (WorkerEvent fl.F)) (s : Sys env)
        → PaidFor env seen acc s (handle_worker_events env ctx acc w evs s).1
    unfolding handle_worker_events
    handle_worker_events-PaidFor ctx acc w [] s = record {
      sent = [];
      grown = sym (append-nil (seen s.chain.world));
      payments = no_keys;
      submitter = refl;
    }
    handle_worker_events-PaidFor ctx acc w (ev ∷ evs) s =
        let t = (handle_event env ctx acc w ev s).1 in
        let first = handle_event-PaidFor ctx acc w ev s in
        resume_rule (λ out. PaidFor env seen acc s out.1) (handle_event env ctx acc w ev s).0 _ _ t
          (λ _ _. PaidFor-join first (handle_worker_events-PaidFor ctx acc w evs t)) (λ _ _. first)
          (λ _ _. first)
