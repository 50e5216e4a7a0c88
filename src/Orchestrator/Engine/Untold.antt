-- ===== src/Orchestrator/Engine/Untold.antt =====
-- internal/orchestrator/engine.go: `retargetAll` before an observer that does not see commands either.
use hash256_miner.Base.{ℕ, ◌≡◌, refl, ◌∙◌, List, [], ◌∷◌, Bytes, Result, resume_rule, pos}
use hash256_miner.Orchestrator.Protocol.{Command, retarget}
use hash256_miner.Orchestrator.Engine.{
  Env, WorkerSlot, Sys, get_challenge_for, retarget_one, retarget_each, retarget_all,
}
use hash256_miner.Orchestrator.Engine.Unseen.{UnseenViews, UnseenWorkers, ask-unseen}

-- The observer sees no view call, no worker and no command.
pub record Blind {L : Type 0} (env : Env) (seen : env.net.W → L) : Type 0 where
  pub views : UnseenViews env seen
  pub workers : UnseenWorkers env seen
  pub send : (id : ℕ) (cmd : Command) (w : env.net.W) → seen (env.host.send id cmd w).1 ≡ seen w

module _ {L : Type 0} (env : Env) (seen : env.net.W → L) where
  open env use {net, host}
  open net use {Address, Key}

  -- A call that is not seen.
  abbrev pub Same : {A : Type 0} → Sys env → Result A × Sys env → Type 0
  Same s out = seen out.1.chain.world ≡ seen s.chain.world

  module _ (blind : Blind env seen) where
    retarget_one-Same :
        (slot : WorkerSlot Address Key) (diff : Bytes) (s : Sys env)
        → Same s (retarget_one env slot diff s)
    unfolding retarget_one
    retarget_one-Same slot diff s =
        let ctx = net.with_timeout host.background (pos 4000000000) s.chain.world in
        let asked = get_challenge_for env ctx slot.miner.account.address s in
        let quiet : Same s asked =
          ask-unseen env seen blind.views ctx slot.miner.account.address s in
        resume_rule (Same s) asked.0 _ _ asked.1
          (λ ch _.
            let cmd = retarget (record { challenge = ch; difficulty = diff }) in
            let told = host.send slot.worker cmd asked.1.chain.world in
            let quiet' : seen told.1 ≡ seen s.chain.world =
              blind.send slot.worker cmd asked.1.chain.world ∙ quiet in
            let after : Sys env = record asked.1 {
              chain = record asked.1.chain { world = told.1 };
            } in
            resume_rule (Same s) told.0 _ _ after (λ _ _. quiet') (λ _ _. quiet') (λ _ _. quiet'))
          (λ _ _. quiet) (λ _ _. quiet)

    retarget_each-Same :
        (slots : List (WorkerSlot Address Key)) (diff : Bytes) (s : Sys env)
        → Same s (retarget_each env slots diff s)
    unfolding retarget_each
    retarget_each-Same [] diff s = refl
    retarget_each-Same (slot ∷ slots) diff s =
        let one = retarget_one env slot diff s in
        let quiet : Same s one = retarget_one-Same slot diff s in
        resume_rule (Same s) one.0 _ _ one.1 (λ _ _. retarget_each-Same slots diff one.1 ∙ quiet)
          (λ _ _. quiet) (λ _ _. quiet)

    pub retarget_all-Same : (s : Sys env) → Same s (retarget_all env s)
    unfolding retarget_all
    retarget_all-Same s = retarget_each-Same s.engine.workers _ s
