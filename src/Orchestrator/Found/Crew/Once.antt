-- ===== src/Orchestrator/Found/Crew/Once.antt =====
-- internal/orchestrator/engine.go: the keys that are broadcast for, with several workers.
use hash256_miner.Base.{
  ℕ, ◌+◌, ◌≡◌, ◌≤◌, refl, arith, Bool, true, false, Bool-cases, inl, inr, Option, none, some, List,
  [], ◌∷◌, Bytes, text_eq, text_eq_iff, ok, lift, pure, ◌>>=◌, >>=-run, resume_rule,
}
use hash256_miner.Orchestrator.Protocol.{WorkerEvent}
use hash256_miner.Orchestrator.Engine.{Env, Miner, Sys, Act, is_submitted}
use hash256_miner.Orchestrator.Found.{claim_found, on_found, submit_found, accept_nonce}
use hash256_miner.Orchestrator.Found.Once.{key_of}
use hash256_miner.Orchestrator.Found.Crew.{
  Picks, front, later, Crew, CrewStep, claim_new, broadcast_one, others, Reached, idle_crew,
  crew_step, occurrences,
}

-- The number of claims that a key may have: one if it is in the map.
pub mark : Bool → ℕ
mark true = 1
mark false = 0

occurrences-Picks :
    {k : Bytes} {xs rest : List Bytes} (q : Bytes)
    → Picks k xs rest
    → occurrences q xs ≡ occurrences q (k ∷ []) + occurrences q rest
unfolding occurrences
occurrences-Picks q front = ground arith
occurrences-Picks q (later p) = ground (arith, occurrences-Picks q p)

module _ (env : Env) where
  open env use {fl, net, host}
  open net use {Ctx, Address, Key, Hash}

  abbrev halves : Ctx → Miner Address Key → ℕ → WorkerEvent fl.F → Act env (Option (Hash × ℕ))
  halves ctx acc w ev = claim_found env acc ev >>= (λ claimed. elim claimed [
    | none ↦ pure none
    | some nonce ↦ submit_found env ctx acc w nonce
  ])

  -- `onFound` is its first half, and the broadcast where that gave a nonce.
  on_found-halves :
      (ctx : Ctx) (acc : Miner Address Key) (w : ℕ) (ev : WorkerEvent fl.F) (s : Sys env)
      → on_found env ctx acc w ev s ≡ halves ctx acc w ev s
  unfolding on_found claim_found
  on_found-halves ctx acc w ev s =
      resume_rule (λ out. out ≡ halves ctx acc w ev s) (accept_nonce env s.engine ev.nonce) _ _ s
        (λ nonce e. rw e (elim (Bool-cases (is_submitted (key_of env acc ev) s.engine.submitted)) [
          | inl again ↦ rw again refl
          | inr new ↦ rw new refl
        ]))
        (λ x e. rw e refl) (λ m e. rw e refl)

  claim_found-new :
      (acc : Miner Address Key) (ev : WorkerEvent fl.F) (s : Sys env) {nonce : Bytes}
      → (claim_found env acc ev s).0 ≡ ok (some nonce)
      → (is_submitted (key_of env acc ev) s.engine.submitted ≡ false)
        × ((claim_found env acc ev s).1.engine.submitted ≡ key_of env acc ev ∷ s.engine.submitted)
  unfolding claim_found
  claim_found-new acc ev s h =
      let (nonce, e, r, _) = >>=-run (lift (accept_nonce env s.engine ev.nonce)) _ s h in
      elim (Bool-cases (is_submitted (key_of env acc ev) s.engine.submitted)) [
        | inl again ↦ let clash = rw again at r in cc
        | inr new ↦ (new, rw (e, new) refl)
      ]

  -- Claims and broadcasts of a key are at most one together, and none of a key that is not in the map.
  abbrev Counted : Crew env → Type 0
  Counted c =
      (q : Bytes)
      → occurrences q c.claimed + occurrences q c.sent
        ≤ mark (is_submitted q c.sys.engine.submitted)

  Counted-CrewStep : {c d : Crew env} → CrewStep env c d → Counted c → Counted d
  unfolding occurrences mark is_submitted
  Counted-CrewStep {c} (claim_new acc ev h) counted = λ q.
      let (fresh, marked) = claim_found-new acc ev c.sys h in
      rw marked (elim (Bool-cases (text_eq (key_of env acc ev) q)) [
        | inl same ↦
            let unclaimed : is_submitted q c.sys.engine.submitted ≡ false =
              rw (← (text_eq_iff (key_of env acc ev) q).0 same) fresh in
            let none_yet = rw unclaimed at (counted q) in rw same (omega arith)
        | inr other ↦ rw other (counted q)
      ])
  Counted-CrewStep {c} (broadcast_one picked) counted =
      λ q. let before = counted q in let split = occurrences-Picks q picked in ground arith
  Counted-CrewStep {c} (others sys same) counted = λ q. rw same (counted q)

  Reached-Counted : {s : Sys env} {c : Crew env} → Reached env s c → Counted c
  unfolding occurrences
  Reached-Counted idle_crew = λ q. omega arith
  Reached-Counted (crew_step run step) = Counted-CrewStep step (Reached-Counted run)

  -- However the calls of `onFound` for several workers interleave, with the section under
  -- `submittedMu` and the broadcast as separate steps and any other changes of the engine and the
  -- chain between them that keep the map, a key has at most one claim in hand or broadcast begun,
  -- and none if it is not in the map of submitted nonces.
  pub crew_claims_bound :
      {s : Sys env} {c : Crew env} (q : Bytes)
      → Reached env s c
      → occurrences q c.claimed + occurrences q c.sent
        ≤ mark (is_submitted q c.sys.engine.submitted)
  crew_claims_bound q run = Reached-Counted run q
