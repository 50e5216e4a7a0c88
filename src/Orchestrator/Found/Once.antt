-- ===== src/Orchestrator/Found/Once.antt =====
-- internal/orchestrator/engine.go: the map of submitted nonces along `onFound`.
use hash256_miner.Base.{
  ℕ, ◌≡◌, ◌≢◌, refl, true, false, Option, some, List, [], ◌∷◌, Bytes, text_eq_refl, Result, ok, err,
  panic, wrapping, pure, fail, Bool-cases, resume_rule, ◌⊎◌, inl, inr,
}
use hash256_miner.Orchestrator.Protocol.{WorkerEvent}
use hash256_miner.Orchestrator.Engine.{
  Env, Miner, Engine, Sys, on_chain, is_submitted, resolve_mode, start_job,
}
use hash256_miner.Orchestrator.Engine.Keeps.{
  KeepsEngine, handle-Keeps, resolve_mode-Keeps, start_job-Keeps,
}
use hash256_miner.Chain.Client.Calls.{block_number}
use hash256_miner.Chain.Reader.{mints_in_block}
use hash256_miner.Chain.Submitter.{submit_mine}
use hash256_miner.Orchestrator.Found.{
  submitted_key, accept_nonce, bump_factor, params_of, broadcast, submit_found, on_found,
}

first_key : (key : Bytes) (keys : List Bytes) → is_submitted key (key ∷ keys) ≡ true
unfolding is_submitted
first_key key keys = rw (text_eq_refl key) refl

-- A result is a value, or it is none.
pub Result-split : {A : Type 0} (r : Result A) → ((a : A) × (r ≡ ok a)) ⊎ ((a : A) → r ≢ ok a)
Result-split (ok a) = inl (a, refl)
Result-split (err e) = inr (λ a. λ h. cc)
Result-split (panic m) = inr (λ a. λ h. cc)

module _ (env : Env) where
  open env use {fl, net, lib, host}
  open net use {Ctx, Address, Key, Hash}

  pub bump_factor-Keeps : (ctx : Ctx) → KeepsEngine env (bump_factor env ctx)
  unfolding bump_factor
  bump_factor-Keeps ctx s =
      handle-Keeps env (on_chain env (block_number net ctx s.engine.reader.client)) _ _ (λ _. refl)
        (λ head.
          handle-Keeps env (on_chain env (mints_in_block net lib ctx s.engine.reader (some head))) _
            _ (λ _. refl) (λ _ _. refl) (λ _ _. refl))
        (λ _ _. refl) s

  broadcast-Keeps : (ctx : Ctx) (acc : Miner Address Key) → KeepsEngine env (broadcast env ctx acc)
  unfolding broadcast
  broadcast-Keeps ctx acc s =
      handle-Keeps env (bump_factor env ctx) _ fail (bump_factor-Keeps ctx)
        (λ bump s'.
          handle-Keeps env
            (on_chain env
              (submit_mine fl net lib ctx s'.engine.submitter (params_of env s'.engine acc bump)))
            pure _ (λ _. refl) (λ _ _. refl) (λ _ _. refl) s')
        (λ _ _. refl) s

  pub submit_found-Keeps :
      (ctx : Ctx) (acc : Miner Address Key) (w : ℕ) (nonce : Bytes)
      → KeepsEngine env (submit_found env ctx acc w nonce)
  unfolding submit_found
  submit_found-Keeps ctx acc w nonce =
      handle-Keeps env (broadcast env ctx acc) _ fail (broadcast-Keeps ctx acc)
        (λ tx.
          handle-Keeps env (resolve_mode env host.background) _ fail
            (resolve_mode-Keeps env host.background)
            (λ mode.
              handle-Keeps env (wrapping "restart job: %w" (start_job env ctx acc w mode)) _ fail
                (handle-Keeps env (start_job env ctx acc w mode) pure _
                  (start_job-Keeps env ctx acc w mode) (λ _ _. refl) (λ _ _. refl))
                (λ _ _. refl) (λ _ _. refl))
            (λ _ _. refl))
        (λ _ _. refl)

  abbrev pub key_of : Miner Address Key → WorkerEvent env.fl.F → Bytes
  key_of acc ev = submitted_key (host.addr_hex acc.account.address) ev.nonce

  -- What a call of `onFound` does to the map of submitted nonces.
  pub on_found_keys :
      (ctx : Ctx) (acc : Miner Address Key) (w : ℕ) (ev : WorkerEvent env.fl.F) (s : Sys env)
      → ((on_found env ctx acc w ev s).1 ≡ s)
        ⊎ ((is_submitted (key_of acc ev) s.engine.submitted ≡ false)
            × ((on_found env ctx acc w ev s).1.engine
                ≡ record s.engine { submitted = key_of acc ev ∷ s.engine.submitted }))
  unfolding on_found
  on_found_keys ctx acc w ev s =
      let key = key_of acc ev in
      let P : Result (Option (Hash × ℕ)) × Sys env → Type 0 = λ out.
        (out.1 ≡ s)
        ⊎ ((is_submitted key s.engine.submitted ≡ false)
            × (out.1.engine ≡ record s.engine { submitted = key ∷ s.engine.submitted })) in
      resume_rule P (accept_nonce env s.engine ev.nonce) _ _ s
        (λ nonce _. elim (Bool-cases (is_submitted key s.engine.submitted)) [
          | inl again ↦ rw again (inl refl)
          | inr new ↦ rw new (
              inr (
                refl,
                submit_found-Keeps ctx acc w nonce (record s {
                  engine = record s.engine { submitted = key ∷ s.engine.submitted };
                }),
              ))
        ])
        (λ _ _. inl refl) (λ _ _. inl refl)

  on_found_marks :
      (ctx : Ctx) (acc : Miner Address Key) (w : ℕ) (ev : WorkerEvent env.fl.F) (s : Sys env)
      {nonce : Bytes}
      → accept_nonce env s.engine ev.nonce ≡ ok nonce
      → is_submitted (key_of acc ev) (on_found env ctx acc w ev s).1.engine.submitted ≡ true
  unfolding on_found
  on_found_marks ctx acc w ev s {nonce} e =
      let key = key_of acc ev in
      let marked : Engine env = record s.engine { submitted = key ∷ s.engine.submitted } in
      elim (Bool-cases (is_submitted key s.engine.submitted)) [
        | inl again ↦ rw e (rw again again)
        | inr new ↦ rw e (
            rw new (
              rw (submit_found-Keeps ctx acc w nonce (record s { engine = marked }))
                (first_key key s.engine.submitted)))
      ]

  -- An accepted nonce that is new enters the map, and nothing else of the engine changes.
  pub on_found_new :
      (ctx : Ctx) (acc : Miner Address Key) (w : ℕ) (ev : WorkerEvent env.fl.F) (s : Sys env)
      {nonce : Bytes}
      → accept_nonce env s.engine ev.nonce ≡ ok nonce
      → is_submitted (key_of acc ev) s.engine.submitted ≡ false
      → (on_found env ctx acc w ev s).1.engine
        ≡ record s.engine { submitted = key_of acc ev ∷ s.engine.submitted }
  unfolding on_found
  on_found_new ctx acc w ev s {nonce} e new = rw e (
      rw new (
        submit_found-Keeps ctx acc w nonce (record s {
          engine = record s.engine { submitted = key_of acc ev ∷ s.engine.submitted };
        })))

  pub on_found_known :
      (ctx : Ctx) (acc : Miner Address Key) (w : ℕ) (ev : WorkerEvent env.fl.F) (s : Sys env)
      → is_submitted (key_of acc ev) s.engine.submitted ≡ true
      → (on_found env ctx acc w ev s).1 ≡ s
  unfolding on_found
  on_found_known ctx acc w ev s known =
      resume_rule (λ out. out.1 ≡ s) (accept_nonce env s.engine ev.nonce) _ _ s
        (λ nonce _. rw known refl) (λ _ _. refl) (λ _ _. refl)

  pub on_found_refused :
      (ctx : Ctx) (acc : Miner Address Key) (w : ℕ) (ev : WorkerEvent env.fl.F) (s : Sys env)
      → ((nonce : Bytes) → accept_nonce env s.engine ev.nonce ≢ ok nonce)
      → (on_found env ctx acc w ev s).1 ≡ s
  unfolding on_found
  on_found_refused ctx acc w ev s bad =
      resume_rule (λ out. out.1 ≡ s) (accept_nonce env s.engine ev.nonce) _ _ s
        (λ nonce e. absurd (bad nonce e)) (λ _ _. refl) (λ _ _. refl)

  -- When a nonce text is reported a second time for an account, directly after the first, by
  -- whichever worker and in whatever context, the second call leaves the engine, the clients and
  -- the world as they were.
  pub on_found_once :
      (ctx ctx' : Ctx) (acc : Miner Address Key) (w w' : ℕ) (ev ev' : WorkerEvent env.fl.F)
      (s : Sys env)
      → ev'.nonce ≡ ev.nonce
      → (on_found env ctx' acc w' ev' (on_found env ctx acc w ev s).1).1
        ≡ (on_found env ctx acc w ev s).1
  on_found_once ctx ctx' acc w w' ev ev' s same =
      elim (Result-split (accept_nonce env s.engine ev.nonce)) [
        | inl (nonce, e) ↦
            on_found_known ctx' acc w' ev' (on_found env ctx acc w ev s).1
              (rw same (on_found_marks ctx acc w ev s e))
        | inr bad ↦
            rw (on_found_refused ctx acc w ev s bad)
              (on_found_refused ctx' acc w' ev' s (rw same bad))
      ]

-- No key stands in the list twice.
pub Distinct : List Bytes → Type 0
Distinct [] = Unit
Distinct (k ∷ ks) = (is_submitted k ks ≡ false) × Distinct ks

module _ (env : Env) where
  open env use {net}
  open net use {Ctx, Address, Key}

  pub on_found-Distinct :
      (ctx : Ctx) (acc : Miner Address Key) (w : ℕ) (ev : WorkerEvent env.fl.F) (s : Sys env)
      → Distinct s.engine.submitted
      → Distinct (on_found env ctx acc w ev s).1.engine.submitted
  unfolding Distinct
  on_found-Distinct ctx acc w ev s h = elim (on_found_keys env ctx acc w ev s) [
    | inl same ↦ rw same h
    | inr (new, e) ↦ rw e (new, h)
  ]
