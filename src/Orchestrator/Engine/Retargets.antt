-- ===== src/Orchestrator/Engine/Retargets.antt =====
-- internal/orchestrator/engine.go: what `retargetAll` sends, as an observer of the world sees it: the list of
-- the commands that were handed to the workers.
use hash256_miner.Base.{
  ◌≡◌, refl, sym, ap, ◌∙◌, List, [], ◌∷◌, ◌++◌, append_assoc, append-nil, Bytes, codes, String, Err,
  Result, ok, err, panic, resume_rule, resume, fail, >>=-ok, ok-injective, pos,
}
use hash256_miner.Std.Hex.{hex_encode}
use hash256_miner.Chain.Client.{Net}
use hash256_miner.Chain.Reader.{Reader, get_challenge}
use hash256_miner.Orchestrator.Codec.{difficulty_to_hex32, challenge_to_hex32}
use hash256_miner.Orchestrator.Protocol.{retarget}
use hash256_miner.Orchestrator.Engine.{
  Env, WorkerSlot, Sys, Act, on_chain, get_difficulty, get_challenge_for, retarget_one,
  retarget_each, retarget_all,
}
use hash256_miner.Orchestrator.Engine.Seen.{Sent, SeesCommands}
use hash256_miner.Orchestrator.Engine.Unseen.{ask-unseen}
use hash256_miner.Orchestrator.Engine.Keeps.{get_challenge_for-Keeps}

module _ (env : Env) where
  open env use {net, lib, host}
  open net use {W, Ctx, Conn, Address, Key}

  -- The commands that the slots are sent, in their order: none where the account's challenge cannot be
  -- read, and else one, with that challenge and the text of the difficulty.
  pub data Retargets (reader : Reader net lib) (diff : Bytes)
      : List (WorkerSlot Address Key) → List Sent → Type 0 where
    no_slots : Retargets reader diff [] []
    unread :
        {slot : WorkerSlot Address Key} {slots : List (WorkerSlot Address Key)} {sent : List Sent}
        {e : Err} (ctx : Ctx) (at : Net W Conn)
        → (get_challenge net lib ctx reader slot.miner.account.address at).0 ≡ err e
        → Retargets reader diff slots sent
        → Retargets reader diff (slot ∷ slots) sent
    sent_one :
        {slot : WorkerSlot Address Key} {slots : List (WorkerSlot Address Key)} {sent : List Sent}
        {challenge : Bytes} (ctx : Ctx) (at : Net W Conn)
        → (get_challenge net lib ctx reader slot.miner.account.address at).0 ≡ ok challenge
        → Retargets reader diff slots sent
        → Retargets reader diff (slot ∷ slots) (
            (
              slot.worker,
              retarget
                  (record { challenge = codes "0x" ++ hex_encode challenge; difficulty = diff }),
            )
            ∷ sent)

  Retargets-append :
      {reader : Reader net lib} {diff : Bytes} {slot : WorkerSlot Address Key}
      {slots : List (WorkerSlot Address Key)} {a b : List Sent}
      → Retargets reader diff (slot ∷ []) a
      → Retargets reader diff slots b
      → Retargets reader diff (slot ∷ slots) (a ++ b)
  Retargets-append (unread ctx at h no_slots) rest = unread ctx at h rest
  Retargets-append (sent_one ctx at h no_slots) rest = sent_one ctx at h rest

  module _ (seen : W → List Sent) where
    -- A call that panics, or returns with the engine as it was and has sent what `P` says.
    pub data Sends (P : List Sent → Type 0) (s : Sys env)
        : Result (Unit {0}) × Sys env → Type 0 where
      panicked : {t : Sys env} (m : String) → Sends P s (panic m, t)
      returned :
          {t : Sys env} (sent : List Sent)
          → t.engine ≡ s.engine
          → seen t.chain.world ≡ seen s.chain.world ++ sent
          → P sent
          → Sends P s (ok tt, t)

    then-Sends :
        {P Q R : List Sent → Type 0} {s : Sys env} {out : Result (Unit {0}) × Sys env}
        (next : Act env (Unit {0}))
        → Sends P s out
        → ((t : Sys env) → t.engine ≡ s.engine → Sends Q t (next t))
        → ((a b : List Sent) → P a → Q b → R (a ++ b))
        → Sends R s (resume out.0 (λ _. next) fail out.1)
    then-Sends next (panicked m) rest join = panicked m
    then-Sends {P} {Q} {R} {s} next (returned {t} sent same now what) rest join = also (rest t same)
      where
        also : {out : Result (Unit {0}) × Sys env} → Sends Q t out → Sends R s out
        also (panicked m) = panicked m
        also (returned more same' now' what') =
            returned (sent ++ more) (same' ∙ same)
              (now' ∙ ap (λ l. l ++ more) now ∙ append_assoc (seen s.chain.world) sent more)
              (join sent more what what')

    module _ (sees : SeesCommands env seen) where
      pub ask-ok :
          (ctx : Ctx) (addr : Address) (s : Sys env) {text : Bytes}
          → (get_challenge_for env ctx addr s).0 ≡ ok text
          → (challenge : Bytes) × ((get_challenge net lib ctx s.engine.reader addr s.chain).0
              ≡ ok challenge)
            × (codes "0x" ++ hex_encode challenge ≡ text)
      unfolding get_challenge_for challenge_to_hex32
      ask-ok ctx addr s h =
          let (challenge, read, same) =
            >>=-ok (on_chain env (get_challenge net lib ctx s.engine.reader addr)) _ s h in
          (challenge, read, ok-injective same)

      ask-err :
          (ctx : Ctx) (addr : Address) (s : Sys env) {e : Err}
          → (get_challenge_for env ctx addr s).0 ≡ err e
          → (get_challenge net lib ctx s.engine.reader addr s.chain).0 ≡ err e
      unfolding get_challenge_for
      ask-err ctx addr s {e} h =
          let r = get_challenge net lib ctx s.engine.reader addr s.chain in
          resume_rule (λ out. out.0 ≡ err e → r.0 ≡ err e) r.0 _ _ (record s { chain = r.1 })
            (λ a _ q. cc) (λ x is q. is ∙ q) (λ m _ q. cc) h

      retarget_one-Sends :
          (slot : WorkerSlot Address Key) (diff : Bytes) (s : Sys env)
          → Sends (Retargets s.engine.reader diff (slot ∷ [])) s (retarget_one env slot diff s)
      unfolding retarget_one
      retarget_one-Sends slot diff s =
          let ctx = net.with_timeout host.background (pos 4000000000) s.chain.world in
          let addr = slot.miner.account.address in
          let asked = get_challenge_for env ctx addr s in
          let same : asked.1.engine ≡ s.engine = get_challenge_for-Keeps env ctx addr s in
          let unseen : seen asked.1.chain.world ≡ seen s.chain.world =
            ask-unseen env seen sees.views ctx addr s in
          let P : Result (Unit {0}) × Sys env → Type 0 =
            Sends (Retargets s.engine.reader diff (slot ∷ [])) s in
          resume_rule P asked.0 _ _ asked.1
            (λ text h.
              let (challenge, read, is_text) = ask-ok ctx addr s h in
              let cmd = retarget (record { challenge = text; difficulty = diff }) in
              let told = host.send slot.worker cmd asked.1.chain.world in
              let after : Sys env = record asked.1 {
                chain = record asked.1.chain { world = told.1 };
              } in
              let now : seen told.1 ≡ seen s.chain.world ++ ((slot.worker, cmd) ∷ []) =
                sees.send slot.worker cmd asked.1.chain.world
                ∙ ap (λ l. l ++ ((slot.worker, cmd) ∷ [])) unseen in
              let what : Retargets s.engine.reader diff (slot ∷ []) ((slot.worker, cmd) ∷ []) =
                rw (← is_text) (sent_one ctx s.chain read no_slots) in
              resume_rule P told.0 _ _ after (λ u _. returned _ same now what)
                (λ e _. returned _ same now what) (λ m _. panicked m))
            (λ e h.
              returned [] same (unseen ∙ sym (append-nil (seen s.chain.world)))
                (unread ctx s.chain (ask-err ctx addr s h) no_slots))
            (λ m _. panicked m)

      retarget_each-Sends :
          (slots : List (WorkerSlot Address Key)) (diff : Bytes) (s : Sys env)
          → Sends (Retargets s.engine.reader diff slots) s (retarget_each env slots diff s)
      unfolding retarget_each
      retarget_each-Sends [] diff s =
          returned [] refl (sym (append-nil (seen s.chain.world))) no_slots
      retarget_each-Sends (slot ∷ slots) diff s =
          then-Sends (retarget_each env slots diff) (retarget_one-Sends slot diff s)
            (λ t same. rw (← same) (retarget_each-Sends slots diff t))
            (λ a b first rest. Retargets-append first rest)

      -- Unless a call panics, `retargetAll` returns without an error and leaves the engine as it is,
      -- and it has sent each worker whose account's challenge can be read one command, in the order
      -- of the workers, with that challenge and the cached difficulty, and the others none.
      pub retarget_all-Sends :
          (s : Sys env)
          → Sends
              (Retargets s.engine.reader
                (difficulty_to_hex32 (get_difficulty env s.engine))
                s.engine.workers)
              s
              (retarget_all env s)
      unfolding retarget_all
      retarget_all-Sends s = retarget_each-Sends s.engine.workers _ s
