-- ===== src/Chain/Client/Attempts.antt =====
-- internal/chain/client.go: how often `withClient` makes a call that an observer of the world sees.
use hash256_miner.Base.{
  ℕ, ◌≡◌, refl, sym, ap, ◌∙◌, Option, none, some, List, [], ◌∷◌, ◌++◌, append_assoc, append-nil,
  Result, Exec, resume_rule,
}
use hash256_miner.Chain.Rpc.{Rpc}
use hash256_miner.Chain.Client.{
  Net, call_active, connect_if_closed, reconnect, bump_idx, call_again, with_client,
}
use hash256_miner.Chain.Client.Quiet.{Unseen, connect_if_closed-Quiet, reconnect-Quiet}

module _ {L : Type 0} where
  -- What was seen between two states, and that it is what `P` says.
  pub record Saw (P : List L → Type 0) (before after : List L) : Type 0 where
    pub new : List L
    pub grown : after ≡ before ++ new
    pub what : P new

  pub data AtMostOne (t : L) : List L → Type 0 where
    not_made : AtMostOne t []
    made : AtMostOne t (t ∷ [])

  -- None, one or two calls, of the same thing.
  pub data Attempts (t : L) : List L → Type 0 where
    unmade : Attempts t []
    once : Attempts t (t ∷ [])
    twice : Attempts t (t ∷ t ∷ [])

  pub Saw-nothing : {P : List L → Type 0} {b a : List L} → a ≡ b → P [] → Saw P b a
  Saw-nothing {b = b} e p = record { new = []; grown = e ∙ sym (append-nil b); what = p }

  pub Saw-after : {P : List L → Type 0} {b b' a : List L} → b' ≡ b → Saw P b' a → Saw P b a
  Saw-after e saw = rw e at saw

  pub Saw-until : {P : List L → Type 0} {b a a' : List L} → Saw P b a → a' ≡ a → Saw P b a'
  Saw-until saw e = record { new = saw.new; grown = e ∙ saw.grown; what = saw.what }

  -- What was seen in two stretches.
  pub Saw-join :
      {P Q R : List L → Type 0} {a b c : List L}
      → Saw P a b
      → Saw Q b c
      → ((x y : List L) → P x → Q y → R (x ++ y))
      → Saw R a c
  Saw-join {a = a} first second join = record {
    new = first.new ++ second.new;
    grown =
        second.grown ∙ ap (λ l. l ++ second.new) first.grown ∙ append_assoc a first.new second.new;
    what = join first.new second.new first.what second.what;
  }

  pub Saw-map :
      {P Q : List L → Type 0} {a b : List L} → Saw P a b → ((x : List L) → P x → Q x) → Saw Q a b
  Saw-map saw f = record { new = saw.new; grown = saw.grown; what = f saw.new saw.what }

  -- Two stretches with at most one call each.
  Attempts-join : {t : L} (x y : List L) → AtMostOne t x → AtMostOne t y → Attempts t (x ++ y)
  Attempts-join x y not_made not_made = unmade
  Attempts-join x y not_made made = once
  Attempts-join x y made not_made = once
  Attempts-join x y made made = twice

  AtMostOne-Attempts : {t : L} (x : List L) → AtMostOne t x → Attempts t x
  AtMostOne-Attempts x not_made = unmade
  AtMostOne-Attempts x made = once

module _ {L : Type 0} (net : Rpc) (seen : net.W → List L) (unseen : Unseen net seen) where
  open net use {W, Ctx, Conn}

  module _ {A : Type 0} (t : L) (fn : Conn → Exec W A)
      (sees : (r : Conn) (w : W) → seen (fn r w).1 ≡ seen w ++ (t ∷ [])) where
    call_active-AtMostOne :
        (o : Option Conn) (s : Net W Conn)
        → Saw (AtMostOne t) (seen s.world) (seen (call_active net fn o s).1.world)
    unfolding call_active
    call_active-AtMostOne none s = Saw-nothing refl not_made
    call_active-AtMostOne (some r) s = record { new = t ∷ []; grown = sees r s.world; what = made }

    call_again-AtMostOne :
        (ctx : Ctx) (p : ℕ) (s : Net W Conn)
        → Saw (AtMostOne t) (seen s.world) (seen (call_again net ctx p fn s).1.world)
    unfolding call_again
    call_again-AtMostOne ctx p s =
        let r = reconnect net ctx p s in
        let quiet : seen r.1.world ≡ seen s.world = reconnect-Quiet net seen unseen ctx p s in
        let P : Result A × Net W Conn → Type 0 =
          λ out. Saw (AtMostOne t) (seen s.world) (seen out.1.world) in
        resume_rule P r.0 _ _ r.1
          (λ _ _. Saw-after quiet (call_active-AtMostOne (r.1.client p).active r.1))
          (λ _ _. Saw-nothing quiet not_made) (λ _ _. Saw-nothing quiet not_made)

    -- `withClient` makes its call at most twice.
    pub with_client-Attempts :
        (ctx : Ctx) (p : ℕ) (s : Net W Conn)
        → Saw (Attempts t) (seen s.world) (seen (with_client net ctx p fn s).1.world)
    unfolding with_client bump_idx
    with_client-Attempts ctx p s =
        let c = connect_if_closed net ctx p (s.client p).active s in
        let quiet : seen c.1.world ≡ seen s.world =
          connect_if_closed-Quiet net seen unseen ctx p (s.client p).active s in
        let P : Result A × Net W Conn → Type 0 =
          λ out. Saw (Attempts t) (seen s.world) (seen out.1.world) in
        resume_rule P c.0 _ _ c.1
          (λ cli _.
            let called = call_active net fn cli c.1 in
            let one = Saw-after quiet (call_active-AtMostOne cli c.1) in
            let only = Saw-map one AtMostOne-Attempts in
            resume_rule P called.0 _ _ called.1 (λ _ _. only)
              (λ e _. Saw-join one (call_again-AtMostOne ctx p _) Attempts-join) (λ _ _. only))
          (λ _ _. Saw-nothing quiet unmade) (λ _ _. Saw-nothing quiet unmade)
