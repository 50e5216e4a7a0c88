-- ===== src/Orchestrator/Found/Verify.antt =====
-- internal/orchestrator/engine.go: the checks of `onFound` before a submission, and `verifyLocal`.
use hash256_miner.Base.{
  ℕ, ◌+◌, ◌-◌, ◌<◌, ◌≡◌, refl, arith, Bool, true, false, Option, none, some, ◌++◌, Bytes, trim_0x,
  ok, err, and_then, and_then-ok, wrap_err, wrap_err-ok, if-ok, length, replicate, ltb, ltb→lt,
  lt→ltb, ◌==◌, ==_iff, inl, inr, if◌then◌else◌, length-append, take_of_length-le,
  drop_of_length-le, take_of_length-append, ◌↔◌, ◌⊎◌, append-nil, sym, ap, ◌∙◌, ok-injective, Err,
}
use hash256_miner.Std.Hex.{hex_decode, hex_decode_sound}
use hash256_miner.Std.BigInt.{set_bytes}
use hash256_miner.Std.Slice.{copy_at}
use hash256_miner.Orchestrator.Engine.{Env, Engine, get_difficulty}
use hash256_miner.Orchestrator.Found.{proof_bytes, verify_local, verify_with, accept_nonce}

-- A copy over the whole tail of a buffer.
copy_tail :
    (n : ℕ) (a z s : Bytes) → length a ≡ n → length s ≡ length z → copy_at (a ++ z) n s ≡ a ++ s
unfolding copy_at
copy_tail n a z s ea es = rw (← ea) (
    rw
      (
        take_of_length-append a z,
        take_of_length-le (length (a ++ z) - length a) s (omega (arith, length-append {0} a z)),
        drop_of_length-le (length a + length s) (a ++ z) (omega (arith, length-append {0} a z)),
      )
      (ap (λ t. a ++ t) (append-nil s)))

module _ (env : Env) where
  open env use {host}

  -- The bytes that are hashed are the challenge followed by the nonce, where both have their 32 bytes.
  proof_bytes_lem :
      (challenge nonce : Bytes)
      → length challenge ≡ 32
      → length nonce ≡ 32
      → proof_bytes env challenge nonce ≡ challenge ++ nonce
  unfolding proof_bytes copy_at
  proof_bytes_lem challenge nonce lc ln = rw (take_of_length-le 32 challenge (omega (arith, lc))) (
      rw (take_of_length-le 64 challenge (omega (arith, lc)), lc)
        (copy_tail 32 challenge (replicate 32 0) nonce lc ln))

  -- For a challenge and a nonce of 32 bytes, the local check returns true just when the Keccak hash
  -- of the challenge followed by the nonce, as a big-endian number, is below the target.
  pub verify_local_iff :
      (challenge nonce : Bytes) (target : ℕ)
      → length challenge ≡ 32
      → length nonce ≡ 32
      → (verify_local env challenge nonce (some target) ≡ ok true)
        ↔ (set_bytes (host.keccak256 (challenge ++ nonce)) < target)
  unfolding verify_local
  verify_local_iff challenge nonce target lc ln =
      let p = proof_bytes_lem challenge nonce lc ln in
      let n = set_bytes (host.keccak256 (challenge ++ nonce)) in
      (
        (λ h.
            ltb→lt n target
              (sym (ap (λ b. ltb (set_bytes (host.keccak256 b)) target) p) ∙ ok-injective h)),
        (λ h. ap ok (ap (λ b. ltb (set_bytes (host.keccak256 b)) target) p ∙ lt→ltb n target h)),
      )

  -- What the cached challenge and the target say of an accepted nonce.
  pub record Proved (cached : Option Bytes) (difficulty : Option ℕ) (nonce : Bytes) : Type 0 where
    pub challenge : Bytes
    pub is_cached : cached ≡ some challenge
    pub target : ℕ
    pub is_target : difficulty ≡ some target
    pub passed : verify_local env challenge nonce (some target) ≡ ok true

  guard_true : (b : Bool) (x : Err) {u : Unit {0}} → (if b then ok tt else err x) ≡ ok u → b ≡ true
  guard_true true x h = refl
  guard_true false x h = cc

  verify_with_sound :
      (cached : Option Bytes) (target : Option ℕ) (nonce : Bytes) {u : Unit {0}}
      → verify_with env cached target nonce ≡ ok u
      → Proved cached target nonce
  unfolding verify_with verify_local
  verify_with_sound none target nonce h = cc
  verify_with_sound (some challenge) none nonce h = cc
  verify_with_sound (some challenge) (some target) nonce h = record {
    challenge = challenge;
    is_cached = refl;
    target = target;
    is_target = refl;
    passed = ap ok (guard_true _ _ h);
  }

  pub record Accepted (e : Engine env) (text nonce : Bytes) : Type 0 where
    pub digits : length (trim_0x text) ≡ 64
    pub decoded : hex_decode (trim_0x text) ≡ ok nonce
    pub size : length nonce ≡ 32
    pub proved :
        (e.cfg.mining.verify_before_submit ≡ false)
        ⊎ Proved e.challenge (get_difficulty env e) nonce

  guard-Proved :
      (e : Engine env) (b : Bool) (nonce nonce' : Bytes)
      → (if b
          then and_then (verify_with env e.challenge (get_difficulty env e) nonce) (λ _. ok nonce)
          else ok nonce)
        ≡ ok nonce'
      → (nonce ≡ nonce') × ((b ≡ false) ⊎ Proved e.challenge (get_difficulty env e) nonce)
  guard-Proved e false nonce nonce' h = (ok-injective h, inl refl)
  guard-Proved e true nonce nonce' h =
      let (u, passed, same) =
        and_then-ok (verify_with env e.challenge (get_difficulty env e) nonce) (λ _. ok nonce) h in
      (ok-injective same, inr (verify_with_sound e.challenge (get_difficulty env e) nonce passed))

  -- A nonce text that is accepted has, behind an optional `0x`, 64 digits that decode to the 32
  -- bytes of the nonce; and verification is off, or a challenge and a target are known and the
  -- nonce passes the local check against them.
  pub accept_nonce_sound :
      (e : Engine env) (text : Bytes) {nonce : Bytes}
      → accept_nonce env e text ≡ ok nonce
      → Accepted e text nonce
  unfolding accept_nonce
  accept_nonce_sound e text {nonce} h =
      let (sized, h') = if-ok (length (trim_0x text) == 64) _ _ h in
      let (bytes, decoded, h'') =
        and_then-ok (wrap_err "decode nonce: %w" (hex_decode (trim_0x text))) _ h' in
      let (same, proved) = guard-Proved e e.cfg.mining.verify_before_submit bytes nonce h'' in
      let digits = (==_iff (length (trim_0x text)) 64).0 sized in
      let plain = wrap_err-ok "decode nonce: %w" (hex_decode (trim_0x text)) decoded in
      rw (← same) (record {
        digits = digits;
        decoded = plain;
        size = omega (arith, digits, (hex_decode_sound (trim_0x text) plain).1);
        proved = proved;
      })
