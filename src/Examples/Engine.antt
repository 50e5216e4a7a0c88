-- ===== src/Examples/Engine.antt =====
-- internal/orchestrator with one account and one worker.
use hash256_miner.Base.{
  ◌-◌, ◌≤◌, codes, take, drop, ◌≡◌, ◌≢◌, ◌<◌, refl, true, [], ◌∷◌, ◌++◌, Bytes, replicate, some,
  foreign, Result, ok, err, ◌↔◌, length, trim_0x, text_eq,
}
use hash256_miner.Std.Hex.{hex_decode, from_hex}
use hash256_miner.Std.BigInt.{set_bytes}
use hash256_miner.Std.Slice.{copy_at}
use hash256_miner.Chain.Client.{with_client, connect_if_closed, call_active}
use hash256_miner.Chain.Client.Calls.{with_deadline, call_contract}
use hash256_miner.Chain.Abi.{
  pack_mine, pack_mining_state, unpack_mining_state, mining_state_of, pack_get_challenge,
  unpack_challenge, challenge_of, as_bytes32, as_big_int,
}
use hash256_miner.Chain.Reader.{mining_state, get_challenge}
use hash256_miner.Orchestrator.Codec.{difficulty_to_hex32}
use hash256_miner.Orchestrator.Codec.RoundTrip.{difficulty_to_hex32_sound}
use hash256_miner.Orchestrator.Engine.{poll_state, cache_challenge, get_difficulty}
use hash256_miner.Orchestrator.Found.{
  verify_local, verify_with, proof_bytes, accept_nonce, on_found,
}
use hash256_miner.Orchestrator.Engine.Poll.{Polled, poll_state-Polled}
use hash256_miner.Wallet.Manager.{first, primary, count}
use hash256_miner.Orchestrator.Found.Verify.{Accepted, verify_local_iff, accept_nonce_sound}
use hash256_miner.Orchestrator.Found.Once.{on_found_once}
use hash256_miner.Orchestrator.Found.Handled.{Handled, on_found-Handled}
use hash256_miner.Orchestrator.Found.Sent.{on_found_never}
use hash256_miner.Orchestrator.Stats.{hex_text, short_diff, ellipsis}
use hash256_miner.Orchestrator.Stats.Short.{short_diff_total}
use hash256_miner.Examples.World.{workers, machine, idle, a_miner, found_event, zero_nonce}

abbrev packs : Result Bytes
packs = ok (1 ∷ 2 ∷ [])

abbrev refuses : Result Bytes
refuses = err (foreign "nil argument")

abbrev zeros : Bytes
zeros = replicate 32 0

abbrev sevens : Bytes
sevens = replicate 32 7

verify_local_iff_example :
    (verify_local (machine packs) sevens zeros (some 1000) ≡ ok true)
    ↔ (set_bytes (workers.keccak256 (sevens ++ zeros)) < 1000)
verify_local_iff_example = verify_local_iff (machine packs) sevens zeros 1000 refl refl

accept_nonce_sound_example : Accepted (machine packs) (idle packs).engine zero_nonce zeros
unfolding accept_nonce trim_0x hex_decode from_hex verify_with verify_local proof_bytes copy_at
    set_bytes get_difficulty
accept_nonce_sound_example = accept_nonce_sound (machine packs) (idle packs).engine zero_nonce refl

poll_state-Polled_example :
    Polled
      (machine packs)
      0
      (idle packs).engine
      (poll_state (machine packs) 0 (idle packs)).1.engine
unfolding poll_state cache_challenge mining_state pack_mining_state unpack_mining_state
    mining_state_of as_big_int call_contract with_deadline with_client connect_if_closed call_active
    get_challenge pack_get_challenge unpack_challenge challenge_of as_bytes32 text_eq first primary
    count
poll_state-Polled_example = poll_state-Polled (machine packs) 0 (idle packs) refl

on_found_once_example :
    (on_found
      (machine packs)
      0
      a_miner
      2
      found_event
      (on_found (machine packs) 0 a_miner 1 found_event (idle packs)).1).1
    ≡ (on_found (machine packs) 0 a_miner 1 found_event (idle packs)).1
on_found_once_example =
    on_found_once (machine packs) 0 0 a_miner 1 2 found_event found_event (idle packs) refl

on_found-Handled_example :
    Handled
      (machine packs)
      0
      a_miner
      1
      found_event
      (idle packs)
      (on_found (machine packs) 0 a_miner 1 found_event (idle packs))
on_found-Handled_example = on_found-Handled (machine packs) 0 a_miner 1 found_event (idle packs)

on_found_never_example :
    (on_found (machine refuses) 0 a_miner 1 found_event (idle refuses)).0 ≢ ok (some (8, 0))
unfolding pack_mine
on_found_never_example =
    on_found_never (machine refuses) 0 a_miner 1 found_event (idle refuses) (λ input. λ h. cc)
      (8, 0)

difficulty_to_hex32_sound_example :
    (length (difficulty_to_hex32 (some 300)) ≡ 66)
    × ((b : Bytes) × (hex_decode (trim_0x (difficulty_to_hex32 (some 300))) ≡ ok b)
        × (length b ≡ 32)
        × (set_bytes b ≡ 300))
difficulty_to_hex32_sound_example = difficulty_to_hex32_sound 300

short_diff_total_example :
    (h : Bytes) × (h ≡ replicate (64 - length (hex_text 300)) b'0' ++ hex_text 300)
    × (64 ≤ length h)
    × (short_diff (some 300) ≡ ok (codes "0x" ++ take 8 h ++ ellipsis ++ drop 60 h))
short_diff_total_example = short_diff_total 300
