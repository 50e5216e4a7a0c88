-- ===== src/Examples/Chain.antt =====
-- internal/chain at a node whose first endpoint is down.
use hash256_miner.Base.{
  ℕ, suc, ◌≡◌, ◌≢◌, String, ◌≤◌, ◌<◌, ◌⊎◌, refl, arith, Bool, true, false, [], ◌∷◌, Bytes, codes,
  some, foreign, Result, ok, err, panic, Exec, pos, if◌then◌else◌, text_eq,
}
use hash256_miner.Std.Float64.{thousandths}
use hash256_miner.Chain.Client.{Net, connect, with_client, connect_if_closed, call_active}
use hash256_miner.Chain.Client.Calls.{
  suggest_fees, with_deadline, fees, copy_fee, estimate_gas, nonce_at, send_transaction,
}
use hash256_miner.Chain.Abi.{pack_mine}
use hash256_miner.Chain.Client.Failover.{After, connect-Connected}
use hash256_miner.Chain.Client.Progress.{
  NoPanic, IsUp, CalledAfter, after_failure, connect_done, with_client_retry,
}
use hash256_miner.Chain.Client.SubmitOnly.{Dials, with_client_submit_first}
use hash256_miner.Chain.Submitter.{gas_limit, SubmitParams, mine_tx, submit_mine}
use hash256_miner.Chain.Submitter.Gas.{Submitted, gas_limit_bounds, submit_mine_sound}
use hash256_miner.Examples.World.{node, a_client, failing, connected, contract_lib, idle}

-- A call that fails on the connection to `down` only.
abbrev ask : Bytes → Exec ℕ ℕ
ask r w = (if text_eq r (codes "down") then err (foreign "lost") else ok 42, suc w)

not_panic :
    (b : Bool) (url : Bytes) (m : String)
    → (if b then err (foreign "refused") else ok url) ≢ panic m
not_panic true url m = λ h. cc
not_panic false url m = λ h. cc

node-NoPanic : NoPanic node
node-NoPanic = record {
  dials = λ ctx url w m. λ h. not_panic (text_eq url (codes "down")) url m h;
  probes = λ r ctx w m. λ h. cc;
}

node-IsUp : IsUp node (codes "up") (pos 1)
unfolding text_eq
node-IsUp = record {
  conn = λ ctx w. codes "up";
  answers = λ ctx w. refl;
  reports = λ ctx w ctx' w'. refl;
}

node-Dials : Dials node (codes "up")
unfolding text_eq
node-Dials = record { conn = λ ctx w. codes "up"; answers = λ ctx w. refl }

connect-Connected_example : After node 0 failing.client (connect node 0 0 failing)
connect-Connected_example = connect-Connected node 0 0 failing

connect_done_example : (connect node 0 0 failing).0 ≡ ok tt
connect_done_example =
    connect_done node 0 0 1 failing node-NoPanic node-IsUp refl refl (omega arith)

with_client_retry_example :
    CalledAfter node 0 0 ask
      (after_failure node 0 ask (codes "down") failing)
      (with_client node 0 0 ask failing)
unfolding text_eq
with_client_retry_example =
    with_client_retry node 0 0 1 ask failing node-NoPanic node-IsUp refl refl (omega arith) refl
      refl refl

-- A submit-only client whose second endpoint is the active one, and fails.
abbrev submit_failing : Net ℕ Bytes
submit_failing = record {
  world = 0;
  client = λ p. a_client (codes "up" ∷ codes "down" ∷ []) true (some (codes "down"));
}

with_client_submit_first_example :
    (((with_client node 0 0 ask submit_failing).1.client 0).idx ≡ 0)
    × ((w w' : ℕ) × (c : ℕ) × ((with_client node 0 0 ask submit_failing).0
          ≡ (ask (node-Dials.conn c w') w).0))
unfolding text_eq
with_client_submit_first_example =
    with_client_submit_first node 0 0 ask submit_failing (codes "up") (codes "down" ∷ []) refl refl
      node-Dials refl refl

gas_limit_bounds_example :
    (200000 ≤ gas_limit thousandths 1500 200000 450000 180000)
    × (gas_limit thousandths 1500 200000 450000 180000 ≤ 450000)
    × (((270000 < 200000) × (gas_limit thousandths 1500 200000 450000 180000 ≡ 200000))
        ⊎ (((450000 < 270000) × (gas_limit thousandths 1500 200000 450000 180000 ≡ 450000))
            ⊎ (gas_limit thousandths 1500 200000 450000 180000 ≡ 270000)))
gas_limit_bounds_example = gas_limit_bounds thousandths 1500 200000 450000 180000 (omega arith)

abbrev lib_ok : Result Bytes
lib_ok = ok (1 ∷ 2 ∷ [])

abbrev params : SubmitParams thousandths node (contract_lib lib_ok)
params = record { key = 9; from = 5; nonce = some 77; tip_cap_gwei = 3000; bump_factor = 1000 }

submit_mine_sound_example :
    Submitted thousandths node (contract_lib lib_ok) 0 (idle lib_ok).engine.submitter params 8
unfolding submit_mine mine_tx pack_mine suggest_fees with_deadline fees copy_fee with_client
    connect_if_closed call_active estimate_gas nonce_at send_transaction text_eq
submit_mine_sound_example =
    submit_mine_sound thousandths node (contract_lib lib_ok) 0 (idle lib_ok).engine.submitter params
      connected (omega arith) refl
