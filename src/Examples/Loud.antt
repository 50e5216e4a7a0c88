-- ===== src/Examples/Loud.antt =====
-- internal/orchestrator with a world that is the list of what an observer sees: the commands to the workers,
-- or the transactions.
use hash256_miner.Base.{
  ◌≡◌, ℕ, refl, [], ◌∷◌, ◌++◌, List, Bytes, codes, text_eq, to_lower, replicate, some, foreign, ok,
  Exec, pos, false,
}
use hash256_miner.Std.Float64.{thousandths}
use hash256_miner.Chain.Rpc.{Rpc, Transaction}
use hash256_miner.Chain.Client.{with_client, connect_if_closed, call_active}
use hash256_miner.Chain.Client.Calls.{with_deadline, call_contract}
use hash256_miner.Chain.Abi.{pack_get_challenge, unpack_challenge, challenge_of, as_bytes32}
use hash256_miner.Chain.Reader.{get_challenge}
use hash256_miner.Orchestrator.Codec.{random_prefix24_hex}
use hash256_miner.Orchestrator.Protocol.{WorkerMode}
use hash256_miner.Orchestrator.Engine.{Env, Sys, resolve_mode, start_job, get_challenge_for}
use hash256_miner.Orchestrator.Run.{polling, run}
use hash256_miner.Orchestrator.Run.Unpaid.{run_unpaid}
use hash256_miner.Orchestrator.Engine.Unseen.{UnseenViews, UnseenWorkers}
use hash256_miner.Orchestrator.Found.Payments.{SeesPayments, PaidFor}
use hash256_miner.Orchestrator.Loop.Payments.{handle_worker_events-PaidFor}
use hash256_miner.Orchestrator.Engine.Seen.{Sent, SeesCommands, SeesStarts}
use hash256_miner.Orchestrator.Loop.{
  handle_worker_events, poll_tick, accept_ready, note_devices, spawn_worker, spawn_each,
  spawn_workers,
}
use hash256_miner.Orchestrator.Loop.Rotates.{Ticked, poll_tick-Ticked}
use hash256_miner.Orchestrator.Loop.Crewed.{ModeFor, Grown, spawn_workers-Grown}
use hash256_miner.Examples.World.{
  a_client, contract_lib, contract, settings, a_miner, idle, found_event,
}

-- The world is a list of what is seen.
module _ {T : Type 0} where
  abbrev says : {A : Type 0} → A → Exec (List T) A
  says a w = (ok a, w)

  -- Everything is up; a transaction that is sent changes the world by `pays`.
  abbrev loud_node : (Transaction ℕ → List T → List T) → Rpc
  loud_node pays = record {
    W = List T;
    Ctx = ℕ;
    Conn = Bytes;
    Address = ℕ;
    Key = ℕ;
    Signed = Transaction ℕ;
    Hash = ℕ;
    with_timeout = λ ctx t w. ctx;
    dial = λ ctx url. says url;
    close = λ r w. w;
    chain_id_of = λ r ctx. says (pos 1);
    call_contract = λ r ctx to input. says input;
    block_number = λ r ctx. says 100;
    balance_at = λ r ctx a. says 0;
    base_fee_at_head = λ r ctx. says (some 30);
    suggest_gas_tip_cap = λ r ctx. says 2;
    nonce_at = λ r ctx a. says 7;
    pending_nonce_at = λ r ctx a. says 8;
    estimate_gas = λ r ctx m. says 100000;
    send_transaction = λ r ctx t w. (ok tt, pays t w);
    transaction_receipt = λ r ctx h. says (record { status = 1; block_number = 100 });
    sign_tx = λ id k t. ok t;
    hash_of = λ t. t.nonce;
  }

  -- A command that is sent changes the world by `tells`.
  abbrev loud_env : (Transaction ℕ → List T → List T) → (Sent → List T → List T) → Env
  loud_env pays tells = record {
    fl = thousandths;
    net = loud_node pays;
    lib = contract_lib (ok (1 ∷ 2 ∷ []));
    host = record {
      background = 0;
      ctx_err = λ ctx w. foreign "context canceled";
      start_worker = λ ctx bin. says 1;
      send = λ id cmd w. (ok tt, tells (id, cmd) w);
      receive = λ id. says (some (record found_event { event = codes "ready" }));
      stop_worker = λ id. says tt;
      rand_read = λ n. says (replicate n 1);
      addr_hex = λ a. codes "0xA5";
      keccak256 = λ b. 1 ∷ [];
    };
  }

  abbrev quiet_engine :
      (pays : Transaction ℕ → List T → List T) (tells : Sent → List T → List T)
      → Sys (loud_env pays tells)
  quiet_engine pays tells = record {
    engine = record {
      cfg = settings;
      reader = record { client = 0; abi = contract (ok (1 ∷ 2 ∷ [])) };
      submitter = record {
        client = 0;
        submit_client = 0;
        abi = contract (ok (1 ∷ 2 ∷ []));
        chain_id = pos 1;
        min_gas = 200000;
        max_gas = 450000;
        safety_mult = 1500;
      };
      wallets = (idle (ok (1 ∷ 2 ∷ []))).engine.wallets;
      core_bin = codes "core";
      workers = (idle (ok (1 ∷ 2 ∷ []))).engine.workers;
      challenge = some (replicate 32 7);
      difficulty = some (some 1000);
      epoch = some (some 3);
      gpu_available = false;
      gpu_device_list = [];
      submitted = [];
      hashrate_acc = 0;
      hashes_acc = 0;
    };
    chain = record {
      world = [];
      client = λ p. a_client (codes "up" ∷ []) false (some (codes "up"));
    };
  }

  -- The observer sees the whole world.
  abbrev all_seen : List T → List T
  all_seen w = w

  module _ (pays : Transaction ℕ → List T → List T) (tells : Sent → List T → List T) where
    views_unseen : UnseenViews (loud_env pays tells) all_seen
    views_unseen = record {
      connections = record {
        dial = λ ctx url w. refl;
        close = λ r w. refl;
        chain_id_of = λ r ctx w. refl;
      };
      call_contract = λ r ctx to input w. refl;
    }

    workers_unseen : UnseenWorkers (loud_env pays tells) all_seen
    workers_unseen = record {
      rand_read = λ n w. refl;
      start_worker = λ ctx bin w. refl;
      receive = λ id w. refl;
      stop_worker = λ id w. refl;
    }

-- The commands are seen.
abbrev hushed : Transaction ℕ → List Sent → List Sent
hushed t w = w

abbrev told : Sent → List Sent → List Sent
told cmd w = w ++ (cmd ∷ [])

abbrev loud : Env
loud = loud_env hushed told

sees_commands : SeesCommands loud all_seen
sees_commands = record { views = views_unseen hushed told; send = λ id cmd w. refl }

sees_starts : SeesStarts loud all_seen
sees_starts = record { commands = sees_commands; workers = workers_unseen hushed told }

abbrev at_rest : Sys loud
at_rest = quiet_engine hushed told

-- The epoch was 1 and is 4.
poll_tick-Ticked_example :
    Ticked loud all_seen 0 (some 1) at_rest (poll_tick loud 0 (some 1) at_rest)
poll_tick-Ticked_example = poll_tick-Ticked loud all_seen sees_commands 0 (some 1) at_rest

spawn_workers-Grown_example :
    (mode : WorkerMode) × ModeFor loud 0 at_rest mode
    × Grown loud at_rest.engine mode
        (a_miner ∷ [])
        all_seen
        at_rest
        (spawn_workers loud 0 (a_miner ∷ []) at_rest).1
unfolding spawn_workers spawn_each spawn_worker accept_ready note_devices resolve_mode start_job
    get_challenge_for get_challenge pack_get_challenge unpack_challenge challenge_of as_bytes32
    call_contract with_deadline with_client connect_if_closed call_active random_prefix24_hex
    text_eq to_lower
spawn_workers-Grown_example =
    spawn_workers-Grown loud all_seen sees_starts 0 (a_miner ∷ []) at_rest refl

-- The transactions are seen.
abbrev paid_out : Transaction ℕ → List (Transaction ℕ) → List (Transaction ℕ)
paid_out t w = w ++ (t ∷ [])

abbrev untold : Sent → List (Transaction ℕ) → List (Transaction ℕ)
untold cmd w = w

abbrev paying : Env
paying = loud_env paid_out untold

sees_payments : SeesPayments paying all_seen
sees_payments = record {
  transactions = record {
    connections = (views_unseen paid_out untold).connections;
    base_fee_at_head = λ r c w. refl;
    suggest_gas_tip_cap = λ r c w. refl;
    estimate_gas = λ r c m w. refl;
    pending_nonce_at = λ r c a w. refl;
    send_transaction = λ r c t w. refl;
  };
  views = views_unseen paid_out untold;
  workers = workers_unseen paid_out untold;
  block_number = λ r c w. refl;
  send = λ id cmd w. refl;
}

handle_worker_events-PaidFor_example :
    PaidFor paying all_seen a_miner
      (quiet_engine paid_out untold)
      (handle_worker_events paying 0 a_miner 1 (found_event ∷ []) (quiet_engine paid_out untold)).1
handle_worker_events-PaidFor_example =
    handle_worker_events-PaidFor paying all_seen sees_payments 0 a_miner 1 (found_event ∷ [])
      (quiet_engine paid_out untold)

run_unpaid_example :
    all_seen
      (run paying 0 (a_miner ∷ []) (polling ∷ []) (quiet_engine paid_out untold)).1.chain.world
    ≡ []
run_unpaid_example =
    run_unpaid paying all_seen sees_payments 0 (a_miner ∷ []) (polling ∷ [])
      (quiet_engine paid_out untold)
