-- ===== src/Cli/Mine/Wiped.antt =====
-- internal/cli/mine.go: the private keys when `runMineStart` returns.
use hash256_miner.Base.{ℕ, ◌≡◌, ◌⊎◌, Bytes, none, some, List, ok, get_elem?, get_elem?-map}
use hash256_miner.Config.{Config}
use hash256_miner.Chain.Client.{Net}
use hash256_miner.Wallet.Manager.{Account, Manager, KeyHeap, wipe}
use hash256_miner.Wallet.Manager.Accounts.{wipe_clears}
use hash256_miner.Orchestrator.Run.{Tick}
use hash256_miner.Cli.Machine.{Machine, pointers, wipe_wallet}
use hash256_miner.Cli.Mine.{unlock, mine, run_mine_start}

module _ (m : Machine) where
  open m use {env}
  open env use {fl, net}
  open net use {W, Ctx, Conn, Address, Key}

  -- The heap that is stored is the heap that is read.
  abbrev pub HeapStored : Type 0
  HeapStored = (h : KeyHeap) (w : W) → m.heap_of (m.set_heap h w) ≡ h

  wipe_wallet-clears :
      (wm : Manager Address Key) (w : W) (k p : ℕ) (a : Account Address Key)
      → HeapStored
      → get_elem? wm.accounts k ≡ some a
      → m.key_ptr a.private_key ≡ some p
      → (m.heap_of (wipe_wallet m wm w).1 p ≡ none) ⊎ (m.heap_of (wipe_wallet m wm w).1 p ≡ some 0)
  unfolding wipe_wallet
  wipe_wallet-clears wm w k p a laws at key =
      rw (laws (wipe (pointers m wm) (m.heap_of w)) w)
        (wipe_clears (pointers m wm) (m.heap_of w) k p _ (get_elem?-map _ wm.accounts k at) key)

  -- Once `runMineStart` has loaded the wallet, the number of every account's key is zero or absent
  -- when it returns, however it returns: with nil, with an error, or by a panic behind the wallet.
  -- What is written to the keys' memory must be what is read from it.
  pub run_mine_start-clears :
      (ctx : Ctx) (path : Bytes) (ticks : List Tick) (s : Net W Conn) {cfg : Config fl.F}
      {wm : Manager Address Key} (k p : ℕ) (a : Account Address Key)
      → HeapStored
      → (unlock m path s).0 ≡ ok (cfg, wm)
      → get_elem? wm.accounts k ≡ some a
      → m.key_ptr a.private_key ≡ some p
      → (m.heap_of (run_mine_start m ctx path ticks s).1.world p ≡ none)
        ⊎ (m.heap_of (run_mine_start m ctx path ticks s).1.world p ≡ some 0)
  unfolding run_mine_start
  run_mine_start-clears ctx path ticks s {cfg} {wm} k p a laws opened at key = rw opened (
      wipe_wallet-clears wm (mine m ctx cfg wm ticks (unlock m path s).1).1.world k p a laws at key)
