-- ===== src/Orchestrator/Stats.antt =====
-- internal/orchestrator/engine.go: the statistics and the shortened texts of the log lines.
pub mod Totals
pub mod Short
use hash256_miner.Base.{
  ℕ, zero, suc, ◌+◌, ◌-◌, ◌/◌, ◌%◌, ◌^◌, Bool, true, false, ◌||◌, List, [], ◌∷◌, ◌++◌, Bytes, codes,
  String, Option, none, some, Result, ok, err, panic, and_then, length, take, drop, ltb, leb, ◌==◌,
  if◌then◌else◌,
}
use hash256_miner.Std.Float64.{Float64}
use hash256_miner.Std.Decimal.{decimal}
use hash256_miner.Orchestrator.Engine.{Env, WorkerSlot, Engine, get_difficulty}

-- `(*big.Int).Text(16)` of a non-negative number, with a round of fuel for each digit.
hex_digit : ℕ → ℕ
hex_digit d = if ltb d 10 then b'0' + d else b'a' + (d - 10)

hex_text_from : ℕ → ℕ → Bytes → Bytes
unfolding hex_digit
hex_text_from zero n out = out
hex_text_from (suc f) n out = elim (n == 0) [
  | true ↦ out
  | false ↦ hex_text_from f (n / 16) (hex_digit (n % 16) ∷ out)
]

pub hex_text : ℕ → Bytes
unfolding hex_text_from
hex_text n = if n == 0 then b'0' ∷ [] else hex_text_from n n []

-- `s[:n]` and `s[n:]`
pub slice_to : ℕ → Bytes → Result Bytes
slice_to n s = if leb n (length s) then ok (take n s) else panic "slice bounds out of range"

pub slice_from : ℕ → Bytes → Result Bytes
slice_from n s = if leb n (length s) then ok (drop n s) else panic "slice bounds out of range"

-- The bytes of `…`.
abbrev pub ellipsis : Bytes
ellipsis = 0xE2 ∷ 0x80 ∷ 0xA6 ∷ []

-- `shortAddr`, of the address's text
pub short_addr : Bytes → Result Bytes
unfolding slice_to slice_from
short_addr s =
    if ltb (length s) 10
    then ok s
    else and_then (slice_to 6 s)
        λ a. and_then (slice_from (length s - 4) s) λ b. ok (a ++ ellipsis ++ b)

-- `shortHash`
pub short_hash : Bytes → Result Bytes
unfolding slice_to slice_from
short_hash h =
    if ltb (length h) 12
    then ok h
    else and_then (slice_to 10 h)
        λ a. and_then (slice_from (length h - 4) h) λ b. ok (a ++ ellipsis ++ b)

-- The loop of `shortDiff`, with fuel.
pub pad_zeros : ℕ → Bytes → Bytes
pad_zeros zero h = h
pad_zeros (suc f) h = let rest = pad_zeros f (b'0' ∷ h) in if ltb (length h) 64 then rest else h

-- `shortDiff`: 64 rounds are enough.
pub short_diff : Option ℕ → Result Bytes
unfolding hex_text slice_to slice_from pad_zeros
short_diff none = ok (codes "0")
short_diff (some v) =
    let h = pad_zeros 64 (hex_text v) in
    and_then (slice_to 8 h)
      λ a. and_then (slice_from 60 h) λ b. ok (codes "0x" ++ a ++ ellipsis ++ b)

-- The lines of the statistics; `fmt.Sprintf` of one float verb is a parameter.
pub record Statistics : Type 0 where
  pub rate : Bytes
  pub workers : ℕ
  pub hashes : Bytes
  pub eta : Bytes

module _ (fl : Float64) (sprintf : String → fl.F → Bytes) where
  open fl use {F, literal, of_ℕ, fdiv, flt, fle}

  -- `humanizeHashrate`
  pub humanize_hashrate : F → Bytes
  humanize_hashrate h =
      if fle (literal 1000000000 1) h
      then sprintf "%.2f GH/s" (fdiv h (literal 1000000000 1))
      else if fle (literal 1000000 1) h
      then sprintf "%.2f MH/s" (fdiv h (literal 1000000 1))
      else if fle (literal 1000 1) h
      then sprintf "%.2f kH/s" (fdiv h (literal 1000 1))
      else sprintf "%.0f H/s" h

  -- `humanizeCount`
  pub humanize_count : ℕ → Bytes
  humanize_count n =
      let f = of_ℕ n in
      if fle (literal 1000000000 1) f
      then sprintf "%.2fB" (fdiv f (literal 1000000000 1))
      else if fle (literal 1000000 1) f
      then sprintf "%.2fM" (fdiv f (literal 1000000 1))
      else if fle (literal 1000 1) f
      then sprintf "%.2fk" (fdiv f (literal 1000 1))
      else decimal n

  -- The switch of `estimateETA`.
  pub eta_text : F → Bytes
  eta_text secs =
      if flt secs (literal 60 1)
      then sprintf "%.0fs" secs
      else if flt secs (literal 3600 1)
      then sprintf "%.1fm" (fdiv secs (literal 60 1))
      else if flt secs (literal 86400 1)
      then sprintf "%.1fh" (fdiv secs (literal 3600 1))
      else sprintf "%.1fd" (fdiv secs (literal 86400 1))

  -- The bytes of `—`.
  abbrev pub dash : Bytes
  dash = 0xE2 ∷ 0x80 ∷ 0x94 ∷ []

  -- `estimateETA`
  pub estimate_eta : F → Option ℕ → Bytes
  unfolding eta_text
  estimate_eta hashrate none = dash
  estimate_eta hashrate (some d) =
      if fle hashrate (literal 0 1) || (d == 0)
      then dash
      else eta_text (fdiv (of_ℕ ((2 ^ 256 - 1) / d)) hashrate)

-- The loop of `logHashrate` over the slots; the sums are uint64.
pub totals_from : {Address Key : Type 0} → ℕ × ℕ → List (WorkerSlot Address Key) → ℕ × ℕ
totals_from t [] = t
totals_from t (slot ∷ slots) =
    totals_from ((t.0 + slot.last_hashrate) % 2 ^ 64, (t.1 + slot.last_hashes) % 2 ^ 64) slots

module _ (env : Env) (sprintf : String → env.fl.F → Bytes) where
  open env use {fl, net}
  open fl use {of_ℕ}
  open net use {Address, Key}

  statistics_of : Engine env → List (WorkerSlot Address Key) → Option Statistics
  unfolding humanize_hashrate humanize_count estimate_eta totals_from
  statistics_of e [] = none
  statistics_of e (slot ∷ slots) =
      let t = totals_from (0, 0) (slot ∷ slots) in
      some (record {
        rate = humanize_hashrate fl sprintf (of_ℕ t.0);
        workers = length (slot ∷ slots);
        hashes = humanize_count fl sprintf t.1;
        eta = estimate_eta fl sprintf (of_ℕ t.0) (get_difficulty env e);
      })

  -- `logHashrate`: what is logged, if anything.
  pub log_hashrate : Engine env → Option Statistics
  unfolding statistics_of
  log_hashrate e = statistics_of e e.workers
