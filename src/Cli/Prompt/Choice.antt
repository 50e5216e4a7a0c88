-- ===== src/Cli/Prompt/Choice.antt =====
-- internal/cli/wallet.go: the answers of `askChoice`.
use hash256_miner.Base.{
  ℕ, zero, suc, arith, some, get_elem?, ◌≡◌, ◌≢◌, inl, inr, refl, sym, ap, true, false, List, [],
  ◌∷◌, ◌++◌, Bytes, text_eq, text_eq_iff, trim_space, All, Bool-cases,
}
use hash256_miner.Cli.Prompt.{is_one_of, choose}

some-injective : {a b : Bytes} → some a ≡ some b → b ≡ a
some-injective h = cc

one_of :
    (s : Bytes) (valid : List Bytes)
    → is_one_of s valid ≡ true
    → (k : ℕ) × (get_elem? valid k ≡ some s)
unfolding is_one_of
one_of s [] h = cc
one_of s (v ∷ valid) h = elim (Bool-cases (text_eq s v)) [
  | inl same ↦ (0, ap some (sym ((text_eq_iff s v).0 same)))
  | inr other ↦ let (k, e) = one_of s valid (rw other at h) in (suc k, e)
]

not_one_of :
    (s : Bytes) (valid : List Bytes)
    → is_one_of s valid ≡ false
    → (k : ℕ) → get_elem? valid k ≢ some s
unfolding is_one_of
not_one_of s [] h k = λ e. cc
not_one_of s (v ∷ valid) h zero =
    λ e. let same = (text_eq_iff s v).1 (some-injective e) in ground arith
not_one_of s (v ∷ valid) h (suc k) = not_one_of s valid (ground arith) k

-- The line is neither empty nor an answer, and the question is put again.
pub record Refused (valid : List Bytes) (line : Bytes) : Type 0 where
  pub nonempty : trim_space line ≢ []
  pub unknown : (k : ℕ) → get_elem? valid k ≢ some (trim_space line)

-- How a question was answered: by the end of the input, by an empty line, or by a valid one.
pub data Answer (valid : List Bytes) (def : Bytes) : List Bytes → Bytes → List Bytes → Type 0 where
  ended : Answer valid def [] def []
  empty :
      {line : Bytes} {lines : List Bytes}
      → trim_space line ≡ []
      → Answer valid def (line ∷ lines) def lines
  given :
      {line : Bytes} {lines : List Bytes} (k : ℕ)
      → get_elem? valid k ≡ some (trim_space line)
      → Answer valid def (line ∷ lines) (trim_space line) lines

-- The lines that were refused stand in front of those that the answer was taken from.
pub record Asked (valid : List Bytes) (def : Bytes) (lines : List Bytes) (answer : Bytes)
    (rest : List Bytes) : Type 0 where
  pub refused : List Bytes
  pub all_refused : All (Refused valid) refused
  pub left : List Bytes
  pub split : lines ≡ refused ++ left
  pub answered : Answer valid def left answer rest

-- `askChoice` always returns: its answer is the trimmed first line that is empty, which stands for
-- the default, or one of the valid ones, or the default at the end of the input; every line before
-- it was refused, and the lines behind it are left to be read.
choose-Asked :
    (valid : List Bytes) (def : Bytes) (lines : List Bytes)
    → Asked valid def lines (choose valid def lines).0 (choose valid def lines).1
unfolding choose
choose-Asked valid def [] = record {
  refused = [];
  all_refused = tt;
  left = [];
  split = refl;
  answered = ended;
}
choose-Asked valid def (line ∷ lines) = elim (Bool-cases (text_eq (trim_space line) [])) [
  | inl blank ↦ rw blank (record {
    refused = [];
    all_refused = tt;
    left = line ∷ lines;
    split = refl;
    answered = empty ((text_eq_iff (trim_space line) []).0 blank);
  })
  | inr filled ↦ rw filled (elim (Bool-cases (is_one_of (trim_space line) valid)) [
    | inl known ↦ rw known (record {
      refused = [];
      all_refused = tt;
      left = line ∷ lines;
      split = refl;
      answered =
          given (one_of (trim_space line) valid known).0 (one_of (trim_space line) valid known).1;
    })
    | inr unknown ↦ rw unknown (
        let again = choose-Asked valid def lines in
        record {
          refused = line ∷ again.refused;
          all_refused = (
            record {
              nonempty = λ e. let yes = (text_eq_iff (trim_space line) []).1 e in cc;
              unknown = not_one_of (trim_space line) valid unknown;
            },
            again.all_refused,
          );
          left = again.left;
          split = ap (λ l. line ∷ l) again.split;
          answered = again.answered;
        })
  ])
]
