-- ===== src/Log/Filter.antt =====
-- internal/logx/logx.go: what a sequence of calls writes.
use hash256_miner.Base.{
  ◌≡◌, refl, ap, ◌∙◌, Bool-cases, inl, inr, List, [], ◌∷◌, ◌++◌, append_assoc, append-nil, Bytes,
  ltb, if◌then◌else◌,
}
use hash256_miner.Log.{Level, Logger, rank, line, prefix_of, logf, log}

pub record Entry : Type 0 where
  pub level : Level
  pub time : Bytes
  pub msg : Bytes

-- The calls one after the other.
pub log_all : List Entry → Logger → Logger
log_all [] l = l
log_all (e ∷ entries) l = log_all entries (log e.level e.time e.msg l)

-- The lines of the entries that are not below the level.
pub lines_from : Level → List Entry → Bytes
lines_from level [] = []
lines_from level (e ∷ entries) =
    let rest = lines_from level entries in
    if ltb (rank e.level) (rank level) then rest else line (prefix_of e.level) e.time e.msg ++ rest

-- A sequence of log calls appends to the output just the lines of those calls whose level is not
-- below the logger's, whole and in their order, and changes nothing else.
log_all_lem :
    (entries : List Entry) (l : Logger)
    → log_all entries l ≡ record l { out = l.out ++ lines_from l.level entries }
unfolding log_all lines_from log logf
log_all_lem [] l = rw (append-nil l.out) refl
log_all_lem (e ∷ entries) l = elim (Bool-cases (ltb (rank e.level) (rank l.level))) [
  | inl below ↦ rw below (log_all_lem entries l)
  | inr written ↦ rw written (
      log_all_lem entries (record l { out = l.out ++ line (prefix_of e.level) e.time e.msg })
      ∙ ap (λ o. record l { out = o })
          (append_assoc l.out (line (prefix_of e.level) e.time e.msg) (lines_from l.level entries)))
]
