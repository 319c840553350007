-- ===== src/Procinfo/Statm.antt =====
-- `ProcStatm` of src/procinfo.rs: reading /proc/{pid}/statm.
use Prim.Native.String.{◌++◌ as cat}
use procstar.Prelude.{ℕ, ℤ, ◌*◌, ◌%◌, String, Option, Result, ok, err, Exec, done, bind_exec}
use procstar.Prelude.Text.{split, trim}
use procstar.Prelude.Decimal.{show_ℤ}
use procstar.Io.{IoError}
use procstar.Procinfo.{ProcStatm}
use procstar.Procinfo.Parts.{Parts, ◌>>=◌, pure, next, unsigned, u64_max}
use procstar.Procinfo.Stat.{Platform, ok_or_none}

-- A number of pages in bytes; the product wraps as in a release build.
abbrev pub pages : Platform → ℕ → ℕ
pages p n = n * p.page_size % 18446744073709551616

unfoldable pub read_sizes : Platform → Parts ProcStatm
unfolding next unsigned
read_sizes p = do
  size ← unsigned u64_max
  resident ← unsigned u64_max
  shared ← unsigned u64_max
  text ← unsigned u64_max
  _ ← next
  data_size ← unsigned u64_max
  _ ← next
  pure (record {
    size = pages p size;
    resident = pages p resident;
    shared = pages p shared;
    text = pages p text;
    data_size = pages p data_size;
  })

unfoldable pub parse_statm : Platform → String → Exec ProcStatm
unfolding read_sizes
parse_statm p text = bind_exec (read_sizes p (split b' ' (trim text))) λ (statm, _). done statm

unfoldable pub load_statm : Platform → ℤ → Exec (Result IoError ProcStatm)
unfolding parse_statm
load_statm p pid = elim (p.read_to_string (cat "/proc/" (cat (show_ℤ pid) "/statm"))) [
  | err e ↦ done (err e)
  | ok text ↦ bind_exec (parse_statm p text) λ statm. done (ok statm)
]

unfoldable pub load_statm_or_log : Platform → ℤ → Exec (Option ProcStatm)
unfolding load_statm
load_statm_or_log p pid = bind_exec (load_statm p pid) λ result. done (ok_or_none result)
