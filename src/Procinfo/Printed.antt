-- ===== src/Procinfo/Printed.antt =====
-- Reading back what the kernel prints in /proc/{pid}/stat.
use Prim.Native.Nat.{bit_or, bit_or-bitwise}
use Prim.Native.String.{◌++◌}
use procstar.Prelude.{
  ℕ, ℤ, negsuc, Fits, ◌+◌, ◌*◌, ◌≤◌, ◌<◌, ◌≡◌, refl, ap, ◌∙◌, arith, String, List, [], ◌∷◌, Option,
  none, some, ok, Exec, done, bind_exec, All, map, eq_iff, sym, subst, zero, suc, pos, ◌^◌, ◌==◌,
  unwrap_or, if◌then◌else◌, ◌≢◌, ◌/◌, ◌%◌,
}
use procstar.Prelude.Decimal.{
  show_ℕ, show_ℤ, parse_i32-show_ℤ, parse_uint-show_ℕ, parse_int-show_ℤ, show_ℕ-HasDigitHead,
  HasDigitHead, is_digit,
}
use procstar.Prelude.Text.{IsWord, split_once, split}
use procstar.Prelude.Text.Words.{join, split-join, trim-join, split_once-Lacks, word-Lacks}
use procstar.Prelude.Decimal.Words.{show_ℕ-IsWord, show_ℤ-IsWord}
use procstar.Procinfo.Parts.{
  expect, lift, next, skip, unsigned, signed, i32_max, u32_max, i64_max, u64_max,
}
use procstar.Procinfo.Stat.{
  Platform, parse, read_columns, read_tpgid, split_tty, expand_from, expand_sig_bitmap, as_u32,
  exit_name, skips, rate,
}
use procstar.Procinfo.Line.{
  Line, Column, natural, integer, group, show_tpgid, show_column, numbers, columns, print,
}
use procstar.Procinfo.Meaning.{
  FitsTpgid, IsPrintable, meaning, signals_from, signals_of, lowered, as_read,
}
use procstar.Sig.{get_abbrev}
use native.Mathlib.Nat.{div-div-eq-div-mul, pow-suc}

unsigned-show_ℕ :
    (max n : ℕ) (rest : List String) → n ≤ max → unsigned max (show_ℕ n ∷ rest) ≡ done (n, rest)
unfolding unsigned next
unsigned-show_ℕ max n rest h = rw (parse_uint-show_ℕ max n h) refl

signed-show_ℤ :
    (max : ℕ) (z : ℤ) (rest : List String)
    → Fits max z
    → signed max (show_ℤ z ∷ rest) ≡ done (z, rest)
unfolding signed next
signed-show_ℤ max z rest h = rw (parse_int-show_ℤ max z h) refl

minus_one_head : HasDigitHead "-1" → ⊥
unfolding is_digit
minus_one_head h = ground arith

ne-minus_one : (s : String) → HasDigitHead s → s ≢ "-1"
unfolding is_digit
ne-minus_one s h e = absurd (minus_one_head (subst HasDigitHead e h))

read_tpgid-show : (tpgid : Option ℕ) → FitsTpgid tpgid → read_tpgid (show_tpgid tpgid) ≡ done tpgid
unfolding read_tpgid
read_tpgid-show none h = refl
read_tpgid-show (some n) h = ground (
  arith,
  eq_iff (show_ℕ n) "-1",
  ne-minus_one (show_ℕ n) (show_ℕ-HasDigitHead n),
  ap expect (parse_uint-show_ℕ u32_max n h),
)

bit_or_zero : (b : ℕ) → bit_or 0 b ≡ b
bit_or_zero b = λ i. bit_or-bitwise 0 b i

split_tty-bytes : (a b : ℕ) → a < 256 → b < 256 → split_tty (a * 256 + b) ≡ (a, b)
unfolding split_tty
split_tty-bytes a b ha hb =
    let no_high : (a * 256 + b) / 65536 ≡ 0 = omega arith in
    let low : (a * 256 + b) % 256 ≡ b = omega arith in
    rw (no_high, low, bit_or_zero b) (ground arith)

rate_known : (p : Platform) (tick : ℤ) → p.clk_tck ≡ ok tick → rate p ≡ done tick
rate_known p tick h = rw h refl

lift-done :
    {A : Type 0} {m : Exec A} {a : A} (parts : List String)
    → m ≡ done a
    → lift m parts ≡ done (a, parts)
lift-done parts h = rw h refl

-- A column that is read.
column : {A B : Type 0} {m : Exec A} {a : A} (f : A → Exec B) → m ≡ done a → bind_exec m f ≡ f a
column f h = rw h refl

split_once_here : (t : String) → split_once 40 (String.◌∷◌ "(" t) ≡ some ("", t)
unfolding split_once
split_once_here t = refl

-- Bit `s` of a mask is the lowest of what is left of the mask above `s` bits.
expand_from-signals_from :
    (count s bits : ℕ) → expand_from count s bits ≡ signals_from count s (bits / 2 ^ s)
unfolding expand_from signals_from
expand_from-signals_from zero s bits = refl
expand_from-signals_from (suc count) s bits =
    let next : bits / 2 ^ suc s ≡ bits / 2 ^ s / 2 =
      rw (pow-suc 2 s) (sym (div-div-eq-div-mul bits (2 ^ s) 2)) in
    ap (λ rest. if bits / 2 ^ s % 2 == 1 then unwrap_or (get_abbrev (pos s)) "???" ∷ rest else rest)
      (expand_from-signals_from count (suc s) bits ∙ ap (signals_from count (suc s)) next)

expand_sig_bitmap-lowered : (mask : ℤ) → expand_sig_bitmap mask ≡ signals_of (lowered mask)
unfolding expand_sig_bitmap signals_of
expand_sig_bitmap-lowered mask = expand_from-signals_from 31 1 (as_u32 mask)

read_columns-columns :
    (p : Platform) (tick : ℤ) (name : Option String) (l : Line)
    → IsPrintable l
    → p.clk_tck ≡ ok tick
    → exit_name l.exit_signal ≡ done name
    → read_columns p l.pid l.comm (columns l) ≡ done (meaning p tick name (as_read l), [])
unfolding read_columns next skip skips
read_columns-columns p tick name l f clock named =
    column _ (signed-show_ℤ i32_max l.ppid _ f.ppid)
    ∙ column _ (unsigned-show_ℕ u32_max l.pgrp _ f.pgrp)
    ∙ column _ (signed-show_ℤ i32_max l.session _ f.session)
    ∙ column _ (
        unsigned-show_ℕ u32_max (l.tty_major * 256 + l.tty_minor) _
          (omega (arith, f.tty_major, f.tty_minor)))
    ∙ column _ (lift-done _ (read_tpgid-show l.tpgid f.tpgid))
    ∙ column _ (unsigned-show_ℕ u32_max l.flags _ f.flags)
    ∙ column _ (unsigned-show_ℕ u64_max l.minflt _ f.minflt)
    ∙ column _ (unsigned-show_ℕ u64_max l.cminflt _ f.cminflt)
    ∙ column _ (unsigned-show_ℕ u64_max l.majflt _ f.majflt)
    ∙ column _ (unsigned-show_ℕ u64_max l.cmajflt _ f.cmajflt)
    ∙ column _ (lift-done _ (rate_known p tick clock))
    ∙ column _ (unsigned-show_ℕ u64_max l.utime _ f.utime)
    ∙ column _ (unsigned-show_ℕ u64_max l.stime _ f.stime)
    ∙ column _ (unsigned-show_ℕ u64_max l.cutime _ f.cutime)
    ∙ column _ (unsigned-show_ℕ u64_max l.cstime _ f.cstime)
    ∙ column _ (signed-show_ℤ i64_max l.priority _ f.priority)
    ∙ column _ (signed-show_ℤ i64_max l.nice _ f.nice)
    ∙ column _ (signed-show_ℤ i64_max l.num_threads _ f.num_threads)
    ∙ column _ (unsigned-show_ℕ u64_max l.starttime _ f.starttime)
    ∙ column _ (unsigned-show_ℕ u64_max l.vsize _ f.vsize)
    ∙ column _ (signed-show_ℤ i64_max l.rss _ f.rss)
    ∙ column _ (unsigned-show_ℕ u64_max l.rsslim _ f.rsslim)
    ∙ column _ (signed-show_ℤ i32_max l.signal _ f.signal)
    ∙ column _ (signed-show_ℤ i32_max l.blocked _ f.blocked)
    ∙ column _ (signed-show_ℤ i32_max l.sigignore _ f.sigignore)
    ∙ column _ (signed-show_ℤ i32_max l.sigcatch _ f.sigcatch)
    ∙ column _ (unsigned-show_ℕ u64_max l.wchan _ f.wchan)
    ∙ column _ (signed-show_ℤ i32_max l.exit_signal _ f.exit_signal)
    ∙ column _ (lift-done _ named)
    ∙ column _ (signed-show_ℤ i32_max l.processor _ f.processor)
    ∙ column _ (unsigned-show_ℕ u32_max l.rt_priority _ f.rt_priority)
    ∙ column _ (unsigned-show_ℕ u32_max l.policy _ f.policy)
    ∙ column _ (unsigned-show_ℕ u64_max l.delayacct_blkio_ticks _ f.delayacct_blkio_ticks)
    ∙ column _ (unsigned-show_ℕ u64_max l.guest_time _ f.guest_time)
    ∙ column _ (signed-show_ℤ i64_max l.cguest_time _ f.cguest_time)
    ∙ column _ (signed-show_ℤ i32_max l.exit_code _ f.exit_code)
    ∙ (λ i. done (
      record (meaning p tick name (as_read l)) {
        tty_nr = split_tty-bytes l.tty_major l.tty_minor f.tty_major f.tty_minor i;
        signal = expand_sig_bitmap-lowered l.signal i;
        blocked = expand_sig_bitmap-lowered l.blocked i;
        sigignore = expand_sig_bitmap-lowered l.sigignore i;
        sigcatch = expand_sig_bitmap-lowered l.sigcatch i;
      },
      [],
    ))

show_tpgid-IsWord : (tpgid : Option ℕ) → IsWord (show_tpgid tpgid)
unfolding show_ℤ
show_tpgid-IsWord none = show_ℤ-IsWord (negsuc 0)
show_tpgid-IsWord (some n) = show_ℕ-IsWord n

show_column-IsWord : (c : Column) → IsWord (show_column c)
show_column-IsWord (natural n) = show_ℕ-IsWord n
show_column-IsWord (integer z) = show_ℤ-IsWord z
show_column-IsWord (group tpgid) = show_tpgid-IsWord tpgid

show_column-All : (cs : List Column) → All IsWord (map show_column cs)
show_column-All [] = tt
show_column-All (c ∷ cs) = (show_column-IsWord c, show_column-All cs)

columns-IsWord : (l : Line) → IsPrintable l → All IsWord (columns l)
columns-IsWord l f = (f.state, show_column-All (numbers l))

-- The text of a line is read as what the line means, but for the masks of signals: in them every signal is
-- read under the name of the one before it, and SIGHUP is not read. This is where its exit signal is none or
-- has a name, its command has no closing parenthesis and its terminal's device numbers fit a byte each.
pub parse-print :
    (p : Platform) (tick : ℤ) (name : Option String) (l : Line)
    → IsPrintable l
    → p.clk_tck ≡ ok tick
    → exit_name l.exit_signal ≡ done name
    → parse p (print l) ≡ done (meaning p tick name (as_read l))
unfolding parse
parse-print p tick name l f clock named =
    let rest : String = join (columns l) ++ "\n" in
    let after_open : String = l.comm ++ String.◌∷◌ ")" (String.◌∷◌ " " rest) in
    column _ (
      ap expect (
        split_once-Lacks 32 " " (show_ℤ l.pid) (String.◌∷◌ "(" after_open)
          (word-Lacks (show_ℤ l.pid) (show_ℤ-IsWord l.pid)) refl))
    ∙ column _ (ap expect (parse_i32-show_ℤ l.pid f.pid))
    ∙ column _ (ap expect (split_once_here after_open))
    ∙ column _ (ap expect (split_once-Lacks 41 ")" l.comm (String.◌∷◌ " " rest) f.comm refl))
    ∙ column (λ (stat, _). done stat)
        (ap (read_columns p l.pid l.comm) (
            ap (split 32) (trim-join l.state (map show_column (numbers l)) (columns-IsWord l f))
            ∙ split-join l.state (map show_column (numbers l)) (columns-IsWord l f))
          ∙ read_columns-columns p tick name l f clock named)
