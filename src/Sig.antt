-- ===== src/Sig.antt =====
-- src/sig.rs: the names of signals, and the watching for them. A `Signum` is a `c_int`.
pub mod Watch
use procstar.Prelude.{
  String, List, [], ◌∷◌, Option, none, some, ℤ, pos, same, int_key, string_key, if◌then◌else◌, ◌≡◌,
  refl, subst, arith, All, Bool-cases, inl, inr, same→eq,
}
use procstar.Prelude.Decimal.{parse_i32}

abbrev pub Signum : Type 0
Signum = ℤ

abbrev pub sigint : Signum
sigint = pos 2

abbrev pub sigquit : Signum
sigquit = pos 3

abbrev pub sigkill : Signum
sigkill = pos 9

abbrev pub sigusr1 : Signum
sigusr1 = pos 10

abbrev pub sigusr2 : Signum
sigusr2 = pos 12

abbrev pub sigterm : Signum
sigterm = pos 15

abbrev pub SignalTable : Type 0
SignalTable = List (String × Signum)

-- The entries of `SIGNAL_NUMS`; it is a hash map, whose order never shows since no name and no number
-- stands twice.
unfoldable pub signal_nums : SignalTable
signal_nums =
    ("SIGHUP", pos 1)
    ∷ ("SIGINT", sigint)
    ∷ ("SIGQUIT", sigquit)
    ∷ ("SIGILL", pos 4)
    ∷ ("SIGTRAP", pos 5)
    ∷ ("SIGABRT", pos 6)
    ∷ ("SIGBUS", pos 7)
    ∷ ("SIGFPE", pos 8)
    ∷ ("SIGKILL", sigkill)
    ∷ ("SIGUSR1", sigusr1)
    ∷ ("SIGSEGV", pos 11)
    ∷ ("SIGUSR2", sigusr2)
    ∷ ("SIGPIPE", pos 13)
    ∷ ("SIGALRM", pos 14)
    ∷ ("SIGTERM", sigterm)
    ∷ ("SIGCHLD", pos 17)
    ∷ ("SIGCONT", pos 18)
    ∷ ("SIGSTOP", pos 19)
    ∷ ("SIGTSTP", pos 20)
    ∷ ("SIGTTIN", pos 21)
    ∷ ("SIGTTOU", pos 22)
    ∷ ("SIGURG", pos 23)
    ∷ ("SIGXCPU", pos 24)
    ∷ ("SIGXFSZ", pos 25)
    ∷ ("SIGVTALRM", pos 26)
    ∷ ("SIGPROF", pos 27)
    ∷ ("SIGWINCH", pos 28)
    ∷ ("SIGIO", pos 29)
    ∷ ("SIGPWR", pos 30)
    ∷ ("SIGSYS", pos 31)
    ∷ []

unfoldable pub number_of : String → SignalTable → Option Signum
number_of name [] = none
number_of name ((n, i) ∷ table) = if same n name then some i else number_of name table

-- `SIGNAL_ABBREVS.get`: the table read from number to name.
unfoldable pub name_of : Signum → SignalTable → Option String
name_of signum [] = none
name_of signum ((n, i) ∷ table) = if same i signum then some n else name_of signum table

abbrev or_parse : Option Signum → String → Option Signum
or_parse (some i) name = some i
or_parse none name = parse_i32 name

unfoldable pub parse_signum : String → Option Signum
unfolding number_of signal_nums
parse_signum name = or_parse (number_of name signal_nums) name

unfoldable pub get_abbrev : Signum → Option String
unfolding name_of signal_nums
get_abbrev signum = name_of signum signal_nums

name_of-All :
    (P : String → Signum → Type 0) (table : SignalTable) (signum : Signum) (name : String)
    → All (λ e. P e.0 e.1) table
    → name_of signum table ≡ some name
    → P name signum
unfolding name_of
name_of-All P [] signum name h e = cc
name_of-All P ((n, i) ∷ table) signum name (h, hs) e = elim (Bool-cases (same i signum)) [
  | inl here ↦
      let same_name : n ≡ name = ground arith in
      subst (λ s. P s signum) same_name (subst (P n) (same→eq i signum here) h)
  | inr there ↦ name_of-All P table signum name hs (ground arith)
]

names_read_back : All (λ e. parse_signum e.0 ≡ some e.1) signal_nums
unfolding parse_signum
names_read_back = (
  refl,
  (
    refl,
    (
      refl,
      (
        refl,
        (
          refl,
          (
            refl,
            (
              refl,
              (
                refl,
                (
                  refl,
                  (
                    refl,
                    (
                      refl,
                      (
                        refl,
                        (
                          refl,
                          (
                            refl,
                            (
                              refl,
                              (
                                refl,
                                (
                                  refl,
                                  (
                                    refl,
                                    (
                                      refl,
                                      (
                                        refl,
                                        (
                                          refl,
                                          (
                                            refl,
                                            (
                                              refl,
                                              (
                                                refl,
                                                (refl, (refl, (refl, (refl, (refl, (refl, tt)))))),
                                              ),
                                            ),
                                          ),
                                        ),
                                      ),
                                    ),
                                  ),
                                ),
                              ),
                            ),
                          ),
                        ),
                      ),
                    ),
                  ),
                ),
              ),
            ),
          ),
        ),
      ),
    ),
  ),
)

-- The name of a signal is read back as its number.
pub parse_signum-get_abbrev :
    (signum : Signum) (name : String)
    → get_abbrev signum ≡ some name
    → parse_signum name ≡ some signum
unfolding get_abbrev
parse_signum-get_abbrev signum name e =
    name_of-All (λ n i. parse_signum n ≡ some i) signal_nums signum name names_read_back e
