-- ===== src/Sys/Wait.antt =====
-- `wait` of src/sys.rs: polls or blocks for the end of a process, over the answers of `wait4`.
use procstar.Prelude.{
  ◌≡◌, refl, Bool, false, List, [], ◌∷◌, Option, none, some, Result, ok, err, ℤ, same, int_key,
  same→eq, if◌then◌else◌, arith,
}
use procstar.Io.{IoError, is_interrupted}
use procstar.Procs.Proc.{WaitInfo}

-- What `wait4` answers: `none` where no process has ended.
abbrev pub Answer : Type 0
Answer = Result IoError (Option WaitInfo)

-- How `wait` stands: it has returned, it has panicked, or it goes on after the answers that there are.
pub data Waited : Type 0 where
  returned : Option WaitInfo → Waited
  panics : Waited
  goes_on : Waited

-- An interrupted call is made again, if it blocks; otherwise the caller is told that nothing has ended.
unfoldable pub wait : ℤ → Bool → List Answer → Waited
wait pid block [] = goes_on
wait pid block (ok (some info) ∷ answers) =
    if same info.pid pid then returned (some info) else panics
wait pid block (ok none ∷ answers) = if block then panics else returned none
wait pid block (err e ∷ answers) =
    let again = wait pid block answers in
    if is_interrupted e.kind then if block then again else returned none else panics

wait-pid :
    (pid : ℤ) (block : Bool) (answers : List Answer) (info : WaitInfo)
    → wait pid block answers ≡ returned (some info)
    → info.pid ≡ pid
unfolding wait
wait-pid pid block [] info h = cc
wait-pid pid block (ok (some got) ∷ answers) info h = ground (arith, h, same→eq got.pid pid)
wait-pid pid block (ok none ∷ answers) info h = ground (arith, h)
wait-pid pid block (err e ∷ answers) info h = ground (arith, h, wait-pid pid block answers info)

wait_one_answer :
    (pid : ℤ) (answer : Answer) (answers : List Answer)
    → wait pid false (answer ∷ answers) ≡ wait pid false (answer ∷ [])
unfolding wait
wait_one_answer pid (ok (some got)) answers = refl
wait_one_answer pid (ok none) answers = refl
wait_one_answer pid (err e) answers = refl

-- What `wait` returns with is the end of the process that it waits for; and a wait that does not block is
-- over after one answer.
wait_cases :
    (pid : ℤ) (block : Bool) (answers : List Answer)
    → ((info : WaitInfo) → wait pid block answers ≡ returned (some info) → info.pid ≡ pid)
      × ((answer : Answer) → wait pid false (answer ∷ answers) ≡ wait pid false (answer ∷ []))
wait_cases pid block answers =
    (wait-pid pid block answers, λ answer. wait_one_answer pid answer answers)
