-- ===== src/Procs/Unread.antt =====
-- What a subscription has not read yet.
use procstar.Prelude.{
  ℕ, suc, ◌≤◌, ◌<◌, ◌≡◌, refl, ap, ◌∙◌, arith, Bool, true, false, List, [], ◌∷◌, ◌++◌, some, length,
  length-append, leb, ◌==◌, ◌&&◌, ◌||◌, string_key, if◌then◌else◌, Bool-cases, inl, inr,
}
use procstar.Spec.{ProcId}
use procstar.Procs.Table.{Notification}
use procstar.Procs.Changes.{live}
use procstar.Procs.Waiting.{at_position, deletes}

-- Whether the deletion of a process is still to be read.
abbrev pub unread : ProcId → ℕ → List Notification → Bool
unread id k [] = false
unread id k (noti ∷ log) = (leb k (length log) && deletes id noti) || unread id k log

pub unread-append :
    (id : ProcId) (k : ℕ) (seg log : List Notification)
    → unread id k log ≡ true
    → unread id k (seg ++ log) ≡ true
unread-append id k [] log h = h
unread-append id k (noti ∷ seg) log h = ground (arith, unread-append id k seg log h)

-- Who was live and is no longer has been deleted in between.
pub unread_deletion :
    (id : ProcId) (k : ℕ) (seg log : List Notification)
    → k ≤ length log
    → live id log ≡ true
    → live id (seg ++ log) ≡ false
    → unread id k (seg ++ log) ≡ true
unread_deletion id k [] log h l d = cc
unread_deletion id k (Notification.start j ∷ seg) log h l d =
    ground (arith, unread_deletion id k seg log h l)
unread_deletion id k (Notification.delete j ∷ seg) log h l d =
    ground (arith, length-append seg log, unread_deletion id k seg log h l)
unread_deletion id k (Notification.not_running j ∷ seg) log h l d =
    ground (arith, unread_deletion id k seg log h l d)
unread_deletion id k (Notification.shut_down j ∷ seg) log h l d =
    ground (arith, unread_deletion id k seg log h l d)

pub unread-length :
    (id : ProcId) (k : ℕ) (log : List Notification) → unread id k log ≡ true → k < length log
unread-length id k [] h = cc
unread-length id k (n ∷ log) h = ground (arith, unread-length id k log)

at_position-cons :
    (k : ℕ) (noti : Notification) (log : List Notification)
    → at_position k (noti ∷ log) ≡ (if length log == k then some noti else at_position k log)
at_position-cons k noti log = refl

some_inj : {A : Type 0} {a b : A} → some a ≡ some b → a ≡ b
some_inj h = cc

pub at_position-length :
    (k : ℕ) (log : List Notification) (noti : Notification)
    → at_position k log ≡ some noti
    → k < length log
at_position-length k [] noti h = cc
at_position-length k (n ∷ log) noti h =
    let h1 : (if length log == k then some n else at_position k log) ≡ some noti = h in
    elim (Bool-cases (length log == k)) [
      | inl here ↦ ground arith
      | inr there ↦
          let e : at_position k log ≡ some noti = rw (there) at h1 in
          ground (arith, at_position-length k log noti e)
    ]

-- What is read and is no deletion leaves the deletion to be read.
pub unread-received :
    (id : ProcId) (k : ℕ) (log : List Notification) (noti : Notification)
    → unread id k log ≡ true
    → at_position k log ≡ some noti
    → deletes id noti ≡ false
    → unread id (suc k) log ≡ true
unread-received id k [] noti h e d = cc
unread-received id k (n ∷ log) noti h e d =
    let e1 : (if length log == k then some n else at_position k log) ≡ some noti = e in
    let h1 : ((leb k (length log) && deletes id n) || unread id k log) ≡ true = h in
    elim (Bool-cases (length log == k)) [
      | inl here ↦
          let n_is : n ≡ noti = some_inj (rw (here) at e1) in
          let kept : deletes id n ≡ false = ap (deletes id) n_is ∙ d in
          ground (arith, unread-length id k log)
      | inr there ↦
          let e2 : at_position k log ≡ some noti = rw (there) at e1 in
          ground (arith, unread-received id k log noti, at_position-length k log noti e2)
    ]

pub at_position-some :
    (k : ℕ) (log : List Notification)
    → k < length log
    → (noti : Notification) × (at_position k log ≡ some noti)
at_position-some k [] h = absurd (omega arith)
at_position-some k (n ∷ log) h = elim (Bool-cases (length log == k)) [
  | inl here ↦ (n, rw (here) refl)
  | inr there ↦ let (noti, e) = at_position-some k log (ground arith) in (noti, rw (there) e)
]
