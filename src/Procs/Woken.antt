-- ===== src/Procs/Woken.antt =====
-- A task that waits for the processes to be deleted misses no deletion.
use procstar.Prelude.{
  ℕ, zero, suc, ◌-◌, ◌≤◌, ◌≡◌, ◌≢◌, refl, ap, arith, true, List, [], ◌∷◌, some, length, string_key,
  Bool-cases, inl, inr, get,
}
use procstar.Spec.{ProcId}
use procstar.Procs.Table.{Notification, Procs, first, head?}
use procstar.Procs.Changes.{is_some, Follows}
use procstar.Procs.Waiting.{
  capacity, at_position, recv, Phase, Waiting, Event, id_of, look, turn, turns, deletes, wait_idle,
  unsubscribe, Received, await_target,
}
use procstar.Procs.Unread.{unread, unread-length, at_position-some}
use procstar.Procs.Alert.{Alert, IsAlert, passed-Alert, wait_idle-Ready}

-- As many receipts as there are notifications to read.
abbrev pub receipts : ℕ → List Event
receipts zero = []
receipts (suc n) = Event.receive ∷ receipts n

receipts-returned :
    (n : ℕ) (w : Procs) (read : ℕ)
    → (turns first deletes
        (receipts n)
        (record { procs = w; read = read; phase = Phase.returned })).phase
      ≡ Phase.returned
unfolding turns turn
receipts-returned zero w read = refl
receipts-returned (suc n) w read = receipts-returned n w read

Alert-unread :
    (w : Procs) (read : ℕ) (id : ProcId)
    → Alert w read id
    → w.procs ≡ []
    → unread id read w.sent ≡ true
unfolding get
Alert-unread w read id a empty = elim a.alert [
  | inr waits ↦ waits
  | inl there ↦ ground (arith, ap (λ m. is_some (get id m)) empty)
]

recv-got :
    (read : ℕ) (w : Procs) (noti : Notification)
    → length w.sent - read ≤ capacity
    → at_position read w.sent ≡ some noti
    → recv read w ≡ Received.got noti
unfolding recv
recv-got read w noti h e = ground (arith, h, e)

look_empty :
    (w : Procs) (read : ℕ)
    → w.procs ≡ []
    → look first deletes w read
      ≡ record { procs = unsubscribe w; read = read; phase = Phase.returned }
unfolding look first
look_empty w read h = ap (λ m. await_target first deletes w read (id_of (head? m))) h

-- With no process left, a task that waits has a deletion to read, and reading on it returns.
receipts_end :
    (n : ℕ) (w : Procs) (read : ℕ) (phase : Phase)
    → IsAlert w read phase
    → phase ≢ Phase.panicked
    → w.procs ≡ []
    → length w.sent - read ≡ n
    → n ≤ capacity
    → (turns first deletes (receipts n) (record { procs = w; read = read; phase = phase })).phase
      ≡ Phase.returned
unfolding turns turn
receipts_end n w read Phase.returned a ok empty e h = receipts-returned n w read
receipts_end n w read Phase.panicked a ok empty e h = absurd (ok refl)
receipts_end zero w read (Phase.awaits id) a ok empty e h =
    absurd (omega (arith, unread-length id read w.sent (Alert-unread w read id a empty)))
receipts_end (suc n) w read (Phase.awaits id) a ok empty e h =
    let (noti, here) =
      at_position-some read w.sent
        (unread-length id read w.sent (Alert-unread w read id a empty)) in
    rw (turns, turn, recv-got read w noti (omega (arith, e, h)) here)
      (elim (Bool-cases (deletes id noti)) [
        | inl woken ↦
            rw (woken, look_empty w (suc read) empty)
              (receipts-returned n (unsubscribe w) (suc read))
        | inr passed ↦ rw (passed) (
            receipts_end n w (suc read) (Phase.awaits id)
              (passed-Alert w read id noti here passed a) ok empty (omega (arith, e))
              (omega (arith, h)))
      ])

-- A task that waits for the processes to be deleted misses no deletion: whatever changes others make, from a table with a
-- subscriber that has followed it, and however the receipts of the task fall between
-- them, if it has not fallen behind, then at any time at which no process is left it returns when it has
-- read what it has not yet read, at most as many notifications as the channel holds.
pub wait_idle-returned :
    (events : List Event) (w : Procs)
    → Follows w
    → (wait_idle events w).phase ≢ Phase.panicked
    → (wait_idle events w).procs.procs ≡ []
    → length (wait_idle events w).procs.sent - (wait_idle events w).read ≤ capacity
    → (turns first deletes
        (receipts (length (wait_idle events w).procs.sent - (wait_idle events w).read))
        (wait_idle events w)).phase
      ≡ Phase.returned
wait_idle-returned events w f ok empty h =
    let s : Waiting = wait_idle events w in
    receipts_end (length s.procs.sent - s.read) s.procs s.read s.phase (wait_idle-Ready events w f)
      ok empty refl h
