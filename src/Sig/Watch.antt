-- ===== src/Sig/Watch.antt =====
-- `SignalWatcher` and `SignalReceiver` of src/sig.rs. The stream of signals and the watch channel are tokio's:
-- they are an interface, with what the code relies on.
use procstar.Prelude.{◌≡◌, Bool, true, Option, none, some, if◌then◌else◌}

-- A stream of one kind of signal, and a watch channel as one receiver sees it. Signals that come before they are
-- received may become one, and so may values that are sent before they are seen.
pub record Channels : Type 1 where
  pub Stream : Type 0
  pub raise : Stream → Stream
  pub ready : Stream → Bool
  pub recv : Stream → Stream
  pub raise_ready : (s : Stream) → ready (raise s) ≡ true
  pub Channel : Type 0
  pub send : Channel → Channel
  pub has_changed : Channel → Bool
  pub mark_seen : Channel → Channel
  pub send_changed : (c : Channel) → has_changed (send c) ≡ true

module _ (k : Channels) where
  open k use {Stream, Channel, ready, recv, send, has_changed, mark_seen}

  -- A turn of the watcher: a signal that has come is transmitted. There is a receiver, so that it goes on.
  unfoldable pub watch : Stream × Channel → Stream × Channel
  watch (stream, sender) = if ready stream then (recv stream, send sender) else (stream, sender)

  -- `SignalReceiver::signal`, when it is polled: `none` is to wait on.
  unfoldable pub signal : Channel → Option Channel
  signal receiver = if has_changed receiver then some (mark_seen receiver) else none
