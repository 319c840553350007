-- ===== src/Fd/Capture.antt =====
-- What is captured from a descriptor into memory, and which part of it is given out.
use procstar.Prelude.{
  ℕ, ◌≡◌, ◌≤◌, ◌-◌, arith, sym, ap, ◌∙◌, List, [], ◌∷◌, ◌++◌, append_assoc, append-nil, Option,
  none, some, ok, done, panicked, length, take, drop, unwrap_or, Bool,
}
use procstar.Io.{Bytes}
use procstar.Spec.{RawFd, CaptureEncoding}
use procstar.Sys.Files.{OpenFiles}
use procstar.Fd.{FdHandler}
use procstar.Fd.Handlers.{drain_chunk, run_capture_memory, slice_buf, get_data, data_of}

module _ (fd read_fd write_fd : RawFd) (encoding : Option CaptureEncoding) (attached : Bool) where
  abbrev pub captured : Bytes → FdHandler
  captured buf = FdHandler.capture_memory fd read_fd write_fd encoding buf attached

  -- The chunks up to the first empty one, which is the end of the pipe.
  abbrev pub until_empty : List Bytes → Bytes
  until_empty [] = []
  until_empty ([] ∷ chunks) = []
  until_empty ((c ∷ cs) ∷ chunks) = (c ∷ cs) ++ until_empty chunks

  -- Draining a pipe into a handler appends what comes up to the end of the pipe, in its order, and changes
  -- nothing else of the handler.
  run_capture_memory-captured :
      (chunks : List Bytes) (buf : Bytes)
      → run_capture_memory chunks (captured buf) ≡ done (captured (buf ++ until_empty chunks))
  unfolding run_capture_memory drain_chunk
  run_capture_memory-captured [] buf = ap (λ b. done (captured b)) (sym (append-nil buf))
  run_capture_memory-captured ([] ∷ chunks) buf = ap (λ b. done (captured b)) (sym (append-nil buf))
  run_capture_memory-captured ((c ∷ cs) ∷ chunks) buf =
      run_capture_memory-captured chunks (buf ++ c ∷ cs)
      ∙ ap (λ b. done (captured b)) (append_assoc buf (c ∷ cs) (until_empty chunks))

  -- A request for captured data is answered by the part of the buffer between its bounds, if these are in
  -- order and within the buffer; any other request panics.
  get_data-captured :
      (files : OpenFiles) (buf : Bytes) (start : ℕ) (stop : Option ℕ)
      → ((start ≤ unwrap_or stop (length buf)) × (unwrap_or stop (length buf) ≤ length buf)
          → get_data files (captured buf) start stop
            ≡ done (
              ok (
                  some (
                    data_of encoding
                      (take (unwrap_or stop (length buf) - start) (drop start buf)))),
              files,
            ))
        × (¬ ((start ≤ unwrap_or stop (length buf)) × (unwrap_or stop (length buf) ≤ length buf))
            → get_data files (captured buf) start stop ≡ panicked)
  unfolding get_data slice_buf
  get_data-captured files buf start none = ground arith
  get_data-captured files buf start (some stop) = ground arith
