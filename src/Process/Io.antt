-- ===== src/Process/Io.antt =====
-- process/io.go: processIO and createIO. The copying goroutines, the logger process of a binary
-- URI and the file system are the host's.
use runm.Base.{String, Bool, true, false, Option, none, some, ℤ, ◌==◌, if◌then◌else◌}
use runm.Base.Errors.{new, wrap}
use runm.Base.Go.{Go, Done, pure, fail, skip, map_err, ◌>>=◌, ◌>>◌}
use runm.Process.Host.{Host, Handle, Stdio, Url}

-- `io` is never nil in a value that createIO returns.
pub record ProcessIo : Type 0 where
  pub io : Handle
  pub uri : Option Url
  pub copy : Bool
  pub stdio : Stdio

abbrev pub scheme_or_fifo : Url → Url
scheme_or_fifo u = if u.scheme == "" then record u { scheme = "fifo" } else u

module _ {W : Type 0} (h : Host W) where
  unfoldable pub io_close : Option ProcessIo → Go W Done
  io_close none = skip
  io_close (some p) = h.close p.io

  unfoldable pub io_copy : ProcessIo → Go W Done
  io_copy p =
      if p.copy then map_err (wrap "unable to copy pipes") (h.copy_pipes p.io p.stdio) else skip

  pipe_io : ℤ → ℤ → Stdio → Stdio → Url → Go W ProcessIo
  pipe_io uid gid asked kept u = do
    io ← map_err (wrap "failed to create process IO") (h.new_pipe_io uid gid asked)
    pure (record { io = io; uri = some u; copy = true; stdio = kept })

  binary_io : String → ℤ → ℤ → Stdio → Url → Go W ProcessIo
  binary_io id uid gid stdio u = do
    logger ← map_err (wrap "failed to create binary IO") (h.new_binary_io id u)
    io ← map_err (wrap "failed to wrap binary IO") (h.wrap_binary_io logger uid gid)
    pure (record { io = io; uri = some u; copy = false; stdio = stdio })

  file_io : ℤ → ℤ → Stdio → Url → Go W ProcessIo
  unfolding pipe_io
  file_io uid gid stdio u = do
    map_err (wrap "failed to create directory") (h.make_parent_dir u.path)
    map_err (wrap "failed to create null IO") (h.touch_file u.path)
    pipe_io uid gid stdio (record stdio { stdout = u.path; stderr = u.path }) u

  by_scheme : String → ℤ → ℤ → Stdio → Url → Go W ProcessIo
  unfolding pipe_io binary_io file_io
  by_scheme id uid gid stdio u =
      if u.scheme == "fifo"
      then pipe_io uid gid stdio stdio u
      else (if u.scheme == "binary"
          then binary_io id uid gid stdio u
          else (if u.scheme == "file"
              then file_io uid gid stdio u
              else fail (new "unknown STDIO scheme")))

  unfoldable pub create_io : String → ℤ → ℤ → Stdio → Go W ProcessIo
  unfolding by_scheme
  create_io id uid gid stdio =
      if h.stdio_is_null stdio
      then (do
        io ← map_err (wrap "failed to create null IO") h.new_null_io
        pure (record { io = io; uri = none; copy = false; stdio = stdio }))
      else (do
        u ← map_err (wrap "unable to parse stdout uri") (h.parse_url stdio.stdout)
        by_scheme id uid gid stdio (scheme_or_fifo u))
