-- ===== src/Tcp/Transfer.antt =====
-- net/TcpConnection.h and TcpConnection.cc: what a connection does with bytes and files. What the kernel
-- returns from `write`, `readv`, `sendfile`, `open` and `fstat` is an argument.
pub mod Kept
pub mod Written
use clear_moon.Prelude.{
  ℕ, zero, suc, ◌+◌, ◌*◌, ◌-◌, ◌^◌, Bool, true, false, not, ◌&&◌, ◌||◌, List, [], ◌∷◌, ◌++◌, Option,
  none, some, ◌>>=◌, Bytes, length, take, drop, ltb, leb, ◌==◌, if◌then◌else◌,
}
use clear_moon.Buffer.{
  Buffer, SysResult, failed, done, append, readable_bytes, read_fd, write_fd, peek,
}
use clear_moon.Reactor.Channel.{enable_writing, disable_writing}
use clear_moon.Tcp.Connection.{
  Connection, StateE, Effect, wrote, sent_chunk, closed_fd, message_callback,
  write_complete_callback, log, log_if, leave_task, send_task, send_file_task, on_channel,
  is_connected, is_disconnecting, is_disconnected, is_writing, reset_idle_timer, handle_close,
  handle_error, shutdown_in_loop, force_close_in_loop,
}

abbrev pub eagain : ℕ
eagain = 11

-- `savedErrno`, which starts at 0.
abbrev pub errno_of : {A : Type 0} → SysResult A → ℕ
errno_of (failed e) = e
errno_of (done a) = 0

abbrev pub has_output : Connection → Bool
has_output c = ltb 0 (readable_bytes c.write_buffer)

abbrev pub write_complete : Connection → Connection
write_complete c = log_if c.callbacks.on_write_complete write_complete_callback c

-- Behind the first try: the bytes from `n` on are kept, and writing is turned on.
unfoldable pub keep_rest : ℕ → Bytes → Connection → Option Connection
keep_rest n bytes c =
    if ltb n (length bytes)
    then (do
      b ← append (drop n bytes) c.write_buffer
      let c = record c { write_buffer = b }
      if is_writing c then some c else on_channel enable_writing c)
    else some c

unfoldable pub send_rest : ℕ → Bytes → Connection → Option Connection
send_rest n bytes c = do
  c ← keep_rest n bytes c
  if is_disconnecting c.state && not (has_output c) then shutdown_in_loop c else some c

-- The first try, where nothing waits in front of the bytes: `result` is what `write` returns.
unfoldable pub first_try : SysResult ℕ → Bytes → Connection → Option Connection
first_try (failed e) bytes c = send_rest 0 bytes c
first_try (done n) bytes c =
    let c = log (wrote (take n bytes)) c in
    if n == length bytes then some (write_complete c) else send_rest n bytes c

unfoldable pub send_in_loop : SysResult ℕ → Bytes → Connection → Option Connection
send_in_loop result bytes c =
    if is_disconnected c.state
    then some c
    else if not (is_writing c) && not (has_output c)
    then first_try result bytes c
    else send_rest 0 bytes c

unfoldable pub send : Bool → SysResult ℕ → Bytes → Connection → Option Connection
send in_thread result bytes c =
    if is_connected c.state
    then if in_thread then send_in_loop result bytes c else some (leave_task (send_task bytes) c)
    else some c

-- `opened`: no descriptor, a descriptor whose `fstat` fails, or one and the size of the file.
unfoldable pub send_file_in_loop : Option (ℕ × Option ℕ) → Connection → Option Connection
send_file_in_loop opened c = if is_disconnected c.state then some c else elim opened [
  | none ↦ force_close_in_loop c
  | some (fd, none) ↦ force_close_in_loop (log (closed_fd fd) c)
  | some (fd, some size) ↦ on_channel enable_writing (record c {
    file_fd = some fd;
    file_sent_offset = 0;
    file_total_size = size;
    sending_file = true;
  })
]

unfoldable pub send_file : Bool → Option (ℕ × Option ℕ) → Bytes → Connection → Option Connection
send_file in_thread opened path c =
    if is_connected c.state
    then if in_thread then send_file_in_loop opened c else some (leave_task (send_file_task path) c)
    else some c

-- The events of the channel.
unfoldable pub got_bytes : SysResult Bytes → Connection → Option Connection
got_bytes (failed e) c = if e == eagain then some c else handle_error c
got_bytes (done []) c = handle_close c
got_bytes (done (x ∷ xs)) c =
    let c = reset_idle_timer c in some (log_if c.callbacks.on_message message_callback c)

unfoldable pub handle_read : SysResult Bytes → Connection → Option Connection
unfolding got_bytes
handle_read result c = do
  b ← read_fd result c.read_buffer
  got_bytes result (record c { read_buffer = b })

abbrev pub log_wrote : SysResult ℕ → Bytes → Connection → Connection
log_wrote (failed e) bytes c = c
log_wrote (done n) bytes c = log (wrote (take n bytes)) c

abbrev pub count : SysResult ℕ → ℕ
count (failed e) = 0
count (done n) = n

-- `writeBuffer_.WriteFd`.
unfoldable pub write_out : SysResult ℕ → Connection → Option Connection
write_out result c = do
  let bytes = peek (readable_bytes c.write_buffer) c.write_buffer
  b ← write_fd result c.write_buffer
  some (log_wrote result bytes (record c { write_buffer = b }))

unfoldable pub drain : SysResult ℕ → Connection → Option Connection
unfolding write_out
drain result c = do
  c ← write_out result c
  if ltb 0 (count result)
      then (do
        c ←
            if not (has_output c) && not c.sending_file
            then on_channel disable_writing c
            else some c
        some (write_complete c))
      else if errno_of result == eagain
      then some c
      else handle_error c

-- The file is closed, sent or not.
unfoldable pub finish_file : ℕ → Connection → Option Connection
finish_file fd c =
    on_channel disable_writing
      (record (log (closed_fd fd) c) { file_fd = none; sending_file = false })

abbrev pub chunk_size : ℕ
chunk_size = 64 * 1024

-- `sendfile` moves `fileSentOffset_` on by what it sent.
unfoldable pub send_chunk : SysResult ℕ → ℕ → Connection → Option Connection
unfolding finish_file
send_chunk (failed e) fd c = if e == eagain then some c else finish_file fd c >>= handle_error
send_chunk (done n) fd c =
    let c =
      log (sent_chunk fd c.file_sent_offset n)
        (record c { file_sent_offset = c.file_sent_offset + n }) in
    if ltb 0 n && leb c.file_total_size c.file_sent_offset
    then (do c ← finish_file fd c; some (write_complete c))
    else some c

-- The mode without a file.
unfoldable pub write_plain : SysResult ℕ → Connection → Option Connection
unfolding write_out
write_plain result c =
    if has_output c
    then (do
      c ← write_out result c
      if ltb 0 (count result)
          then (do
            c ← if has_output c then some c else on_channel disable_writing c
            let c = write_complete c
            if is_disconnecting c.state then shutdown_in_loop c else some c)
          else if errno_of result == eagain
          then some c
          else handle_error c)
    else some c

abbrev pub file_to_send : Connection → Option ℕ
file_to_send c = if c.sending_file then c.file_fd else none

unfoldable pub write_behind : SysResult ℕ → SysResult ℕ → Connection → Option Connection
unfolding send_chunk write_plain
write_behind sent again c = elim (file_to_send c) [
  | some fd ↦ send_chunk sent fd c
  | none ↦ write_plain again c
]

-- `result` is what `write` returns at first, `sent` what `sendfile` returns, and `again` what `write`
-- would return in the last branch.
unfoldable pub handle_write :
    SysResult ℕ → SysResult ℕ → SysResult ℕ → Connection → Option Connection
unfolding drain write_behind
handle_write result sent again c =
    if is_writing c
    then (let c = reset_idle_timer c in
        if has_output c
        then (do c ← drain result c; if has_output c then some c else write_behind sent again c)
        else write_behind sent again c)
    else some c
