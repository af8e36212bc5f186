-- ===== src/AsyncLogger/Tests.antt =====
-- A line is logged, and the thread behind takes it over.
use clear_moon.Prelude.{
  ◌≡◌, ◌≤◌, ◌+◌, refl, true, false, [], ◌∷◌, ◌++◌, none, some, arith, Bytes, length,
}
use clear_moon.Buffer.{Buffer, max_size, cheap_prepend, ensure_writeable, copy_to, resize}
use clear_moon.Buffer
use clear_moon.Buffer.Contents.{contents}
use clear_moon.AsyncLogger.{
  AsyncLogger, create, start, append, back_step, locked, Logs, begins, appends, steps,
}
use clear_moon.AsyncLogger.LogFile.{LogFile, Files, write}
use clear_moon.AsyncLogger.LogFile.Lands.{
  Lands, SameFile, write_all, write-Lands, open_file_is_kept,
}
use clear_moon.AsyncLogger.Fresh.{joined}
use clear_moon.AsyncLogger.Kept.{left_to_write}
use clear_moon.AsyncLogger.Written.{written_in_order}

abbrev line : Bytes
line = 104 ∷ 105 ∷ []

-- A new buffer has no room: it is set aside, and the next one grows.
abbrev logged : AsyncLogger
logged = record {
  running = true;
  current_buffer =
      some
        (record { write_index = 10; read_index = 8; buff = 0 ∷ 0 ∷ 0 ∷ 0 ∷ 0 ∷ 0 ∷ 0 ∷ 0 ∷ line });
  next_buffer = none;
  buffers = Buffer.create ∷ [];
  buff_a = some Buffer.create;
  buff_b = some Buffer.create;
  buffers_to_write = [];
  back = locked;
  written = [];
  appended = line;
}

takes_it : Logs (start create) logged
unfolding start create back_step append Buffer.create Buffer.append ensure_writeable copy_to resize
takes_it = appends line (steps begins refl) refl (omega arith) refl

written_in_order_example :
    ((c : Buffer) × (logged.current_buffer ≡ some c)
      × (logged.written
            ++ (joined (left_to_write logged.back) ++ (joined logged.buffers ++ contents c))
          ≡ line))
    × ((data_ : Bytes)
        → cheap_prepend + length data_ ≤ max_size
        → (m : AsyncLogger) × (append data_ logged ≡ some m))
written_in_order_example = written_in_order takes_it refl

-- A directory "d" with the log "a", and files that can be opened and are new.
abbrev all_new : Files
all_new = record { opens = λ n. true; size_of = λ n. none; takes = λ d. none }

abbrev day : Bytes
day = 49 ∷ []

abbrev closed : LogFile
closed = record {
  name = 97 ∷ [];
  log_dir = 100 ∷ [];
  roll_size = 1;
  is_open = false;
  failing = false;
  last_data = [];
  current_file_name = [];
  sequence = 0;
  has_written_bytes = 0;
  outputs = [];
}

-- "d/1/a.log".
abbrev day_file : LogFile
day_file = record closed {
  is_open = true;
  last_data = day;
  current_file_name = 100 ∷ 47 ∷ 49 ∷ 47 ∷ 97 ∷ 46 ∷ 108 ∷ 111 ∷ 103 ∷ [];
  has_written_bytes = 2;
  outputs = (100 ∷ 47 ∷ 49 ∷ 47 ∷ 97 ∷ 46 ∷ 108 ∷ 111 ∷ 103 ∷ [], line) ∷ [];
}

opens_day : write all_new day line closed ≡ day_file
unfolding write
opens_day = refl

write-Lands_example : Lands day line closed (write all_new day line closed)
write-Lands_example = write-Lands all_new day line closed

open_file_is_kept_example :
    SameFile day_file (line ∷ line ∷ []) (write_all all_new day (line ∷ line ∷ []) day_file)
open_file_is_kept_example =
    open_file_is_kept all_new day (line ∷ line ∷ []) day_file
      (record { file_open = refl; same_day = refl; named = refl })
