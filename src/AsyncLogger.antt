-- ===== src/AsyncLogger.antt =====
-- net/Log/AsyncLogger.h and AsyncLogger.cc: the front end that takes log lines, and the thread behind it
-- that writes them. Each line that the thread has under the lock is a step. `append` takes no lock: a call
-- of it is one step, which can be made, and can fail, between any two of the thread; a `unique_ptr` is an
-- option, and `none` a use of one that is null, or a failed assert.
-- What `write` does with its bytes is left to the file.
pub mod Fresh
pub mod Kept
pub mod Moves
pub mod Turns
pub mod Written
pub mod LogFile
pub mod Tests
use clear_moon.Prelude.{
  ℕ, zero, suc, ◌≡◌, ◌≤◌, ◌+◌, ◌-◌, Bool, true, false, not, ◌||◌, List, [], ◌∷◌, ◌++◌, map, Option,
  none, some, ◌>>=◌, ◌>>◌, assert, Bytes, length, ltb, if◌then◌else◌,
}
use clear_moon.Buffer.{
  Buffer, max_size, cheap_prepend, writeable_bytes, readable_bytes, peek, retrieve_all,
}
use clear_moon.Buffer

-- Where the thread behind is: not there, at the test of its loop, at the lock, under the lock behind each of
-- the lines that change the buffers, writing what is left of its buffers, and over.
pub data Back : Type 0 where
  unborn testing locked pushed replaced swapped ended : Back
  writing : List Buffer → Back

-- `written` is what was given to `write`, and `appended` what was given to `append`.
pub record AsyncLogger : Type 0 where
  pub running : Bool
  pub current_buffer : Option Buffer
  pub next_buffer : Option Buffer
  pub buffers : List Buffer
  pub buff_a : Option Buffer
  pub buff_b : Option Buffer
  pub buffers_to_write : List Buffer
  pub back : Back
  pub written : Bytes
  pub appended : Bytes

unfoldable pub create : AsyncLogger
create = record {
  running = false;
  current_buffer = some Buffer.create;
  next_buffer = some Buffer.create;
  buffers = [];
  buff_a = none;
  buff_b = none;
  buffers_to_write = [];
  back = unborn;
  written = [];
  appended = [];
}

-- The new thread makes its own two buffers.
unfoldable pub start : AsyncLogger → AsyncLogger
start l = if l.running then l else record l {
  running = true;
  buff_a = some Buffer.create;
  buff_b = some Buffer.create;
  buffers_to_write = [];
  back = testing;
}

-- `stop`, up to `join`.
abbrev pub stop : AsyncLogger → AsyncLogger
stop l = record l { running = false }

abbrev pub or_new : Option Buffer → Buffer
or_new none = Buffer.create
or_new (some b) = b

abbrev pub append_to : Bytes → Buffer → AsyncLogger → Option AsyncLogger
append_to data_ c l = Buffer.append data_ c >>= λ c'.
    some (record l { current_buffer = some c'; appended = l.appended ++ data_ })

unfoldable pub append : Bytes → AsyncLogger → Option AsyncLogger
append data_ l = l.current_buffer >>= λ c.
    if ltb (length data_) (writeable_bytes c)
    then append_to data_ c l
    else append_to data_ (or_new l.next_buffer)
        (record l { buffers = l.buffers ++ (c ∷ []); next_buffer = none })

abbrev pub is_empty : List Buffer → Bool
is_empty [] = true
is_empty (_ ∷ _) = false

-- What `next` and `buffB` are behind `if(!nextBuffer_) nextBuffer_ = std::move(buffB)`.
abbrev pub refill : Option Buffer → Option Buffer → Option Buffer × Option Buffer
refill none b = (b, none)
refill (some n) b = (some n, b)

-- The buffers change hands, line by line.
abbrev pub push : Buffer → AsyncLogger → AsyncLogger
push c l = record l { current_buffer = none; buffers = l.buffers ++ (c ∷ []); back = pushed }

abbrev pub replace : AsyncLogger → AsyncLogger
replace l = record l { current_buffer = l.buff_a; buff_a = none; back = replaced }

abbrev pub exchange : AsyncLogger → AsyncLogger
exchange l = record l { buffers_to_write = l.buffers; buffers = l.buffers_to_write; back = swapped }

abbrev pub refill_next : AsyncLogger → AsyncLogger
refill_next l = record l {
  next_buffer = (refill l.next_buffer l.buff_b).0;
  buff_b = (refill l.next_buffer l.buff_b).1;
  back = writing l.buffers_to_write;
}

-- Under the lock, when the wait is over.
abbrev pub take_over_from : Buffer → AsyncLogger → AsyncLogger
take_over_from c l =
    if not (is_empty l.buffers) || ltb 0 (readable_bytes c)
    then push c l
    else if not l.running
    then record l { back = ended }
    else record l { back = writing l.buffers_to_write }

abbrev pub take_over : AsyncLogger → Option AsyncLogger
take_over l = l.current_buffer >>= λ c. some (take_over_from c l)

abbrev pub write_one : Buffer → List Buffer → AsyncLogger → AsyncLogger
write_one b rest l = record l {
  written = l.written ++ peek (readable_bytes b) b;
  back = writing rest;
}

-- `back()` and `pop_back()`; `none` where it is empty.
abbrev pub pop_back : List Buffer → Option (Buffer × List Buffer)
pop_back [] = none
pop_back (b ∷ []) = some (b, [])
pop_back (b ∷ (c ∷ l)) = pop_back (c ∷ l) >>= λ r. some (r.0, b ∷ r.1)

abbrev pub recycle_a : Option Buffer → List Buffer → Option (Option Buffer × List Buffer)
recycle_a (some a) l = some (some a, l)
recycle_a none l = pop_back l >>= λ r. some (some (r.0), r.1)

abbrev pub recycle_b : Option Buffer → List Buffer → Option (Option Buffer × List Buffer)
recycle_b (some b) l = some (some b, l)
recycle_b none [] = some (none, [])
recycle_b none (b ∷ l) = pop_back (b ∷ l) >>= λ r. some (some (r.0), r.1)

-- Behind the writing.
abbrev pub recycle : AsyncLogger → Option AsyncLogger
recycle l = recycle_a l.buff_a (map retrieve_all l.buffers_to_write) >>= λ a.
    recycle_b l.buff_b (a.1) >>= λ b.
    some (record l { buff_a = a.0; buff_b = b.0; buffers_to_write = b.1; back = testing })

-- `none`: the thread waits, or is not there.
abbrev pub back_step_in : Back → AsyncLogger → Option AsyncLogger
back_step_in unborn l = none
back_step_in testing l = some (record l { back = if l.running then locked else ended })
back_step_in locked l = if not l.running || not (is_empty l.buffers) then take_over l else none
back_step_in pushed l = some (replace l)
back_step_in replaced l = some (exchange l)
back_step_in swapped l = some (refill_next l)
back_step_in (writing []) l = recycle l
back_step_in (writing (b ∷ rest)) l = some (write_one b rest l)
back_step_in ended l = none

unfoldable pub back_step : AsyncLogger → Option AsyncLogger
back_step l = back_step_in l.back l

-- Whether the thread behind is not among the lines under the lock.
abbrev pub is_outside : Back → Bool
is_outside pushed = false
is_outside replaced = false
is_outside swapped = false
is_outside _ = true

-- Calls of `append`, of `stop`, and the thread, in any order, but for one thing that the code does not see
-- to, as `append` takes no lock: no `append` is made while the thread is among the lines under the lock,
-- nor two at once. A line has to fit a buffer.
pub data Logs (start_ : AsyncLogger) : AsyncLogger → Type 0 where
  begins : Logs start_ start_
  appends :
      {l m : AsyncLogger} (data_ : Bytes)
      → Logs start_ l
      → is_outside l.back ≡ true
      → cheap_prepend + length data_ ≤ max_size
      → append data_ l ≡ some m
      → Logs start_ m
  stops : {l : AsyncLogger} → Logs start_ l → Logs start_ (stop l)
  steps : {l m : AsyncLogger} → Logs start_ l → back_step l ≡ some m → Logs start_ m
