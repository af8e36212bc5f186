-- ===== src/AsyncLogger/LogFile.antt =====
-- net/Log/AsyncLogger.cc: `write`, and the file it writes to. The day, as it is formatted, whether a file
-- can be opened, the size that `stat` finds, and how much of the bytes the stream takes, are arguments. A
-- stream that has failed takes nothing until it is opened again. What goes to a file that could not be
-- opened is lost.
pub mod Lands
use clear_moon.Prelude.{
  ℕ, zero, suc, ◌≡◌, ◌+◌, ◌%◌, ◌^◌, ◌<◌, Bool, true, false, not, ◌||◌, ◌&&◌, List, [], ◌∷◌, ◌++◌,
  Option, none, some, Bytes, length, take, ltb, if◌then◌else◌, refl, sym, ap, ◌∙◌, append_assoc,
  append-nil, arith,
}
use clear_moon.OrdMap.{equal, equal_iff}
use clear_moon.StdString.{decimal}

-- `outputs` are the bytes with the file that each went to, the last ones first; `failing` is `fail()` of
-- the stream.
pub record LogFile : Type 0 where
  pub name : Bytes
  pub log_dir : Bytes
  pub roll_size : ℕ
  pub is_open : Bool
  pub failing : Bool
  pub last_data : Bytes
  pub current_file_name : Bytes
  pub sequence : ℕ
  pub has_written_bytes : ℕ
  pub outputs : List (Bytes × Bytes)

-- What the file system says: `takes` is `none` where the stream takes all of the bytes, and else how many.
pub record Files : Type 0 where
  pub opens : Bytes → Bool
  pub size_of : Bytes → Option ℕ
  pub takes : Bytes → Option ℕ

-- "/", "." and ".log".
abbrev pub make_file_name : Bytes → LogFile → Bytes
make_file_name today f =
    f.log_dir
    ++ (47 ∷ today)
    ++ (47 ∷ f.name)
    ++ (if ltb 0 f.sequence then 46 ∷ decimal f.sequence else [])
    ++ (46 ∷ 108 ∷ 111 ∷ 103 ∷ [])

abbrev pub new_day : Bytes → LogFile → LogFile
new_day today f =
    if equal today f.last_data
    then f
    else record f { is_open = false; sequence = 0; has_written_bytes = 0; last_data = today }

abbrev pub size_or_0 : Option ℕ → ℕ
size_or_0 none = 0
size_or_0 (some n) = n

abbrev pub taken : Bool → Option ℕ → Bytes → Bytes
taken true o data_ = []
taken false none data_ = data_
taken false (some n) data_ = take n data_

abbrev pub fails : Bool → Option ℕ → Bool
fails true o = true
fails false none = false
fails false (some n) = true

-- `file_.write`; the length is added even if it fails.
abbrev pub put : Files → Bytes → LogFile → LogFile
put files data_ f = record f {
  outputs = (f.current_file_name, taken f.failing (files.takes data_) data_) ∷ f.outputs;
  failing = fails f.failing (files.takes data_);
  has_written_bytes = f.has_written_bytes + length data_;
}

-- The next file, where the one that was just opened is too long.
abbrev pub roll : Files → Bytes → Bytes → LogFile → LogFile
roll files today data_ f =
    let f = record f { is_open = false; sequence = suc f.sequence } in
    let file_name = make_file_name today f in
    if files.opens file_name
    then put files data_ (record f {
      is_open = true;
      failing = false;
      current_file_name = file_name;
      has_written_bytes = 0;
    })
    else f

abbrev pub opened : Files → Bytes → LogFile → LogFile
opened files today f = record f {
  is_open = true;
  failing = false;
  current_file_name = make_file_name today f;
  has_written_bytes = size_or_0 (files.size_of (make_file_name today f));
}

abbrev pub is_full : Bytes → LogFile → Bool
is_full data_ f =
    ltb f.roll_size ((f.has_written_bytes + length data_) % 2 ^ 64) && ltb 0 f.has_written_bytes

abbrev pub open_file : Files → Bytes → Bytes → LogFile → LogFile
open_file files today data_ f =
    if files.opens (make_file_name today f)
    then if is_full data_ (opened files today f)
      then roll files today data_ (opened files today f)
      else put files data_ (opened files today f)
    else record f { is_open = false }

abbrev pub write_on : Files → Bytes → Bytes → LogFile → LogFile
write_on files today data_ f =
    if not f.is_open || not (equal f.current_file_name (make_file_name today f))
    then open_file files today data_ f
    else put files data_ f

unfoldable pub write : Files → Bytes → Bytes → LogFile → LogFile
write files today data_ f = write_on files today data_ (new_day today f)
