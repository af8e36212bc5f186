-- ===== src/Buffer/Tests.antt =====
-- The buffer at concrete bytes.
use clear_moon.Prelude.{◌≡◌, refl, List, [], ◌∷◌, some, arith}
use clear_moon.Buffer.Contents.{IsValid, contents}
use clear_moon.Buffer.Descriptor.{read_fd-contents}
use clear_moon.Buffer.Search.{FirstLineEnd, find_crlf-FirstLineEnd}
use clear_moon.Buffer.Numbers.{read_uint-prepend_int}
use clear_moon.Buffer.Queue.{
  Op, put, get, skip, number, sent, string, uint, run, queue_run, run_refines,
}
use clear_moon.Buffer.{
  Buffer, peek, copy_to, resize, retrieve, retrieve_all, read_as_string, ensure_writeable, append,
  prepend, read_fd, find_crlf, search_crlf, host_to_net, net_to_host, read_uint, write_fd, done,
}

-- Two bytes are left of a vector of twelve: the next bytes go to the front or past the end.
abbrev used : Buffer
used = record {
  write_index = 11;
  read_index = 9;
  buff = 0 ∷ 0 ∷ 0 ∷ 0 ∷ 0 ∷ 0 ∷ 0 ∷ 0 ∷ 1 ∷ 2 ∷ 3 ∷ 0 ∷ [];
}

used-IsValid : IsValid used
used-IsValid = omega arith

abbrev script : List Op
script =
    put (4 ∷ 5 ∷ []) ∷ get 1 ∷ number 2 ∷ put (6 ∷ 7 ∷ 8 ∷ []) ∷ skip 1 ∷ sent (done 1) ∷ get 9 ∷ []

script_runs : run used script ≡ some (string (2 ∷ []) ∷ (uint 772 ∷ (string (7 ∷ 8 ∷ []) ∷ [])))
unfolding run append ensure_writeable copy_to resize read_as_string retrieve retrieve_all peek
    read_uint net_to_host write_fd
script_runs = refl

line_found :
    find_crlf (record used { buff = 0 ∷ 0 ∷ 0 ∷ 0 ∷ 0 ∷ 0 ∷ 0 ∷ 0 ∷ 1 ∷ 13 ∷ 10 ∷ 0 ∷ [] }) ≡ some 0
unfolding find_crlf search_crlf peek
line_found = refl

run_refines_example : run used script ≡ queue_run (2 ∷ 3 ∷ []) script
run_refines_example = run_refines script {b = used} used-IsValid (omega arith)

read_fd-contents_example :
    (b' : Buffer) × (read_fd (done (4 ∷ 5 ∷ 6 ∷ [])) used ≡ some b')
    × IsValid b'
    × (contents b' ≡ 2 ∷ 3 ∷ 4 ∷ 5 ∷ 6 ∷ [])
read_fd-contents_example = read_fd-contents {b = used} (4 ∷ 5 ∷ 6 ∷ []) used-IsValid (omega arith)

find_crlf-FirstLineEnd_example : FirstLineEnd (2 ∷ 3 ∷ []) (find_crlf used)
find_crlf-FirstLineEnd_example = find_crlf-FirstLineEnd {b = used} used-IsValid

read_uint-prepend_int_example :
    (m b' : Buffer) × (prepend (host_to_net 2 258) used ≡ some m)
    × (contents m ≡ 1 ∷ 2 ∷ 2 ∷ 3 ∷ [])
    × (read_uint 2 m ≡ some (258, b'))
    × IsValid b'
    × (contents b' ≡ 2 ∷ 3 ∷ [])
unfolding host_to_net
read_uint-prepend_int_example =
    read_uint-prepend_int {b = used} 2 258 used-IsValid (omega arith) (omega arith)
