-- ===== src/HttpConn/Tests.antt =====
-- Runs of HttpConn at concrete inputs.
use reactor_server.Prelude.{
  ℕ, ◌≡◌, ◌≢◌, refl, Bool, true, false, not, ◌&&◌, ◌||◌, ◌==◌, [], ◌∷◌, none, some, replicate, All,
  arith, out_of_fuel, Returns,
}
use reactor_server.Prelude.Int.{pos}
use reactor_server.Prelude.Bytes.{Bytes, codes}
use reactor_server.Prelude.CString.{same_text, has_prefix, span_blank}
use reactor_server.Http.Context.Lines.{is_break}
use reactor_server.Http.{forbidden_request, file_request, check_state_requestline}
use reactor_server.HttpConn.{HttpConn, FileSystem, FileInfo, get, head_part, wait_in}
use reactor_server.HttpConn.Process.{process_read}
use reactor_server.HttpConn.Process.Progress.{process_read-ends}
use reactor_server.HttpConn.Process.Requests.{Message, IsMessage, render}
use reactor_server.HttpConn.Reply.{process_write, welcome}
use reactor_server.HttpConn.Reply.Room.{HasRoom, Holds}
use reactor_server.HttpConn.Reply.Bounds.{process_write-HasRoom}
use reactor_server.HttpConn.Reply.Files.{file_text, process_write-empty}
use reactor_server.HttpConn.Transfer.{process}
use reactor_server.HttpConn.Transfer.Serving.{
  IsReady, Waits, reply_text, process-Waits, process-missing,
}

-- A client asks for `/a` and to keep the connection.
abbrev message : Message
message = record {
  method = codes "GET";
  path = codes "a";
  headers = codes "Host: b" ∷ codes "Connection: keep-alive" ∷ [];
}

abbrev conn : HttpConn
conn = record {
  user_count = pos 1;
  sock_fd = pos 5;
  read_buf = render message (0 ∷ 0 ∷ []);
  read_idx = 52;
  start_line = 0;
  checked_idx = 0;
  check_state = check_state_requestline;
  write_buf = replicate 1024 0;
  write_idx = 0;
  method = get;
  url = none;
  version = none;
  host = none;
  content_length = pos 0;
  linger = false;
  read_file = [];
  file_address = none;
  st_size = 0;
  iv = [];
  requests = [];
}

-- Each file holds "hi".
abbrev info : FileInfo
info = record { mode = record { others_may_read = true; is_directory = false }; st_size = 2 }

abbrev files : FileSystem
files = record { stat = λ name. some info; content = λ name. codes "hi" }

abbrev no_files : FileSystem
no_files = record { stat = λ name. none; content = λ name. [] }

-- A text no byte of which passes a test.
free_of : (ℕ → Bool) → Bytes → Bool
free_of test [] = true
free_of test (b ∷ s) = not (test b) && free_of test s

All-free_of : (test : ℕ → Bool) (s : Bytes) → free_of test s ≡ true → All (λ b. test b ≡ false) s
unfolding free_of
All-free_of test [] e = tt
All-free_of test (b ∷ s) e = (ground (arith, e), All-free_of test s (ground (arith, e)))

abbrev is_bad : ℕ → Bool
is_bad b = is_break b || b == 0

message-IsMessage : IsMessage message
unfolding same_text has_prefix free_of
message-IsMessage = record {
  is_get = refl;
  method_word = (refl, (refl, (refl, tt)));
  path_word = (refl, tt);
  headers_plain = (
    record {
      some_bytes = refl;
      plain = All-free_of is_bad (codes "Host: b") refl;
      no_length = refl;
    },
    (
      record {
        some_bytes = refl;
        plain = All-free_of is_bad (codes "Connection: keep-alive") refl;
        no_length = refl;
      },
      tt,
    ),
  );
}

conn-IsReady : IsReady conn message (0 ∷ 0 ∷ [])
conn-IsReady = record {
  line_next = refl;
  no_content = refl;
  at_start = record { buf_is = refl; checked_is = refl; start_is = refl; all_read = omega arith };
  fresh = record { size = refl; start = refl };
}

process_read-ends_example : process_read files conn ≢ out_of_fuel
process_read-ends_example = process_read-ends files conn

process_write-HasRoom_example :
    Returns (λ r. HasRoom r.0) (process_write (record conn { write_idx = 1000 }) forbidden_request)
process_write-HasRoom_example =
    process_write-HasRoom (record conn { write_idx = 1000 }) forbidden_request
      (record { size = refl; below = omega arith })

-- The file is mapped.
abbrev mapped : HttpConn
mapped = record conn { file_address = some (codes "hi"); st_size = 2 }

process_write-empty_example :
    Returns
      (λ r. Holds conn (file_text false welcome) r.0 × (r.1 ≡ false))
      (process_write conn file_request)
process_write-empty_example = process_write-empty conn conn-IsReady.fresh refl

process-Waits_example :
    Returns (Waits (reply_text (codes "hi") info true) conn) (process files conn)
unfolding same_text has_prefix span_blank
process-Waits_example =
    process-Waits files message conn (0 ∷ 0 ∷ []) info message-IsMessage conn-IsReady refl refl
      (omega arith) (omega arith)

process-missing_example :
    Returns (λ d. (d.requests ≡ wait_in (pos 5) ∷ []) × (d.write_idx ≡ 0)) (process no_files conn)
process-missing_example =
    process-missing no_files message conn (0 ∷ 0 ∷ []) message-IsMessage conn-IsReady refl

-- A buffer with 2046 bytes in it.
abbrev nearly_full : HttpConn
nearly_full = record conn { read_buf = replicate 2048 0; read_idx = 2046 }

-- A response of eight bytes that is to be written.
abbrev pending : HttpConn
pending = record conn { write_buf = codes "response"; write_idx = 8; iv = head_part 8 ∷ [] }
