-- ===== src/Net/Connection/Transfer.antt =====
-- The reads and writes of src/TcpConnection.cc.
pub mod Reading
pub mod Writing
use reactor_server.Prelude.{
  ℕ, zero, suc, ◌+◌, ◌-◌, ◌*◌, Bool, true, false, not, ◌&&◌, ◌||◌, List, [], ◌∷◌, ◌++◌, Option,
  none, some, length, take, drop, ltb, leb, ◌==◌, if◌then◌else◌, Run, ok, fault, out_of_fuel, ◌>>=◌,
  ◌>>◌, assert,
}
use reactor_server.Prelude.Bytes.{Bytes}
use reactor_server.Net.Channel.{is_reading, is_writing}
use reactor_server.Net.Poller.{
  Poller, set_channel, enable_read, disable_read, enable_write, disable_write, disable_all, remove,
}
use reactor_server.Prelude.Memory.{
  assign, assign_self, assign_ne, assign-same, assign-assign, same-or-other,
}
use reactor_server.Net.Connection.{
  TcpConnection, Action, write_complete_cb, sent, message, act, on_channel, is_disconnecting,
  shutdown_in_loop, handle_close,
}

-- `READ_BUFFER_SIZE` and `WRITE_BUFFER_SIZE`.
abbrev pub read_buffer_size : ℕ
read_buffer_size = 1024 * 100

abbrev pub write_buffer_size : ℕ
write_buffer_size = 1024 * 1024 * 10

-- What `read` and `write` return: bytes, of which there are none where the peer has closed, or
-- -1 with an `errno`.
pub data ReadResult : Type 0 where
  got : Bytes → ReadResult
  read_again read_failed : ReadResult

pub data WriteResult : Type 0 where
  wrote : ℕ → WriteResult
  write_again broken write_failed : WriteResult

-- The `while` of handleRead and what stands behind it, on the answers of `read`.
pub handle_read_loop : List ReadResult → TcpConnection → Run TcpConnection
handle_read_loop [] c = out_of_fuel
handle_read_loop (read_again ∷ answers) c = ok (act c (message c.read_buf))
handle_read_loop (read_failed ∷ answers) c = ok c
handle_read_loop (got [] ∷ answers) c = ok c
handle_read_loop (got (b ∷ bytes) ∷ answers) c =
    let more = record c { read_buf = c.read_buf ++ b ∷ bytes } in
    let rest = handle_read_loop answers more in
    if ltb read_buffer_size (length more.read_buf) then ok more else rest

pub handle_read : List ReadResult → TcpConnection → Run TcpConnection
handle_read answers c = do assert c.poller.in_loop_thread; handle_read_loop answers c

-- The bytes in front of the first 0.
unfoldable pub c_string : Bytes → Bytes
c_string [] = []
c_string (c ∷ s) = if c == 0 then [] else c ∷ c_string s

-- `strcpy` of a text without a 0.
pub copy_to : (ℕ → ℕ) → ℕ → Bytes → ℕ → ℕ
copy_to memory i [] = assign memory i 0
copy_to memory i (c ∷ s) = copy_to (assign memory i c) (suc i) s

-- Some bytes of a memory.
pub bytes_at : (ℕ → ℕ) → ℕ → ℕ → Bytes
bytes_at memory i zero = []
bytes_at memory i (suc n) = memory i ∷ bytes_at memory (suc i) n

abbrev pub writing : TcpConnection → Bool
writing c = is_writing (c.poller.objects c.channel)

-- The first part of sendInLoop: what `n` is, where -1 is `none`, and `faultError`.
pub try_send : WriteResult → Bytes → TcpConnection → Run (TcpConnection × Option ℕ × Bool)
try_send (wrote n) buf c =
    let told = act c (sent (take n buf)) in
    ok (
      if n == length buf && c.has_write_complete_cb then act told write_complete_cb else told,
      some n,
      false,
    )
try_send write_again buf c = on_channel enable_write c >>= λ d. ok (d, none, false)
try_send broken buf c = ok (c, none, true)
try_send write_failed buf c = ok (c, none, false)

-- The second part: `strcpy(writeBuf_ + writeIdx_, buf + n)`. With `n` = -1 it reads in front of `buf`.
pub save_rest : Option ℕ → Bytes → TcpConnection → Run TcpConnection
save_rest none buf c = fault
save_rest (some n) buf c = do
  let text = c_string (drop n buf)
  let kept = record c {
    write_buf = copy_to c.write_buf c.write_idx text;
    write_idx = c.write_idx + (length buf - n);
  }
  saved ← if ltb (c.write_idx + length text) write_buffer_size then ok kept else fault
  if writing saved then ok saved else on_channel enable_write saved

abbrev pub is_short : Option ℕ → ℕ → Bool
is_short none len = true
is_short (some n) len = ltb n len

pub send_in_loop : WriteResult → Bytes → TcpConnection → Run TcpConnection
send_in_loop answer buf c = do
  assert c.poller.in_loop_thread
  (d, n, fault_error) ← if writing c then ok (c, some 0, false) else try_send answer buf c
  e ← if not fault_error && is_short n (length buf) then save_rest n buf d else ok d
  ok (record e { read_buf = [] })

-- What handleWrite does once it takes the data to be sent.
pub finish_write : TcpConnection → Run TcpConnection
finish_write c = do
  idle ← on_channel disable_write c
  let told = if c.has_write_complete_cb then act idle write_complete_cb else idle
  done ← if is_disconnecting told.state then shutdown_in_loop told else ok told
  ok (record done { write_idx = 0; write_buf = λ k. 0 })

-- The `while` of handleWrite, on the answers of `write`.
pub handle_write_loop : List WriteResult → ℕ → ℕ → TcpConnection → Run TcpConnection
handle_write_loop [] to_send have_send c = out_of_fuel
handle_write_loop (write_again ∷ answers) to_send have_send c = do
  d ← if writing c then ok c else on_channel enable_write c
  handle_write_loop answers to_send have_send d
handle_write_loop (wrote zero ∷ answers) to_send have_send c = do
  d ← handle_close c
  handle_write_loop answers to_send have_send d
handle_write_loop (wrote (suc n) ∷ answers) to_send have_send c =
    let told = act c (sent (bytes_at c.write_buf 0 (suc n))) in
    let done = finish_write told in
    let rest = handle_write_loop answers (to_send - suc n) (have_send + suc n) told in
    if leb (to_send - suc n) (have_send + suc n) then done else rest
handle_write_loop (broken ∷ answers) to_send have_send c = ok c
handle_write_loop (write_failed ∷ answers) to_send have_send c = ok c

pub handle_write : List WriteResult → TcpConnection → Run TcpConnection
handle_write answers c = do
  assert c.poller.in_loop_thread
  let sending = handle_write_loop answers c.write_idx 0 c
  if writing c then sending else ok c
