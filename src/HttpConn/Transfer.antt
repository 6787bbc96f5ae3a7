-- ===== src/HttpConn/Transfer.antt =====
-- The calls of the system that HttpConn makes: read, write, process, and what opens and closes it.
pub mod Serving
pub mod Reading
pub mod Writing
use reactor_server.Prelude.{
  ℕ, zero, suc, ◌+◌, ◌-◌, Bool, true, false, not, ◌&&◌, List, [], ◌∷◌, ◌++◌, Option, none, some,
  length, take, ltb, leb, ◌==◌, if◌then◌else◌, Run, ok, out_of_fuel, ◌>>=◌, or_fault,
}
use reactor_server.Prelude.Int.{ℤ, pos, negsuc}
use reactor_server.Prelude.Bytes.{Bytes}
use reactor_server.Prelude.CString.{write_at}
use reactor_server.Http.{HttpCode, no_request}
use reactor_server.HttpConn.{
  HttpConn, FileSystem, Iovec, head_part, file_part, Request, wait_in, wait_out, took,
  read_buffer_size, init, plus,
}
use reactor_server.HttpConn.Process.{process_read}
use reactor_server.HttpConn.Reply.{process_write, gather}

abbrev pub call : HttpConn → Request → HttpConn
call c r = record c { requests = r ∷ c.requests }

abbrev pub is_open : ℤ → Bool
is_open (negsuc zero) = false
is_open _ = true

-- `--n`.
abbrev pub less_one : ℤ → ℤ
less_one (pos zero) = negsuc 0
less_one (pos (suc n)) = pos n
less_one (negsuc n) = negsuc (suc n)

-- closeConn.
pub close_conn : HttpConn → Bool → HttpConn
close_conn c real_close =
    if real_close && is_open c.sock_fd
    then record c { sock_fd = negsuc 0; user_count = less_one c.user_count }
    else c

-- The public `init`, without its socket option.
pub open_conn : HttpConn → ℤ → HttpConn
open_conn c fd = init (record c { sock_fd = fd; user_count = plus 1 c.user_count })

-- What `recv` finds: bytes, of which it takes no more than it has room for, or -1 with an `errno`.
pub data RecvResult : Type 0 where
  got : Bytes → RecvResult
  recv_again recv_failed : RecvResult

-- What `recv` with room for `n` bytes stores and returns.
abbrev pub recv : ℕ → Bytes → Bytes
recv n bytes = take n bytes

-- The `while` of read, on the answers of `recv`.
pub read_loop : List RecvResult → HttpConn → Run (HttpConn × Bool)
read_loop [] c = out_of_fuel
read_loop (recv_again ∷ answers) c = ok (c, true)
read_loop (recv_failed ∷ answers) c = ok (c, false)
read_loop (got bytes ∷ answers) c =
    let chunk = recv (read_buffer_size - c.read_idx) bytes in
    let more : Run (HttpConn × Bool) = (do
      buf ← write_at c.read_buf c.read_idx chunk
      read_loop answers (record c { read_buf = buf; read_idx = c.read_idx + length chunk })) in
    if length chunk == 0 then ok (c, false) else more

pub read : List RecvResult → HttpConn → Run (HttpConn × Bool)
read answers c =
    let rest = read_loop answers c in
    if ltb read_buffer_size c.read_idx then ok (c, false) else rest

-- unmap.
pub unmap : HttpConn → HttpConn
unmap c = record c { file_address = none }

-- What `writev` returns.
pub data WritevResult : Type 0 where
  wrote : ℕ → WritevResult
  writev_again writev_failed : WritevResult

-- The branch of write for a response that is taken as sent, on the value of `linger`.
pub after_send : HttpConn → Bool → HttpConn × Bool
after_send c true = (call (init c) (wait_in c.sock_fd), true)
after_send c false = (call c (wait_in c.sock_fd), false)

-- The `while` of write, on the answers of `writev`. `bytes_to_send` starts at `total` and falls by
-- what `bytes_have_send`, here `sent`, grows, so it is at most that where `total` is at most twice
-- that.
pub write_loop : List WritevResult → ℕ → ℕ → HttpConn → Run (HttpConn × Bool)
write_loop [] total sent c = out_of_fuel
write_loop (writev_again ∷ answers) total sent c = ok (call c (wait_out c.sock_fd), true)
write_loop (writev_failed ∷ answers) total sent c = ok (unmap c, false)
write_loop (wrote n ∷ answers) total sent c = do
  bytes ← gather c c.iv
  let d = call c (took (take n bytes))
  let rest = write_loop answers total (sent + n) d
  if leb total (sent + n + (sent + n)) then ok (after_send (unmap d) d.linger) else rest

pub write : List WritevResult → HttpConn → Run (HttpConn × Bool)
write answers c =
    let rest = write_loop answers c.write_idx 0 c in
    if c.write_idx == 0 then ok (init (call c (wait_in c.sock_fd)), true) else rest

-- The end of process, behind processWrite.
pub after_write : HttpConn × Bool → HttpConn
after_write (c, true) = call c (wait_out c.sock_fd)
after_write (c, false) = let d = close_conn c true in call d (wait_out d.sock_fd)

-- process behind processRead.
pub answer : HttpConn × HttpCode → Run HttpConn
answer (c, no_request) = ok (call c (wait_in c.sock_fd))
answer (c, code) = do r ← process_write c code; ok (after_write r)

pub process : FileSystem → HttpConn → Run HttpConn
process fs c = process_read fs c >>= answer
