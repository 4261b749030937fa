-- ===== src/Ring.antt =====
-- src/ringbuffer.c, src/ringbuffer.h and src/memmem.c: the byte ring between the serial line and
-- the response reader, and under the audio mixer. A pointer into the storage is an offset, and
-- `struct iovec iov[2]` is a record of two base/length pairs, which each function is handed and
-- returns changed where the C code changes it.
pub mod Bounds
pub mod Contents
pub mod Queue
pub mod Gather
pub mod Search
pub mod Tests
use asterisk_chan_quectel.Prelude.{
  ℕ, zero, suc, ◌+◌, ◌-◌, ◌≡◌, Bool, true, false, ◌&&◌, ◌||◌, Option, none, some, List, [], ◌∷◌,
  ltb, leb, ◌==◌, if◌then◌else◌, add_size, sub_size, slice, splice, get_or,
}

pub record Ringbuffer : Type 0 where
  pub buffer : List ℕ
  pub size : ℕ
  pub used : ℕ
  pub read : ℕ
  pub write : ℕ

pub record Iov : Type 0 where
  pub base0 : ℕ
  pub len0 : ℕ
  pub base1 : ℕ
  pub len1 : ℕ

unfoldable pub rb_init : List ℕ → ℕ → Ringbuffer
rb_init buf size = record { buffer = buf; size = size; used = 0; read = 0; write = 0 }

unfoldable pub rb_reset : Ringbuffer → Ringbuffer
rb_reset rb = record rb { used = 0; read = 0; write = 0 }

abbrev pub rb_used : Ringbuffer → ℕ
rb_used rb = rb.used

abbrev pub rb_free : Ringbuffer → ℕ
rb_free rb = sub_size rb.size rb.used

-- `if (free < len) len = free;`
unfoldable pub clip : ℕ → ℕ → ℕ
clip free len = if ltb free len then free else len

-- `!memcmp(a, b, n)` on the bytes that both sides hold.
unfoldable pub bytes_eq : List ℕ → List ℕ → Bool
bytes_eq [] [] = true
bytes_eq [] (y ∷ ys) = false
bytes_eq (x ∷ xs) [] = false
bytes_eq (x ∷ xs) (y ∷ ys) = x == y && bytes_eq xs ys

-- The result of a C `int` function that returns 0, 1 or -1.
pub data Verdict : Type 0 where
  equal differs too_short : Verdict

unfoldable pub rb_memcmp : Ringbuffer → List ℕ → ℕ → Verdict
rb_memcmp rb mem len =
    if ltb 0 rb.used && ltb 0 len && leb len rb.used
    then (if ltb rb.size (add_size rb.read len)
        then (let tmp = sub_size rb.size rb.read in
            if bytes_eq (slice rb.buffer rb.read tmp) (slice mem 0 tmp)
              && bytes_eq (slice rb.buffer 0 (sub_size len tmp)) (slice mem tmp (sub_size len tmp))
            then equal
            else differs)
        else (if bytes_eq (slice rb.buffer rb.read len) (slice mem 0 len) then equal else differs))
    else too_short

unfoldable pub rb_read_all_iov : Ringbuffer → Iov → ℕ × Iov
rb_read_all_iov rb iov =
    if ltb 0 rb.used
    then (if ltb rb.size (add_size rb.read rb.used)
        then (let first = sub_size rb.size rb.read in
            (2, record { base0 = rb.read; len0 = first; base1 = 0; len1 = sub_size rb.used first }))
        else (1, record iov { base0 = rb.read; len0 = rb.used; len1 = 0 }))
    else (0, iov)

unfoldable pub rb_read_n_iov : Ringbuffer → Iov → ℕ → ℕ × Iov
rb_read_n_iov rb iov len =
    if ltb rb.used len
    then (0, iov)
    else (if ltb 0 len
        then (if ltb rb.size (add_size rb.read len)
            then (let first = sub_size rb.size rb.read in
                (2, record { base0 = rb.read; len0 = first; base1 = 0; len1 = sub_size len first }))
            else (1, record iov { base0 = rb.read; len0 = len; len1 = 0 }))
        else (0, iov))

-- `big[n] >= ' '` for a signed `char`: the bytes from 128 on are negative.
abbrev pub is_printable : ℕ → Bool
is_printable b = leb 32 b && ltb b 128

unfoldable pub rb_read_upd : Ringbuffer → ℕ → Ringbuffer × ℕ
rb_read_upd rb len =
    let n = clip rb.used len in
    if ltb 0 n
    then (let left = sub_size rb.used n in
        if left == 0
        then (record rb { used = left; read = 0; write = 0 }, n)
        else (let s = add_size rb.read n in
            (record rb { used = left; read = if leb rb.size s then sub_size s rb.size else s }, n)))
    else (rb, n)

-- A read of `*read_ptr` beyond the storage gives 0 here; `Bounds` shows that none is made.
unfoldable pub rb_read_is_printable : Ringbuffer → Bool
rb_read_is_printable rb = if rb.used == 0 then false else is_printable (get_or rb.buffer rb.read 0)

unfoldable pub rb_write_iov : Ringbuffer → Iov → ℕ × Iov
rb_write_iov rb iov =
    let free = rb_free rb in
    if ltb 0 free
    then (if ltb rb.size (add_size rb.write free)
        then (let first = sub_size rb.size rb.write in
            (2, record { base0 = rb.write; len0 = first; base1 = 0; len1 = sub_size free first }))
        else (1, record iov { base0 = rb.write; len0 = free }))
    else (0, iov)

unfoldable pub rb_write_upd : Ringbuffer → ℕ → Ringbuffer × ℕ
rb_write_upd rb len =
    let free = rb_free rb in
    let n = clip free len in
    if ltb 0 n
    then (let s = add_size rb.write n in
        (
          record rb {
            write = if ltb rb.size s then sub_size s rb.size else s;
            used = add_size rb.used n;
          },
          n,
        ))
    else (rb, n)

-- `rb_write_f`: the bytes that stand at the destination and those of the source give those left
-- at the destination.
abbrev pub Method : Type 0
Method = List ℕ → List ℕ → List ℕ

abbrev pub memmove : Method
memmove old new = new

-- `(*method)(buffer + at, buf + from, n)`
abbrev pub apply_at : Method → List ℕ → ℕ → List ℕ → ℕ → ℕ → List ℕ
apply_at method buffer at buf from n =
    splice buffer at (method (slice buffer at n) (slice buf from n))

unfoldable pub rb_write_core : Ringbuffer → List ℕ → ℕ → Method → Ringbuffer × ℕ
rb_write_core rb buf len method =
    let free = rb_free rb in
    let n = clip free len in
    if ltb 0 n
    then (let s = add_size rb.write n in
        let first = sub_size rb.size rb.write in
        let used' = add_size rb.used n in
        if ltb rb.size s
        then (let head = apply_at method rb.buffer rb.write buf 0 first in
            let over = sub_size s rb.size in
            (
              record rb {
                buffer = apply_at method head 0 buf first over;
                write = over;
                used = used';
              },
              n,
            ))
        else (
          record rb {
            buffer = apply_at method rb.buffer rb.write buf 0 n;
            write = if s == rb.size then 0 else s;
            used = used';
          },
          n,
        ))
    else (rb, n)

unfoldable pub rb_write : Ringbuffer → List ℕ → ℕ → Ringbuffer × ℕ
unfolding rb_write_core
rb_write rb buf len = rb_write_core rb buf len memmove
