-- ===== src/Ring/Search.antt =====
-- The searches of src/ringbuffer.c, `rb_read_until_char_iov` and `rb_read_until_mem_iov`, and the
-- `memmem` of src/memmem.c under them.
pub mod Chars
pub mod Memmem
pub mod Pairs
pub mod Wrapped
pub mod Misses
use mathlib.Core.Option
use asterisk_chan_quectel.Prelude.{
  ℕ, zero, suc, ◌+◌, ◌-◌, Bool, true, false, ◌&&◌, ◌||◌, Option, none, some, List, [], ◌∷◌, ltb,
  leb, ◌==◌, if◌then◌else◌, add_size, sub_size, slice, get_or, drop, length,
}
use asterisk_chan_quectel.Ring.{Ringbuffer, Iov, is_printable, bytes_eq}

-- One more byte before the place that was found.
abbrev pub shift : Option ℕ → Option ℕ
shift none = none
shift (some n) = some (suc n)

-- The offset of the first `ch`, searched up to the first printable byte.
unfoldable pub np_memchr : List ℕ → ℕ → Option ℕ
np_memchr [] ch = none
np_memchr (b ∷ bs) ch =
    let rest = np_memchr bs ch in
    if is_printable b then none else (if b == ch then some 0 else shift rest)

unfoldable pub rb_read_until_char_iov : Ringbuffer → Iov → ℕ → ℕ × Iov
rb_read_until_char_iov rb iov c =
    if ltb 0 rb.used
    then (if ltb rb.size (add_size rb.read rb.used)
        then (let first = sub_size rb.size rb.read in
            let iov1 = record iov { base0 = rb.read; len0 = first } in
            elim (np_memchr (slice rb.buffer rb.read first) c) [
              | some p ↦ (1, record iov1 { len0 = p; len1 = 0 })
              | none ↦ elim (np_memchr (slice rb.buffer 0 (sub_size rb.used first)) c) [
                | some p ↦ (2, record iov1 { base1 = 0; len1 = p })
                | none ↦ (0, iov1)
              ]
            ])
        else (let iov1 = record iov { base0 = rb.read; len0 = rb.used } in
            elim (np_memchr (slice rb.buffer rb.read rb.used) c) [
              | some p ↦ (1, record iov1 { len0 = p; len1 = 0 })
              | none ↦ (0, iov1)
            ]))
    else (0, iov)

-- `memchr`
unfoldable pub memchr : List ℕ → ℕ → Option ℕ
memchr [] ch = none
memchr (b ∷ bs) ch = let rest = memchr bs ch in if b == ch then some 0 else shift rest

-- `for (cur = cl; cur <= last; cur++)`, with the rounds left and the bytes from `cur` on.
unfoldable pub memmem_loop : ℕ → List ℕ → List ℕ → Option ℕ
memmem_loop zero cur s = none
memmem_loop (suc rounds) cur s =
    let rest = memmem_loop rounds (drop 1 cur) s in
    if get_or cur 0 0 == get_or s 0 0 && bytes_eq (slice cur 0 (length s)) s
    then some 0
    else shift rest

unfoldable pub memmem : List ℕ → List ℕ → Option ℕ
memmem l s =
    if length l == 0 || length s == 0
    then none
    else (if ltb (length l) (length s)
        then none
        else (if length s == 1
            then memchr l (get_or s 0 0)
            else memmem_loop (length l - length s + 1) l s))

-- How the loop over an occurrence that goes round the end of the storage is left.
pub data Straddle : Type 0 where
  found ended passed : Iov → Straddle

-- `while (i < len)`, with fuel. A byte past the end of `mem` counts as one that differs.
unfoldable pub straddle : ℕ → Ringbuffer → List ℕ → ℕ → Iov → ℕ → Straddle
straddle zero rb mem len iov i = passed iov
straddle (suc fuel) rb mem len iov i =
    let rest = straddle fuel rb mem len (record iov { base1 = add_size iov.base1 1 }) (i + 1) in
    if ltb i len
    then (if bytes_eq (slice rb.buffer iov.base1 (sub_size len i)) (slice mem 0 (sub_size len i))
          && bytes_eq (slice rb.buffer 0 i) (slice mem i i)
        then found (record iov { len0 = sub_size iov.base1 iov.base0; len1 = 0 })
        else (if rb.used == add_size iov.len0 i then ended iov else rest))
    else passed iov

-- What follows the loop: a search of the part from the start of the storage.
unfoldable pub after_straddle : Ringbuffer → List ℕ → ℕ → Straddle → ℕ × Iov
after_straddle rb mem len (found iov) = (1, iov)
after_straddle rb mem len (ended iov) = (0, iov)
after_straddle rb mem len (passed iov) =
    if leb (add_size iov.len0 len) rb.used
    then elim (memmem (slice rb.buffer 0 (sub_size rb.used iov.len0)) (slice mem 0 len)) [
      | some zero ↦ (1, record iov { len1 = 0 })
      | some (suc p) ↦ (2, record iov { base1 = 0; len1 = suc p })
      | none ↦ (0, iov)
    ]
    else (0, iov)

-- The branch for stored bytes that go round the end of the storage.
unfoldable pub until_mem_wrapped : Ringbuffer → Iov → List ℕ → ℕ → ℕ × Iov
unfolding straddle after_straddle
until_mem_wrapped rb iov mem len =
    let first = sub_size rb.size rb.read in
    let iov1 = record iov { base0 = rb.read; len0 = first } in
    let looped = λ (i base1 : ℕ).
      after_straddle rb mem len (straddle len rb mem len (record iov1 { base1 = base1 }) i) in
    if leb len first
    then elim (memmem (slice rb.buffer rb.read first) (slice mem 0 len)) [
      | some p ↦ (1, record iov1 { len0 = p; len1 = 0 })
      | none ↦ looped 1 (add_size (sub_size (add_size rb.read first) len) 1)
    ]
    else looped (sub_size len first) rb.read

unfoldable pub rb_read_until_mem_iov : Ringbuffer → Iov → List ℕ → ℕ → ℕ × Iov
unfolding until_mem_wrapped
rb_read_until_mem_iov rb iov mem len =
    if len == 1
    then rb_read_until_char_iov rb iov (get_or mem 0 0)
    else (if ltb 0 rb.used && ltb 0 len && leb len rb.used
        then (if ltb rb.size (add_size rb.read rb.used)
            then until_mem_wrapped rb iov mem len
            else (let iov1 = record iov { base0 = rb.read; len0 = rb.used } in
                elim (memmem (slice rb.buffer rb.read rb.used) (slice mem 0 len)) [
                  | some p ↦ (1, record iov1 { len0 = p; len1 = 0 })
                  | none ↦ (0, iov1)
                ]))
        else (0, iov))
