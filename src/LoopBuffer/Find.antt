-- ===== src/LoopBuffer/Find.antt =====
-- The search of base/LoopBuffer.cpp. The comparison reads on behind the bytes that are searched, so
-- the search takes all the memory from its start on: the rest of the block, and `behind`, what
-- stands in memory behind the block.
use hudp.Common.{
  ℕ, zero, suc, ◌+◌, ◌-◌, Bool, true, false, Option, none, some, List, [], ◌∷◌, ◌++◌, ◌&&◌,
  if◌then◌else◌, ltb, leb, ◌==◌, drop, length, get_or,
}
use hudp.LoopBuffer.{LoopBuffer, read_bytes, read_clear}

-- `memchr`: how far the first `c` of the first `n` bytes is.
abbrev pub memchr : List ℕ → ℕ → ℕ → Option ℕ
memchr bytes c zero = none
memchr [] c (suc n) = none
memchr (x ∷ bytes) c (suc n) =
    if x == c then some 0 else elim (memchr bytes c n) [ none ↦ none | some i ↦ some (suc i) ]

-- `memcmp(find, ch, ch_len) == 0`.
abbrev pub starts_with : List ℕ → List ℕ → Bool
starts_with [] bytes = true
starts_with (c ∷ cs) [] = false
starts_with (c ∷ cs) (x ∷ bytes) = (c == x) && starts_with cs bytes

-- The loop of `_FindStrInMem`: `at` is `buff - buffer`, which is `finded`; `bytes` is the memory
-- from there on. The answer is `find - buffer`.
unfoldable pub find_loop : ℕ → ℕ → List ℕ → ℕ → List ℕ → Option ℕ
find_loop zero at bytes buffer_len s = none
find_loop (suc fuel) at bytes buffer_len s = elim (memchr bytes (get_or s 0 0) (buffer_len - at)) [
  | none ↦ none
  | some i ↦
      let finded = at + i + 1 in
      let again = find_loop fuel finded (drop (i + 1) bytes) buffer_len s in
      if starts_with s (drop i bytes)
      then some (at + i)
      else if ltb (buffer_len - finded) (length s)
      then none
      else again
]

-- A round uses up a byte at least.
unfoldable pub find_str_in_mem : List ℕ → ℕ → List ℕ → Option ℕ
unfolding find_loop
find_str_in_mem bytes buffer_len s = find_loop (suc buffer_len) 0 bytes buffer_len s

-- `FindStr`: how many bytes there are up to the end of the string, or 0.
unfoldable pub find_str : List ℕ → List ℕ → LoopBuffer → ℕ
unfolding find_str_in_mem
find_str behind s b =
    let s_len = length s in
    let all = b.memory ++ behind in
    let near = b.write - b.read in
    let end = b.total_size - b.read in
    let wrapped : ℕ = elim (find_str_in_mem (drop b.read all) end s) [
      | some find ↦ find + s_len
      | none ↦ elim (find_str_in_mem all b.write s) [
        | some find ↦ find + s_len + b.total_size - b.read
        | none ↦ 0
      ]
    ] in
    if ltb b.read b.write
    then elim (find_str_in_mem (drop b.read all) near s) [ some find ↦ find + s_len | none ↦ 0 ]
    else if ltb b.write b.read
    then wrapped
    else if b.can_read
    then wrapped
    else 0

-- `ReadUntil` with a string: what `Read` answers, and `need_len`, which is left as it is where the
-- string is not found or `res` is long enough. The call of `Read` asks for `len` bytes, not for
-- those up to the end of the string.
unfoldable pub read_until_str : List ℕ → ℕ → List ℕ → ℕ → LoopBuffer → (List ℕ × ℕ × LoopBuffer) × ℕ
unfolding find_str read_bytes
read_until_str behind len find need_len b =
    let size = find_str behind find b in
    if size == 0
    then (([], 0, b), need_len)
    else if leb size len
    then (read_clear len b, need_len)
    else (([], 0, b), size)
