-- ===== src/Binary/Utf8.antt =====
-- `utf8.Valid` of Go's library: well-formed UTF-8 as Unicode defines it (its table 3-7).
use shadowlark_go.Base.{
  ℕ, zero, suc, Bool, true, false, ◌&&◌, leb, ◌==◌, List, [], ◌∷◌, if◌then◌else◌,
}

within : ℕ → ℕ → ℕ → Bool
within lo hi b = leb lo b && leb b hi

-- What the byte after the first may be: the bounds that a row of the table gives, 0x80 and 0xbf
-- in most. Where no character begins with `lead`, no byte may follow.
low : ℕ → ℕ
low lead =
    if lead == 0xe0
    then 0xa0
    else if lead == 0xf0
    then 0x90
    else if leb 0xc2 lead && leb lead 0xf4
    then 0x80
    else 0xff

high : ℕ → ℕ
high lead =
    if lead == 0xed
    then 0x9f
    else if lead == 0xf4
    then 0x8f
    else if leb 0xc2 lead && leb lead 0xf4
    then 0xbf
    else 0

-- How many bytes must follow a first byte.
tail_length : ℕ → ℕ
tail_length lead =
    if leb lead 0x7f
    then 0
    else if leb 0xe0 lead && leb lead 0xef
    then 2
    else if leb 0xf0 lead && leb lead 0xf4
    then 3
    else 1

-- `pending` bytes of a character are still due, the next of them from `lo` to `hi`.
scan : ℕ → ℕ → ℕ → List ℕ → Bool
unfolding within low high tail_length
scan zero lo hi [] = true
scan zero lo hi (b ∷ bs) = scan (tail_length b) (low b) (high b) bs
scan (suc n) lo hi [] = false
scan (suc n) lo hi (b ∷ bs) = let rest = scan n 0x80 0xbf bs in within lo hi b && rest

unfoldable pub valid : List ℕ → Bool
unfolding scan
valid bs = scan 0 0 0 bs
