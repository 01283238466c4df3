-- ===== src/Utils/UrlEncode.antt =====
-- `UrlEncode` of sippy/utils/urlencode.go. A Go string is a list of bytes (numbers below 256);
-- the set `unrestricted` is the list of bytes that it was built from.
pub mod RoundTrip
use go_b2bua.Prelude.{
  ℕ, ◌+◌, ◌-◌, ◌*◌, ◌/◌, ◌%◌, Bool, true, false, not, ◌&&◌, ◌||◌, Option, none, some, List, [], ◌∷◌,
  leb, ◌==◌, if◌then◌else◌,
}

-- the set membership `self.unrestricted[c]`
unfoldable pub contains : List ℕ → ℕ → Bool
contains [] c = false
contains (x ∷ xs) c = x == c || contains xs c

pub should_escape : List ℕ → ℕ → Bool
should_escape unrestricted c =
    if (leb b'A' c && leb c b'Z') || (leb b'a' c && leb c b'z') || (leb b'0' c && leb c b'9')
    then false
    else not (contains unrestricted c)

-- `"0123456789ABCDEF"[n]`
pub hex_digit : ℕ → ℕ
hex_digit n = if leb n 9 then b'0' + n else b'A' + (n - 10)

unfoldable pub escape : List ℕ → List ℕ → List ℕ
escape unrestricted [] = []
escape unrestricted (c ∷ qry) =
    let rest = escape unrestricted qry in
    if should_escape unrestricted c
    then b'%' ∷ hex_digit (c / 16) ∷ hex_digit (c % 16) ∷ rest
    else c ∷ rest

-- `(byte, bool)`: none when the flag is false
unfoldable pub decode_nibble : ℕ → Option ℕ
decode_nibble c =
    if leb b'0' c && leb c b'9'
    then some (c - b'0')
    else if leb b'a' c && leb c b'f'
    then some (c - b'a' + 10)
    else if leb b'A' c && leb c b'F'
    then some (c - b'A' + 10)
    else none

abbrev join_nibbles : Option ℕ → Option ℕ → ℕ × Bool
join_nibbles (some c1) (some c2) = ((c1 * 16 + c2) % 256, false)
join_nibbles _ _ = (b'.', true)

-- the byte, and whether an error came with it
pub decode_hex : ℕ → ℕ → ℕ × Bool
decode_hex h l = join_nibbles (decode_nibble h) (decode_nibble l)

-- The loop of `Unescape` on the bytes left, with the current value of `err`.
unfoldable pub unescape_loop : List ℕ → Bool → List ℕ × Bool
unescape_loop [] err = ([], err)
unescape_loop (c ∷ []) err = if c == b'%' then (b'.' ∷ [], true) else (c ∷ [], err)
unescape_loop (c ∷ h ∷ []) err =
    let (out, err') = unescape_loop (h ∷ []) err in
    if c == b'%' then (b'.' ∷ [], true) else (c ∷ out, err')
unescape_loop (c ∷ h ∷ l ∷ rest) err =
    let (ch, bad) = decode_hex h l in
    let (out, err') = unescape_loop rest bad in
    let (out2, err2) = unescape_loop (h ∷ l ∷ rest) err in
    if c == b'%' then (ch ∷ out, err') else (c ∷ out2, err2)

unfoldable pub unescape : List ℕ → List ℕ × Bool
unfolding unescape_loop decode_hex decode_nibble
unescape qry = unescape_loop qry false
