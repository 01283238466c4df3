-- ===== src/Utils/UrlEncode/RoundTrip.antt =====
-- `Unescape` undoes `Escape`, and what `Unescape` says of a malformed text.
use go_b2bua.Prelude.{
  ◌⊎◌, ap, ℕ, ◌<◌, ◌/◌, ◌%◌, Bool, true, false, none, some, List, [], ◌∷◌, ◌≡◌, inl, inr, refl,
  arith, ◌==◌, Bool-cases,
}
use go_b2bua.Utils.UrlEncode.{
  contains, should_escape, hex_digit, escape, decode_nibble, decode_hex, unescape_loop, unescape,
}

abbrev pub IsBytes : List ℕ → Type 0
IsBytes [] = Unit
IsBytes (c ∷ cs) = (c < 256) × IsBytes cs

decode_hex-hex_digit :
    (c : ℕ) → c < 256 → decode_hex (hex_digit (c / 16)) (hex_digit (c % 16)) ≡ (c, false)
unfolding decode_hex decode_nibble hex_digit
decode_hex-hex_digit c h = ground arith

-- one byte that is no `%`
unescape_loop_plain :
    (c : ℕ) (rest : List ℕ) (err : Bool) {out : List ℕ} {e : Bool}
    → (c == b'%') ≡ false
    → unescape_loop rest err ≡ (out, e)
    → unescape_loop (c ∷ rest) err ≡ (c ∷ out, e)
unfolding unescape_loop
unescape_loop_plain c [] err h r = rw h (ground arith)
unescape_loop_plain c (x ∷ []) err h r = rw h (ground arith)
unescape_loop_plain c (x ∷ y ∷ rest) err h r = rw h (ground arith)

-- one escape sequence; its verdict replaces the one before it
unescape_loop_escape :
    (h l : ℕ) (rest : List ℕ) (err : Bool) {ch : ℕ} {bad : Bool} {out : List ℕ} {e : Bool}
    → decode_hex h l ≡ (ch, bad)
    → unescape_loop rest bad ≡ (out, e)
    → unescape_loop (b'%' ∷ h ∷ l ∷ rest) err ≡ (ch ∷ out, e)
unfolding unescape_loop
unescape_loop_escape h l rest err d r = ground arith

plain_not_percent :
    (u : List ℕ) (c : ℕ) → contains u b'%' ≡ false → should_escape u c ≡ false → (c == b'%') ≡ false
unfolding should_escape
plain_not_percent u c h s = ground arith

unescape_loop-escape :
    (u s : List ℕ)
    → contains u b'%' ≡ false
    → IsBytes s
    → unescape_loop (escape u s) false ≡ (s, false)
unfolding escape
unescape_loop-escape u [] h b = unfold unescape_loop in refl
unescape_loop-escape u (c ∷ s) h b = elim (Bool-cases (should_escape u c)) [
  | inl e ↦ rw e (
      unescape_loop_escape _ _ _ false (decode_hex-hex_digit c b.0)
        (unescape_loop-escape u s h b.1))
  | inr e ↦
      rw e
        (unescape_loop_plain c _ false (plain_not_percent u c h e) (unescape_loop-escape u s h b.1))
]

-- For every set of unrestricted bytes that does not hold `%`, unescaping what was escaped gives
-- the text back, with no error, whatever bytes the text holds.
pub unescape-escape :
    (u s : List ℕ) → contains u b'%' ≡ false → IsBytes s → unescape (escape u s) ≡ (s, false)
unfolding unescape
unescape-escape u s h b = unescape_loop-escape u s h b

decode_hex_bad :
    (h l : ℕ) → (decode_nibble h ≡ none) ⊎ (decode_nibble l ≡ none) → decode_hex h l ≡ (b'.', true)
unfolding decode_hex
decode_hex_bad h l (inl e) = rw e
decode_hex_bad h l (inr e) = ground (arith, e)

decode_hex_good :
    (h l : ℕ) {a b : ℕ}
    → decode_nibble h ≡ some a
    → decode_nibble l ≡ some b
    → (decode_hex h l).1 ≡ false
unfolding decode_hex
decode_hex_good h l e f = rw (e, f)

-- When an escape sequence with a first or a second digit that is not hexadecimal is followed at
-- once by a well-formed one, `Unescape` returns a dot for the first, and an error only if it returns
-- one for the text behind the two: the error of the first is lost.
pub unescape_error_lost :
    (h l h' l' : ℕ) (rest : List ℕ) {a b : ℕ}
    → (decode_nibble h ≡ none) ⊎ (decode_nibble l ≡ none)
    → decode_nibble h' ≡ some a
    → decode_nibble l' ≡ some b
    → unescape (b'%' ∷ h ∷ l ∷ b'%' ∷ h' ∷ l' ∷ rest)
      ≡ (b'.' ∷ (decode_hex h' l').0 ∷ (unescape rest).0, (unescape rest).1)
unfolding unescape
unescape_error_lost h l h' l' rest bad p q =
    unescape_loop_escape h l (b'%' ∷ h' ∷ l' ∷ rest) false (decode_hex_bad h l bad) (
      unescape_loop_escape h' l' rest true (pair (decode_hex h' l') (decode_hex_good h' l' p q))
        refl)
  where
    pair : (d : ℕ × Bool) → d.1 ≡ false → d ≡ (d.0, false)
    pair d e = ap (λ b. (d.0, b)) e
