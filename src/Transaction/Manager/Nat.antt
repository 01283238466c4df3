-- ===== src/Transaction/Manager/Nat.antt =====
-- The private and the unresolvable addresses of sippy/sip_transaction_manager.go. `net.ParseIP`
-- with `To4` is a parameter: the four bytes of an address, or none.
use Prim.Native.Nat.{bit_and}
use mathlib.Core.Logic.{◌↔◌}
use text.Mathlib.Text.{◌==◌ as str_eq}
use go_b2bua.Prelude.{
  ℕ, zero, suc, ◌<◌, ◌≤◌, ◌*◌, ◌/◌, ◌⊎◌, ◌≡◌, refl, arith, Bool, true, false, ◌&&◌, ◌||◌, String,
  Option, none, some, List, [], ◌∷◌, ◌==◌,
}

pub record Ipv4 : Type 0 where
  pub a : ℕ
  pub b : ℕ
  pub c : ℕ
  pub d : ℕ

-- `ip.Mask(mask)`
abbrev masked : Ipv4 → Ipv4 → Ipv4
masked ip mask = record {
  a = bit_and ip.a mask.a;
  b = bit_and ip.b mask.b;
  c = bit_and ip.c mask.c;
  d = bit_and ip.d mask.d;
}

abbrev same_ip : Ipv4 → Ipv4 → Bool
same_ip x y = (x.a == y.a) && ((x.b == y.b) && ((x.c == y.c) && (x.d == y.d)))

-- `NETS_1918`: networks with their masks
abbrev pub nets_1918 : List (Ipv4 × Ipv4)
nets_1918 =
    (record { a = 10; b = 0; c = 0; d = 0 }, record { a = 255; b = 0; c = 0; d = 0 })
    ∷ (record { a = 172; b = 16; c = 0; d = 0 }, record { a = 255; b = 240; c = 0; d = 0 })
    ∷ (record { a = 192; b = 168; c = 0; d = 0 }, record { a = 255; b = 255; c = 0; d = 0 })
    ∷ []

unfoldable pub in_some : Ipv4 → List (Ipv4 × Ipv4) → Bool
in_some ip [] = false
in_some ip ((net, mask) ∷ nets) = same_ip (masked ip mask) net || in_some ip nets

-- `check1918` on an address that is read
unfoldable pub is_private : Option Ipv4 → Bool
unfolding in_some
is_private none = false
is_private (some ip) = in_some ip nets_1918

unfoldable pub check1918 : (String → Option Ipv4) → String → Bool
unfolding is_private
check1918 parse_ip host = is_private (parse_ip host)

-- `strings.HasSuffix`
unfoldable pub has_suffix : String → String → Bool
has_suffix String.[] suffix = str_eq "" suffix
has_suffix (String.◌∷◌ c s) suffix = str_eq (String.◌∷◌ c s) suffix || has_suffix s suffix

-- `check7118`
unfoldable pub check7118 : String → Bool
unfolding has_suffix
check7118 host = has_suffix host ".invalid"

abbrev all_below : ℕ → (ℕ → Bool) → Bool
all_below zero p = true
all_below (suc n) p = p n && all_below n p

all_below_lem : (n : ℕ) (p : ℕ → Bool) (x : ℕ) → all_below n p ≡ true → x < n → p x ≡ true
all_below_lem zero p x h l = absurd (omega arith)
all_below_lem (suc n) p x h l = ground (arith, all_below_lem n p x)

==-true : (a b : ℕ) → (a == b) ≡ true → a ≡ b
==-true a b h = ground arith

bit_and-255 : (x : ℕ) → x < 256 → bit_and x 255 ≡ x
bit_and-255 x l = ==-true _ _ (all_below_lem 256 (λ x. bit_and x 255 == x) x refl l)

bit_and-zero : (x : ℕ) → x < 256 → bit_and x 0 ≡ 0
bit_and-zero x l = ==-true _ _ (all_below_lem 256 (λ x. bit_and x 0 == 0) x refl l)

bit_and-240 : (x : ℕ) → x < 256 → bit_and x 240 ≡ x / 16 * 16
bit_and-240 x l = ==-true _ _ (all_below_lem 256 (λ x. bit_and x 240 == x / 16 * 16) x refl l)

-- A byte each.
pub record IsIpv4 (ip : Ipv4) : Type 0 where
  pub a_lt : ip.a < 256
  pub b_lt : ip.b < 256
  pub c_lt : ip.c < 256
  pub d_lt : ip.d < 256

-- 10.x.x.x, 172.16.x.x to 172.31.x.x, 192.168.x.x
abbrev pub IsPrivateRange : Ipv4 → Type 0
IsPrivateRange ip =
    (ip.a ≡ 10) ⊎ (((ip.a ≡ 172) × (16 ≤ ip.b) × (ip.b ≤ 31)) ⊎ ((ip.a ≡ 192) × (ip.b ≡ 168)))

-- `check1918` holds for the addresses in the three private ranges, and for no other.
pub is_private-Range : (ip : Ipv4) → IsIpv4 ip → (is_private (some ip) ≡ true) ↔ IsPrivateRange ip
unfolding is_private
is_private-Range ip v = (
  λ h. ground (
    arith,
    bit_and-255 ip.a v.a_lt,
    bit_and-255 ip.b v.b_lt,
    bit_and-240 ip.b v.b_lt,
    bit_and-zero ip.b v.b_lt,
    bit_and-zero ip.c v.c_lt,
    bit_and-zero ip.d v.d_lt,
  ),
  λ h. ground (
    arith,
    bit_and-255 ip.a v.a_lt,
    bit_and-255 ip.b v.b_lt,
    bit_and-240 ip.b v.b_lt,
    bit_and-zero ip.b v.b_lt,
    bit_and-zero ip.c v.c_lt,
    bit_and-zero ip.d v.d_lt,
  ),
)
