-- ===== src/Host/Order.antt =====
-- Loads of 16 and 32 bits in the byte order of the host, `htons` and `ntohl`. A packet is the bytes
-- that were captured; a load behind its end is `none`.
use arping.Prelude.{ℕ, ◌+◌, ◌*◌, ◌/◌, ◌%◌, ◌<◌, ◌≡◌, Option, none, some, List, arith, get_elem?}

pub data Endian : Type 0 where
  little big : Endian

abbrev pub Packet : Type 0
Packet = List ℕ

infixl 5 ◌>>=◌
abbrev pub ◌>>=◌ {ℓ κ} : {A : Type ℓ} {B : Type κ} → Option A → (A → Option B) → Option B
none >>= f = none
some a >>= f = f a

-- A 16-bit object whose bytes in memory are `a` and `b`.
unfoldable pub word16 : Endian → ℕ → ℕ → ℕ
word16 little a b = a + 256 * b
word16 big a b = 256 * a + b

unfoldable pub htons : Endian → ℕ → ℕ
htons little x = (x % 256) * 256 + x / 256 % 256
htons big x = x

unfoldable pub word32 : Endian → ℕ → ℕ → ℕ → ℕ → ℕ
word32 little a b c d = a + 256 * b + 65536 * c + 16777216 * d
word32 big a b c d = 16777216 * a + 65536 * b + 256 * c + d

unfoldable pub ntohl : Endian → ℕ → ℕ
ntohl little x =
    x % 256 * 16777216 + x / 256 % 256 * 65536 + x / 65536 % 256 * 256 + x / 16777216 % 256
ntohl big x = x

-- `htons` of a loaded field is its value in network order, on either host.
pub htons-word16 : (e : Endian) (a b : ℕ) → a < 256 → b < 256 → htons e (word16 e a b) ≡ 256 * a + b
unfolding htons word16
htons-word16 little a b ha hb = omega arith
htons-word16 big a b ha hb = omega arith

pub ntohl-word32 :
    (e : Endian) (a b c d : ℕ)
    → a < 256
    → b < 256
    → c < 256
    → d < 256
    → ntohl e (word32 e a b c d) ≡ 16777216 * a + 65536 * b + 256 * c + d
unfolding ntohl word32
ntohl-word32 little a b c d ha hb hc hd = omega arith
ntohl-word32 big a b c d ha hb hc hd = omega arith

abbrev pub load8 : Packet → ℕ → Option ℕ
load8 p i = get_elem? p i

abbrev pub load16 : Endian → Packet → ℕ → Option ℕ
load16 e p i = do a ← load8 p i; b ← load8 p (i + 1); some (word16 e a b)

abbrev pub load32 : Endian → Packet → ℕ → Option ℕ
load32 e p i = do
  a ← load8 p i
  b ← load8 p (i + 1)
  c ← load8 p (i + 2)
  d ← load8 p (i + 3)
  some (word32 e a b c d)
