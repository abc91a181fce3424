-- ===== src/Bytes.antt =====
-- C integers in memory: two's complement words of w bits, stored least significant byte first (the
-- byte order of the machine; a client and its server run on one machine), and C strings.
use mocp.Prelude.{
  ℕ, zero, suc, ◌+◌, ◌-◌, ◌*◌, ◌/◌, ◌%◌, ◌^◌, ◌<◌, ◌≡◌, ◌≢◌, refl, ap, List, [], ◌∷◌, ltb, ◌==◌,
  if◌then◌else◌, length, arith,
}
use mocp.Prelude.Int.{ℤ, pos, negsuc}

-- the bit pattern of an integer in w bits
abbrev pub word : ℕ → ℤ → ℕ
word w (pos n) = n % 2 ^ w
word w (negsuc n) = 2 ^ w - 1 - n % 2 ^ w

-- the integer that a pattern of w bits stands for
abbrev pub of_word : ℕ → ℕ → ℤ
of_word w x = if ltb x (2 ^ (w - 1)) then pos x else negsuc (2 ^ w - 1 - x)

-- the k lowest bytes of a number
pub le_bytes : ℕ → ℕ → List ℕ
le_bytes zero x = []
le_bytes (suc k) x = x % 256 ∷ le_bytes k (x / 256)

unfoldable pub of_le_bytes : List ℕ → ℕ
of_le_bytes [] = 0
of_le_bytes (b ∷ bs) = b + 256 * of_le_bytes bs

-- `sizeof (int)` and `sizeof (time_t)`
abbrev pub sizeof_int : ℕ
sizeof_int = 4

abbrev pub sizeof_time : ℕ
sizeof_time = 8

unfoldable pub int_bytes : ℤ → List ℕ
int_bytes n = le_bytes sizeof_int (word 32 n)

unfoldable pub bytes_int : List ℕ → ℤ
bytes_int bs = of_word 32 (of_le_bytes bs)

unfoldable pub time_bytes : ℤ → List ℕ
time_bytes n = le_bytes sizeof_time (word 64 n)

unfoldable pub bytes_time : List ℕ → ℤ
bytes_time bs = of_word 64 (of_le_bytes bs)

-- the values of a signed type of w bits
abbrev pub IsWord : ℕ → ℤ → Type 0
IsWord w (pos n) = n < 2 ^ (w - 1)
IsWord w (negsuc n) = n < 2 ^ (w - 1)

pub length-le_bytes : (k x : ℕ) → length (le_bytes k x) ≡ k
unfolding le_bytes
length-le_bytes zero x = refl
length-le_bytes (suc k) x = ap suc (length-le_bytes k (x / 256))

abbrev cap : ℕ → ℕ
cap zero = 1
cap (suc k) = 256 * cap k

pub of_le_bytes-le_bytes : (k x : ℕ) → x < cap k → of_le_bytes (le_bytes k x) ≡ x
unfolding of_le_bytes le_bytes
of_le_bytes-le_bytes zero x h = omega arith
of_le_bytes-le_bytes (suc k) x h = omega (arith, of_le_bytes-le_bytes k (x / 256) (omega arith))

pub bytes_int-int_bytes : (n : ℤ) → IsWord 32 n → bytes_int (int_bytes n) ≡ n
unfolding bytes_int int_bytes
bytes_int-int_bytes (pos n) h = ground (arith, of_le_bytes-le_bytes 4 (word 32 (pos n)))
bytes_int-int_bytes (negsuc n) h = ground (arith, of_le_bytes-le_bytes 4 (word 32 (negsuc n)))

pub bytes_time-time_bytes : (n : ℤ) → IsWord 64 n → bytes_time (time_bytes n) ≡ n
unfolding bytes_time time_bytes
bytes_time-time_bytes (pos n) h = ground (arith, of_le_bytes-le_bytes 8 (word 64 (pos n)))
bytes_time-time_bytes (negsuc n) h = ground (arith, of_le_bytes-le_bytes 8 (word 64 (negsuc n)))

pub length-int_bytes : (n : ℤ) → length (int_bytes n) ≡ sizeof_int
unfolding int_bytes
length-int_bytes n = length-le_bytes 4 (word 32 n)

pub length-time_bytes : (n : ℤ) → length (time_bytes n) ≡ sizeof_time
unfolding time_bytes
length-time_bytes n = length-le_bytes 8 (word 64 n)

-- A C string is its bytes up to the first NUL.
abbrev pub Str : Type 0
Str = List ℕ

pub c_string : List ℕ → Str
c_string [] = []
c_string (b ∷ bs) = if b == 0 then [] else b ∷ c_string bs

abbrev pub IsString : Str → Type 0
IsString [] = Unit {0}
IsString (b ∷ bs) = (b ≢ 0) × IsString bs

pub c_string-eq : (s : Str) → IsString s → c_string s ≡ s
unfolding c_string
c_string-eq [] h = refl
c_string-eq (b ∷ bs) h = ground (arith, c_string-eq bs h.1)
