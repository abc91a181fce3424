-- ===== src/Protocol/Socket.antt =====
-- Reading values off a socket: `get_int`, `get_time`, `get_str` of protocol.c.
-- recv (2) is a parameter: what a call returns depends on the other end and on the kernel. A function
-- that returns 0 or NULL on an error returns `none`, beside the state of the socket.
pub mod Laws
use mocp.Prelude.{
  ℕ, zero, suc, ◌+◌, ◌-◌, ◌≤◌, ◌<◌, ◌≡◌, List, [], ◌∷◌, ◌++◌, Bool, Option, none, some, ltb, leb,
  ◌==◌, if◌then◌else◌, length, take, drop,
}
use mocp.Prelude.Int.{ℤ, pos, negsuc, pos_part}
use mocp.Bytes.{Str, sizeof_int, sizeof_time, bytes_int, bytes_time, c_string}

-- -1, or the bytes read; no bytes at the end of the stream
pub data Recv : Type 0 where
  failed : Recv
  received : List ℕ → Recv

pub record Socket : Type 1 where
  pub State : Type 0
  pub recv : State → ℕ → Recv × State

-- What recv (2) says of a stream with `pending` bytes to come: a call for n > 0 bytes returns the
-- first of them, one at least and n at most; a word of 8 bytes or less that has arrived is returned
-- whole.
pub record Delivers (k : Socket) : Type 0 where
  pub pending : k.State → List ℕ
  pub some_bytes :
      (s : k.State) (n : ℕ)
      → 0 < n
      → n ≤ length (pending s)
      → (m : ℕ) × (s' : k.State) × (0 < m)
        × (m ≤ n)
        × (k.recv s n ≡ (received (take m (pending s)), s'))
        × (pending s' ≡ drop m (pending s))
  pub whole_word :
      (s : k.State) (n : ℕ)
      → n ≤ 8
      → n ≤ length (pending s)
      → (s' : k.State) × (k.recv s n ≡ (received (take n (pending s)), s'))
        × (pending s' ≡ drop n (pending s))

-- `MAX_SEND_STRING` of common.h
abbrev pub max_send_string : ℕ
max_send_string = 4096

-- `RANGE (0, len, MAX_SEND_STRING)`
abbrev pub in_range : ℤ → Bool
in_range (pos n) = leb n max_send_string
in_range (negsuc n) = Bool.false

-- A read that may fail: state passing with an option.
abbrev pub Read : Type 0 → Type 0 → Type 0
Read S A = S → Option A × S

-- what follows a read, by how it ended
abbrev pub continue : {S A B : Type 0} → (A → Read S B) → Option A × S → Option B × S
continue f (none, s) = (none, s)
continue f (some a, s) = f a s

infixl 5 ◌>>=◌
abbrev pub ◌>>=◌ : {S A B : Type 0} → Read S A → (A → Read S B) → Read S B
◌>>=◌ m f s = continue f (m s)

abbrev pub pure : {S A : Type 0} → A → Read S A
pure a s = (some a, s)

abbrev pub fail : {S A : Type 0} → Read S A
fail s = (none, s)

-- `return res == ssizeof (x)`: a read that is shorter than the value is an error.
abbrev pub whole : {S : Type 0} → ℕ → (List ℕ → ℤ) → Recv × S → Option ℤ × S
whole n value (failed, s) = (none, s)
whole n value (received bytes, s) = if length bytes == n then (some (value bytes), s) else (none, s)

-- A round of the loop of `get_str`: -1 and the end of the stream are errors.
abbrev pub chunk : {S : Type 0} → (List ℕ → Read S (List ℕ)) → Recv × S → Option (List ℕ) × S
chunk next (failed, s) = (none, s)
chunk next (received [], s) = (none, s)
chunk next (received (b ∷ bytes), s) = next (b ∷ bytes) s

module _ (k : Socket) where
  unfoldable pub get_int : Read k.State ℤ
  get_int s = whole sizeof_int bytes_int (k.recv s sizeof_int)

  unfoldable pub get_time : Read k.State ℤ
  get_time s = whole sizeof_time bytes_time (k.recv s sizeof_time)

  -- `while (nread < len)`; `str` holds the `nread` bytes read so far. On fuel.
  pub get_str_loop : ℕ → ℕ → List ℕ → Read k.State (List ℕ)
  get_str_loop zero len str s = if ltb (length str) len then (none, s) else (some str, s)
  get_str_loop (suc fuel) len str s =
      if ltb (length str) len
      then chunk (λ bytes s'. get_str_loop fuel len (str ++ bytes) s') (k.recv s (len - length str))
      else (some str, s)

  -- `get_str`. A round of the loop reads a byte at least, so `len` rounds are enough.
  unfoldable pub get_str : Read k.State Str
  get_str = get_int >>= λ len.
      if in_range len
      then (get_str_loop (pos_part len) (pos_part len) [] >>= λ str. pure (c_string str))
      else fail
